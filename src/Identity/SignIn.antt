-- ===== src/Identity/SignIn.antt =====
-- When `Login` of internal/identity/service.go gives tokens, and with what error it refuses.
use incident_garden.Prelude.{
  String, ◌≡◌, refl, ap, ◌∙◌, inl, inr, true, false, not, Option, none, some, [], arith, find_first,
  Bool-cases, Option-cases, if◌then◌else◌,
}
use incident_garden.Errors.{
  Error, ok, err, user_not_found, invalid_credentials, account_deactivated,
}
use incident_garden.Routine.{Routine, ◌>>=◌, pure, after, fail}
use incident_garden.Pool.{Pool}
use incident_garden.Pool.Runs.{fail_if_passes, fail_if_stops, pure_runs, try_runs, try_goes_on}
use incident_garden.Identity.Issue.{with_tokens, new_pair, CanIssue, generate_tokens_runs}
use incident_garden.Identity.Users.{User, Accounts}
use incident_garden.Identity.Repository.{one_row, has_email, select_user_by_email}
use incident_garden.Identity.Jwt.{Crypto, generate_tokens}
use incident_garden.Identity.Service.{
  IdentityService, LoginInput, is_user_not_found, known_user, login,
}

-- Why the credentials are refused, from the row that has the address.
abbrev pub login_refusal : Crypto → Option User → String → Option Error
login_refusal crypto none password = some invalid_credentials
login_refusal crypto (some u) password =
    if not (crypto.matches u.password_hash password)
    then some invalid_credentials
    else if not u.is_active
    then some account_deactivated
    else none

some_inj : {x y : Error} → ◌≡◌ {A = Option Error} (some x) (some y) → x ≡ y
some_inj h = ground (arith, h)

module _ (crypto : Crypto) (svc : IdentityService) (input : LoginInput) (p : Pool Accounts)
    (served : p.faults ≡ []) where
  login_missing :
      find_first (has_email input.email) p.state.users ≡ none
      → login crypto svc input p ≡ (err invalid_credentials, p)
  unfolding login known_user is_user_not_found select_user_by_email fail ◌>>=◌ after
  login_missing missing =
      try_goes_on _ p served _ user_not_found (ap (λ o. one_row o user_not_found p.state) missing)

  -- With a row, the checks of the password and of the account are next.
  module _ (u : User) (found : find_first (has_email input.email) p.state.users ≡ some u) where
    row_found : select_user_by_email input.email p.now p.state ≡ ok (u, p.state)
    unfolding select_user_by_email
    row_found = ap (λ o. one_row o user_not_found p.state) found

    login_wrong :
        crypto.matches u.password_hash input.password ≡ false
        → login crypto svc input p ≡ (err invalid_credentials, p)
    unfolding login known_user
    login_wrong wrong =
        try_runs _ p served _ u p.state row_found
        ∙ pure_runs u _ p
        ∙ fail_if_stops _ invalid_credentials _ p (ap not wrong)

    login_inactive :
        crypto.matches u.password_hash input.password ≡ true
        → u.is_active ≡ false
        → login crypto svc input p ≡ (err account_deactivated, p)
    unfolding login known_user
    login_inactive right inactive =
        try_runs _ p served _ u p.state row_found
        ∙ pure_runs u _ p
        ∙ fail_if_passes _ invalid_credentials _ p (ap not right)
        ∙ fail_if_stops _ account_deactivated _ p (ap not inactive)

-- Where the server refuses nothing, a Login is refused exactly as the row of the address calls for:
-- an address that nobody has and a wrong password look the same, an account that is not active is
-- told so only with the right password. Nothing at all has changed then.
pub login-refuses :
    (crypto : Crypto) (svc : IdentityService) (input : LoginInput) (p : Pool Accounts) (x : Error)
    → p.faults ≡ []
    → login_refusal crypto (find_first (has_email input.email) p.state.users) input.password
      ≡ some x
    → login crypto svc input p ≡ (err x, p)
login-refuses crypto svc input p x served h =
    elim (Option-cases (find_first (has_email input.email) p.state.users)) [
      | inl missing ↦
          login_missing crypto svc input p served missing
          ∙ ap (λ e. (err e, p)) (some_inj (ground (arith, missing, h)))
      | inr (u, found) ↦ elim (Bool-cases (crypto.matches u.password_hash input.password)) [
        | inl right ↦ elim (Bool-cases u.is_active) [
          | inl active ↦ ground (arith, found, right, active, h)
          | inr inactive ↦
              login_inactive crypto svc input p served u found right inactive
              ∙ ap (λ e. (err e, p)) (some_inj (ground (arith, found, right, inactive, h)))
        ]
        | inr wrong ↦
            login_wrong crypto svc input p served u found wrong
            ∙ ap (λ e. (err e, p)) (some_inj (ground (arith, found, wrong, h)))
      ]
    ]

-- A routine that runs into another one.
then_pure :
    {A B : Type 0} (m : Routine (Pool Accounts) A) (f : A → B) (p q : Pool Accounts) (a : A)
    → m p ≡ (ok a, q)
    → (m >>= λ x. pure (f x)) p ≡ (ok (f a), q)
unfolding ◌>>=◌ after pure
then_pure m f p q a h = rw h refl

-- Where the server refuses nothing and new tokens can be made, a Login with the right password of an
-- account that is active returns the user as it is stored and a pair of tokens for it; what has
-- changed is the one refresh token that is stored for the user.
pub login-returns :
    (crypto : Crypto) (svc : IdentityService) (input : LoginInput) (p : Pool Accounts) (u : User)
    (access refresh : String)
    → p.faults ≡ []
    → find_first (has_email input.email) p.state.users ≡ some u
    → crypto.matches u.password_hash input.password ≡ true
    → u.is_active ≡ true
    → CanIssue crypto svc.jwt u access refresh p.now p.state
    → login crypto svc input p ≡ (
      ok (u, new_pair svc.jwt access refresh),
      record p { state = with_tokens svc.jwt u refresh p.now p.state },
    )
unfolding login known_user
login-returns crypto svc input p u access refresh served found right active c =
    try_runs _ p served _ u p.state (row_found crypto svc input p served u found)
    ∙ pure_runs u _ p
    ∙ fail_if_passes _ invalid_credentials _ p (ap not right)
    ∙ fail_if_passes _ account_deactivated _ p (ap not active)
    ∙ then_pure (generate_tokens crypto svc.jwt u) (λ t. (u, t)) p _ _
        (generate_tokens_runs crypto svc.jwt u access refresh p served c)
