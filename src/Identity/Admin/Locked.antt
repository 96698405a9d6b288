-- ===== src/Identity/Admin/Locked.antt =====
-- A deactivated account gets no tokens.
use incident_garden.Prelude.{
  String, ◌≡◌, refl, ap, ◌∙◌, ◌≢◌, inl, inr, Bool, true, false, ◌&&◌, not, some, List, arith, any,
  find_first, update_where, Bool-cases, if◌then◌else◌,
}
use mathlib.Core.Path.{subst}
use incident_garden.Prelude.Rows.{find_first-update}
use incident_garden.Errors.{Result, ok}
use incident_garden.Domain.{Uuid, Time}
use incident_garden.Routine.{pure, ignore}
use incident_garden.Routine.Steps.{IsPreorder}
use incident_garden.Routine.Ends.{Ends, Ends-bind, Ends-pure, Ends-if, Ends-Step}
use incident_garden.Pool.{Pool, statement}
use incident_garden.Pool.Tables.{OnState, OnState-IsPreorder, StateStep, StateStep-of, pool_rules}
use incident_garden.Pool.Results.{Results-fail_if, Results-statement}
use incident_garden.Identity.Users.{User, StoredToken, Accounts, is_valid_role}
use incident_garden.Identity.Repository.{
  is_user, has_email, is_live_token, email_taken, set_user, update_user, select_user,
  delete_user_refresh_tokens,
}
use incident_garden.Identity.Results.{Results-row}
use incident_garden.Identity.Jwt.{Crypto, TokenPair}
use incident_garden.Identity.Service.{IdentityService, LoginInput, login, refresh_tokens}
use incident_garden.Identity.Rotation.{refresh_tokens-Rotates}
use incident_garden.Identity.Access.Opened.{login-SignedIn}
use incident_garden.Identity.Rows.{first_is, find_by_id}
use incident_garden.Identity.Sound.{Sound}
use incident_garden.Identity.Sound.Operations.{admin_update_user-Sound}
use incident_garden.Identity.Admin.{
  AdminUpdateUserInput, is_empty_update, merged, deactivates, apply_update, admin_update_user,
}

-- The users are as they were.
record SameUsers (s s' : Accounts) : Type 0 where
  same : s'.users ≡ s.users

SameUsers-IsPreorder : IsPreorder SameUsers
SameUsers-IsPreorder = record {
  reflexive = λ s. record { same = refl };
  transitive = λ s t u h k. record { same = k.same ∙ h.same };
}

delete_tokens-SameUsers : (i : Uuid) → StateStep SameUsers (delete_user_refresh_tokens i)
unfolding delete_user_refresh_tokens
delete_tokens-SameUsers i = StateStep-of λ now s. record { same = refl }

on_same : IsPreorder (OnState SameUsers)
on_same = OnState-IsPreorder SameUsers-IsPreorder

-- The user with the identifier is not active.
record Inactive (i : Uuid) (us : List User) : Type 0 where
  row : User
  found : find_first (is_user i) us ≡ some row
  inactive : row.is_active ≡ false

update_user-eq-ok :
    (u : User) (now : Time) (s : Accounts) {v : User} {s' : Accounts}
    → update_user u now s ≡ ok (v, s')
    → s'.users ≡ update_where (is_user u.id) (set_user u now) s.users
unfolding update_user
update_user-eq-ok u now s h = elim (Bool-cases (any (is_user u.id) s.users)) [
  | inl there ↦ elim (Bool-cases (not (email_taken u s.users) && is_valid_role u.role)) [
    | inl fits ↦ ground (arith, there, fits, h)
    | inr unfit ↦ ground (arith, there, unfit, h)
  ]
  | inr missing ↦ ground (arith, missing, h)
]

module _ (input : AdminUpdateUserInput) (off : input.is_active ≡ some false) where
  abbrev Locks : User → Pool Accounts → Type 0
  Locks _ q = Inactive input.user_id q.state.users

  merged_off : (u : User) → ((merged u input).is_active ≡ false) × ((merged u input).id ≡ u.id)
  unfolding merged
  merged_off u = (ground (arith, off), refl)

  apply_update-Locks :
      (u : User) (p : Pool Accounts)
      → find_first (is_user input.user_id) p.state.users ≡ some u
      → Ends Locks (apply_update u input) p
  unfolding apply_update
  apply_update-Locks u p found =
      Results-statement (update_user (merged u input)) p _ λ changed s fs made.
        let users = update_user-eq-ok (merged u input) p.now p.state made in
        let id = (merged_off u).1 ∙ first_is input.user_id p.state.users found in
        Ends-bind
          (if deactivates u.is_active input.is_active
            then ignore (statement (delete_user_refresh_tokens u.id))
            else pure tt)
          (λ _. pure changed) _
          (Ends-Step {R = OnState SameUsers} _ _
            (search (pool_rules, SameUsers-IsPreorder, on_same, delete_tokens-SameUsers)))
          λ _ q step. Ends-pure changed q (record {
            row = set_user (merged u input) p.now u;
            found =
                ap (find_first (is_user input.user_id)) (step.related.same ∙ users)
                ∙ ap
                    (λ i.
                      find_first (is_user input.user_id)
                        (update_where (is_user i) (set_user (merged u input) p.now) p.state.users))
                    id
                ∙ find_first-update (is_user input.user_id) (set_user (merged u input) p.now)
                    p.state.users (λ y h. h) found;
            inactive = (merged_off u).0;
          })

  admin_update_user-Locks :
      (by : Uuid) (p : Pool Accounts) → Ends Locks (admin_update_user by input) p
  unfolding admin_update_user select_user
  admin_update_user-Locks by p = Results-fail_if _ _ _ p λ _.
      Results-row _ _ _ p _ refl λ u fs found. Results-fail_if _ _ _ _ λ _.
        Ends-if (is_empty_update input) (pure u) (apply_update u input) _
          (λ nothing. absurd (ground (arith, off, nothing))) (λ _. apply_update-Locks u _ found)

not_active :
    (i : Uuid) (us : List User) {v : User}
    → Inactive i us
    → find_first (is_user i) us ≡ some v
    → v.is_active ≡ true
    → ⊥
not_active i us l found active = ground (arith, l.found, l.inactive, found, active)

module _ (crypto : Crypto) (svc : IdentityService) (by : Uuid) (input : AdminUpdateUserInput)
    (p q : Pool Accounts) (changed : User) (faults : List Bool) (now : Time) (sound : Sound p.state)
    (off : input.is_active ≡ some false)
    (done : admin_update_user by input p ≡ (ok changed, q)) where
  locked : Inactive input.user_id q.state.users
  locked = (admin_update_user-Locks input off by p).at changed q done

  still-Sound : Sound q.state
  still-Sound =
      subst (λ (r : Result User × Pool Accounts). Sound r.1.state) done
        (((admin_update_user-Sound by input).at p).related.keeps sound)

  -- After an AdminUpdateUser that deactivates an account and returns, whatever the server refused
  -- meanwhile and refuses then, and at any time: a Login that returns is of another account.
  pub login-locked :
      (credentials : LoginInput) (u : User) (pair : TokenPair) (q' : Pool Accounts)
      → login crypto svc credentials (record q { faults = faults; now = now }) ≡ (ok (u, pair), q')
      → u.id ≢ input.user_id
  login-locked credentials u pair q' signs same =
      let s = login-SignedIn crypto svc credentials _ signs in
      not_active input.user_id q.state.users locked
        (subst (λ i. find_first (is_user i) q.state.users ≡ some u) same
          (find_by_id (has_email credentials.email) q.state.users still-Sound.keys s.found))
        s.active

  -- After an AdminUpdateUser that deactivates an account and returns, whatever the server refused
  -- meanwhile and refuses then, and at any time: no RefreshTokens returns for a token of the account,
  -- where the server has left one.
  pub refresh_tokens-locked :
      (token : String) (row : StoredToken) (pair : TokenPair) (q' : Pool Accounts)
      → find_first (is_live_token token now) q.state.refresh_tokens ≡ some row
      → row.user_id ≡ input.user_id
      → refresh_tokens crypto svc token (record q { faults = faults; now = now }) ≢ (ok pair, q')
  refresh_tokens-locked token row pair q' live same turns =
      let r = refresh_tokens-Rotates crypto svc token _ q' pair turns in
      let one : r.row ≡ row = ground (arith, r.held, live) in
      not_active input.user_id q.state.users locked
        (subst (λ i. find_first (is_user i) q.state.users ≡ some r.owner)
          (ap (λ (t : StoredToken). t.user_id) one ∙ same) r.owned)
        r.active
