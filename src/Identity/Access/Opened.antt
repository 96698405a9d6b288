-- ===== src/Identity/Access/Opened.antt =====
-- How long a sign-in opens the guarded handlers.
use incident_garden.Prelude.{
  ◌+◌, ◌≤◌, String, ◌≡◌, refl, ap, ◌∙◌, inl, inr, Bool, true, false, not, Option, some, List, arith,
  ltb, find_first, Bool-cases, if◌then◌else◌,
}
use mathlib.Core.Path.{subst}
use incident_garden.Prelude.{sym}
use incident_garden.Errors.{
  Error, ok, err, user_not_found, invalid_credentials, account_deactivated,
}
use incident_garden.Domain.{Time}
use incident_garden.Routine.{Routine, ◌>>=◌, ◌>>◌, pure, fail_if}
use incident_garden.Routine.Ends.{Ends, Ends-bind, Ends-pure}
use incident_garden.Pool.{Pool}
use incident_garden.Pool.Results.{Results-fail_if, Results-try, Results-pure, Results-fail}
use incident_garden.Identity.Users.{Role, User, Accounts, rank, has_permission}
use incident_garden.Identity.Repository.{has_email, select_user_by_email}
use incident_garden.Identity.Results.{one_row-eq-ok}
use incident_garden.Identity.Jwt.{
  Crypto, JwtConfig, Claims, SigningMethod, TokenPair, claims_of, expired, new_claims, numeric_date,
  key_function, validated, validate_access_token, generate_tokens,
}
use incident_garden.Identity.Service.{
  IdentityService, LoginInput, is_user_not_found, known_user, login,
}
use incident_garden.Identity.Rotation.{generate_tokens-Generated}
use incident_garden.Identity.Access.{
  HttpRequest, Outcome, passed, unauthorized, is_blank, or_empty, read_token, bearer_token, admit,
  auth_middleware, require_role,
}

-- What a Login that returns has checked and signed.
pub record SignedIn (crypto : Crypto) (cfg : JwtConfig) (input : LoginInput) (p : Pool Accounts)
    (u : User) (pair : TokenPair) : Type 0 where
  pub found : find_first (has_email input.email) p.state.users ≡ some u
  pub right : crypto.matches u.password_hash input.password ≡ true
  pub active : u.is_active ≡ true
  pub signed :
      crypto.sign SigningMethod.hmac cfg.secret_key (new_claims cfg u p.now)
      ≡ some pair.access_token

module _ (crypto : Crypto) (svc : IdentityService) (input : LoginInput) (p : Pool Accounts) where
  abbrev Signs : User × TokenPair → Pool Accounts → Type 0
  Signs r q = SignedIn crypto svc.jwt input p r.0 r.1

  -- from the password on
  abbrev checks : User → Routine (Pool Accounts) (User × TokenPair)
  checks u = do
    fail_if (not (crypto.matches u.password_hash input.password)) invalid_credentials
    fail_if (not u.is_active) account_deactivated
    tokens ← generate_tokens crypto svc.jwt u
    pure (u, tokens)

  checks-Signs :
      (u : User) (fs : List Bool)
      → find_first (has_email input.email) p.state.users ≡ some u
      → Ends Signs (checks u) (record p { faults = fs })
  checks-Signs u fs found = Results-fail_if _ _ _ _ λ right. Results-fail_if _ _ _ _ λ active.
      Ends-bind _ _ _ (generate_tokens-Generated crypto svc.jwt u _) λ pair q g.
        Ends-pure (u, pair) q
          (record {
            found = found;
            right = ground (arith, right);
            active = ground (arith, active);
            signed = g.signed;
          })

  known-Signs :
      (u : User) (s : Accounts) (fs : List Bool)
      → select_user_by_email input.email p.now p.state ≡ ok (u, s)
      → Ends Signs (known_user (ok u) >>= checks) (record p { state = s; faults = fs })
  unfolding known_user select_user_by_email
  known-Signs u s fs made =
      let (found, same) =
        one_row-eq-ok (find_first (has_email input.email) p.state.users) user_not_found p.state
          made in
      subst (λ t. Ends Signs (pure u >>= checks) (record p { state = t; faults = fs })) (sym same)
        (Results-pure u checks (record p { faults = fs }) (checks-Signs u fs found))

  unknown-Signs :
      (x : Error) (fs : List Bool)
      → Ends Signs (known_user (err x) >>= checks) (record p { faults = fs })
  unfolding known_user
  unknown-Signs x fs = elim (Bool-cases (is_user_not_found x)) [
    | inl missing ↦ rw missing (Results-fail invalid_credentials checks _)
    | inr other ↦ rw other (Results-fail x checks _)
  ]

  pub login-SignedIn :
      {u : User} {pair : TokenPair} {q : Pool Accounts}
      → login crypto svc input p ≡ (ok (u, pair), q)
      → SignedIn crypto svc.jwt input p u pair
  unfolding login
  login-SignedIn {u} {pair} {q} h =
      (Results-try (select_user_by_email input.email) p (λ r. known_user r >>= checks) unknown-Signs
          known-Signs).at
        (u, pair) q h

-- What the code relies on of the JWT library: a text that was signed with HS256 and a key gives its
-- claims back to a parser that is given that key for HMAC, as long as they have not expired.
pub record Parses (crypto : Crypto) : Type 0 where
  pub parses :
      (key : String) (c : Claims) (text : String) (keys : SigningMethod → Option String)
      (now : Time)
      → crypto.sign SigningMethod.hmac key c ≡ some text
      → keys SigningMethod.hmac ≡ some key
      → crypto.parse keys now text ≡ (if ltb now c.expires_at then claims_of c true else expired)

validate-signed :
    (crypto : Crypto) (cfg : JwtConfig) (u : User) (text : String) (signed_at now : Time)
    → Parses crypto
    → crypto.sign SigningMethod.hmac cfg.secret_key (new_claims cfg u signed_at) ≡ some text
    → validate_access_token crypto cfg now text
      ≡ validated (
          if ltb now (new_claims cfg u signed_at).expires_at
          then claims_of (new_claims cfg u signed_at) true
          else expired)
unfolding validate_access_token
validate-signed crypto cfg u text signed_at now laws signed = ap validated (
    laws.parses cfg.secret_key (new_claims cfg u signed_at) text (key_function cfg) now signed
      (unfold key_function in refl))

module _ (crypto : Crypto) (cfg : JwtConfig) (required : Role) (now : Time) (r : HttpRequest)
    (token : String) (no_cookie : is_blank (or_empty r.access_token_cookie) ≡ true)
    (carries : bearer_token r.authorization_header ≡ token)
    (something : is_blank token ≡ false) where
  -- A token of the header is left to the authenticator.
  by_header : auth_middleware crypto cfg now r ≡ admit (validate_access_token crypto cfg now token)
  unfolding auth_middleware read_token
  by_header = rw (no_cookie, carries, something) refl

module _ (cfg : JwtConfig) (u : User) (signed_at : Time) (required : Role) where
  -- The answer to a token, once it is known whether it has expired.
  abbrev answer : Bool → Outcome
  answer fresh =
      require_role required
        (admit (validated (if fresh then claims_of (new_claims cfg u signed_at) true else expired)))

  answers :
      (fresh : Bool)
      → rank required ≤ rank u.role
      → answer fresh ≡ (if fresh then passed u.id u.role else unauthorized)
  unfolding require_role admit validated new_claims has_permission
  answers true h = ground arith
  answers false h = refl

-- Where the JWT library gives back what it signed: the access token of a Login that returns, as a
-- bearer token, opens every handler that requires no higher role than the user had, to that user
-- with that role, until the whole second in which the duration of access tokens ends; from then on
-- it is refused.
pub login-opens :
    (crypto : Crypto) (svc : IdentityService) (input : LoginInput) (p q : Pool Accounts) (u : User)
    (pair : TokenPair) (required : Role) (now : Time) (r : HttpRequest)
    → Parses crypto
    → login crypto svc input p ≡ (ok (u, pair), q)
    → is_blank (or_empty r.access_token_cookie) ≡ true
    → bearer_token r.authorization_header ≡ pair.access_token
    → is_blank pair.access_token ≡ false
    → rank required ≤ rank u.role
    → require_role required (auth_middleware crypto svc.jwt now r) ≡ (
        if ltb now (numeric_date (p.now + svc.jwt.access_token_duration))
        then passed u.id u.role
        else unauthorized)
unfolding new_claims
login-opens crypto svc input p q u pair required now r laws h no_cookie carries something enough =
    let s = login-SignedIn crypto svc input p h in
    let seen = ap (require_role required) (
      by_header crypto svc.jwt required now r pair.access_token no_cookie carries something
      ∙ ap admit (validate-signed crypto svc.jwt u pair.access_token p.now now laws s.signed)) in
    seen
    ∙ answers svc.jwt u p.now required
        (ltb now (numeric_date (p.now + svc.jwt.access_token_duration))) enough
