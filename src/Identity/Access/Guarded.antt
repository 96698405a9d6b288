-- ===== src/Identity/Access/Guarded.antt =====
-- What a request that reaches a guarded handler has shown.
use incident_garden.Prelude.{
  ◌≤◌, String, ◌≡◌, refl, ◌⊎◌, inl, inr, true, false, ◌&&◌, not, arith, str_eq_iff, Bool-cases,
  if◌then◌else◌,
}
use incident_garden.Errors.{Result, ok, err}
use incident_garden.Domain.{Uuid, Time}
use incident_garden.Identity.Users.{Role, rank, has_permission}
use incident_garden.Identity.Jwt.{Crypto, JwtConfig, validate_access_token}
use incident_garden.Identity.Access.{
  HttpRequest, Outcome, passed, unauthorized, forbidden, is_blank, or_empty, read_token,
  bearer_token, is_state_changing_method, validate_csrf, admit, auth_middleware, require_role,
}

-- A token, of the cookie or of the header, that the authenticator accepts for the user and the role;
-- a role that ranks no lower than the one required; and where the cookie's token comes with a method
-- that changes state, a CSRF header that equals the CSRF cookie and is not empty.
pub record Guarded (crypto : Crypto) (cfg : JwtConfig) (required : Role) (now : Time)
    (r : HttpRequest) (user : Uuid) (role : Role) : Type 0 where
  pub token : String
  pub accepted : validate_access_token crypto cfg now token ≡ ok (user, role)
  pub carried : token ≡ (
      if is_blank (or_empty r.access_token_cookie)
      then bearer_token r.authorization_header
      else or_empty r.access_token_cookie)
  pub ranks : rank required ≤ rank role
  pub protected :
      (is_blank (or_empty r.access_token_cookie) ≡ true)
      ⊎ (is_state_changing_method r.method ≡ false)
      ⊎ ((or_empty r.csrf_token_cookie ≡ r.csrf_token_header)
          × (is_blank r.csrf_token_header ≡ false))

admit-eq :
    (x : Result (Uuid × Role)) (user : Uuid) (role : Role)
    → admit x ≡ passed user role
    → x ≡ ok (user, role)
unfolding admit
admit-eq (ok (u, r)) user role h = ground (arith, h)
admit-eq (err e) user role h = cc

require_role-eq :
    (required : Role) (o : Outcome) (user : Uuid) (role : Role)
    → require_role required o ≡ passed user role
    → (o ≡ passed user role) × (rank required ≤ rank role)
unfolding require_role has_permission
require_role-eq required (passed u r) user role h = elim (Bool-cases (has_permission r required)) [
  | inl may ↦
      let same : passed u r ≡ passed user role = ground (arith, may, h) in
      (same, ground (arith, may, same))
  | inr may_not ↦ ground (arith, may_not, h)
]
require_role-eq required unauthorized user role h = cc
require_role-eq required forbidden user role h = cc

csrf_shown :
    (r : HttpRequest)
    → validate_csrf r ≡ true
    → (or_empty r.csrf_token_cookie ≡ r.csrf_token_header) × (is_blank r.csrf_token_header ≡ false)
unfolding validate_csrf
csrf_shown r h = (
  ground (arith, h, str_eq_iff (or_empty r.csrf_token_cookie) r.csrf_token_header),
  ground (arith, h),
)

-- A request that passes AuthMiddleware and RequireRole has shown a token that the authenticator
-- accepts for the user and the role with which the handler is called, and the role ranks no lower
-- than the one required. With a token of the cookie and a method that changes state it has also
-- shown the CSRF token.
pub require_role-Guarded :
    (crypto : Crypto) (cfg : JwtConfig) (required : Role) (now : Time) (r : HttpRequest)
    (user : Uuid) (role : Role)
    → require_role required (auth_middleware crypto cfg now r) ≡ passed user role
    → Guarded crypto cfg required now r user role
unfolding auth_middleware read_token
require_role-Guarded crypto cfg required now r user role h =
    let (through, enough) = require_role-eq required _ user role h in
    elim (Bool-cases (is_blank (or_empty r.access_token_cookie))) [
      | inl no_cookie ↦ elim (Bool-cases (is_blank (bearer_token r.authorization_header))) [
        | inl nothing ↦ ground (arith, no_cookie, nothing, through)
        | inr something ↦ record {
          token = bearer_token r.authorization_header;
          accepted =
              admit-eq (validate_access_token crypto cfg now (bearer_token r.authorization_header))
                user role (ground (arith, no_cookie, something, through));
          carried = rw no_cookie refl;
          ranks = enough;
          protected = inl no_cookie;
        }
      ]
      | inr cookie ↦
          elim (Bool-cases (is_state_changing_method r.method && not (validate_csrf r))) [
            | inl bare ↦ ground (arith, cookie, bare, through)
            | inr fine ↦ record {
              token = or_empty r.access_token_cookie;
              accepted =
                  admit-eq (validate_access_token crypto cfg now (or_empty r.access_token_cookie))
                    user role (ground (arith, cookie, fine, through));
              carried = rw cookie refl;
              ranks = enough;
              protected = inr (elim (Bool-cases (is_state_changing_method r.method)) [
                | inl changing ↦ inr (csrf_shown r (ground (arith, fine, changing)))
                | inr harmless ↦ inl harmless
              ]);
            }
          ]
    ]
