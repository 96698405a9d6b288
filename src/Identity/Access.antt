-- ===== src/Identity/Access.antt =====
-- The middleware of internal/pkg/httputil/middleware.go that stands before the handlers:
-- `AuthMiddleware`, `RequireRole`. A request is what they read of it; of the answer, its status.
pub mod Guarded
pub mod Opened
use Prim.Native.Char.{Char, code}
use Prim.Native.String
use incident_garden.Prelude.{
  ℕ, zero, suc, ◌+◌, String, Bool, true, false, ◌&&◌, not, Option, none, some, List, [], ◌∷◌, leb,
  ◌==◌, str_eq, if◌then◌else◌,
}
use incident_garden.Errors.{Result, ok, err}
use incident_garden.Domain.{Uuid, Time}
use incident_garden.Identity.Users.{Role, has_permission}
use incident_garden.Identity.Jwt.{Crypto, JwtConfig, validate_access_token}

pub data Method : Type 0 where
  get head post put patch delete options : Method
  other : String → Method

-- A header that is missing reads as the empty text. A cookie may be missing.
pub record HttpRequest : Type 0 where
  pub method : Method
  pub access_token_cookie : Option String
  pub csrf_token_cookie : Option String
  pub csrf_token_header : String
  pub authorization_header : String

-- The next handler is called with a user and a role, or the request is answered.
pub data Outcome : Type 0 where
  passed : Uuid → Role → Outcome
  unauthorized forbidden : Outcome

abbrev pub is_blank : String → Bool
is_blank s = str_eq s ""

-- code points in lower case, as far as letters of ASCII go
abbrev pub lower : ℕ → ℕ
lower c = if leb b'A' c && leb c b'Z' then c + 32 else c

same_codes : String → List ℕ → Bool
same_codes String.[] [] = true
same_codes String.[] (n ∷ ns) = false
same_codes (String.◌∷◌ c s) [] = false
same_codes (String.◌∷◌ c s) (n ∷ ns) = lower (code c) == n && same_codes s ns

-- `strings.ToLower(parts[0]) == "bearer"`: no other letter than those of ASCII has one of these for
-- its lower case
unfoldable pub is_bearer : String → Bool
unfolding same_codes
is_bearer s = same_codes s (b'b' ∷ b'e' ∷ b'a' ∷ b'r' ∷ b'e' ∷ b'r' ∷ [])

push : Char → Option (String × String) → Option (String × String)
push c none = none
push c (some (a, b)) = some (String.◌∷◌ c a, b)

-- `strings.SplitN(authHeader, " ", 2)`, where it has two parts
unfoldable pub split_space : String → Option (String × String)
unfolding push
split_space String.[] = none
split_space (String.◌∷◌ c s) =
    let rest = split_space s in if code c == b' ' then some (String.[], s) else push c rest

bearer_part : Option (String × String) → String
bearer_part none = ""
bearer_part (some (scheme, token)) = if is_bearer scheme then token else ""

-- the token of the Authorization header, or the empty text
unfoldable pub bearer_token : String → String
unfolding split_space is_bearer bearer_part
bearer_token header = bearer_part (split_space header)

abbrev pub or_empty : Option String → String
or_empty none = ""
or_empty (some s) = s

-- the cookie's token if it is not empty, else the header's, and whether it is the cookie's
unfoldable pub read_token : HttpRequest → String × Bool
unfolding bearer_token
read_token r =
    if is_blank (or_empty r.access_token_cookie)
    then (bearer_token r.authorization_header, false)
    else (or_empty r.access_token_cookie, true)

unfoldable pub is_state_changing_method : Method → Bool
is_state_changing_method post = true
is_state_changing_method put = true
is_state_changing_method patch = true
is_state_changing_method delete = true
is_state_changing_method _ = false

-- `validateCSRF`
unfoldable pub validate_csrf : HttpRequest → Bool
validate_csrf r =
    not (is_blank (or_empty r.csrf_token_cookie))
    && (not (is_blank r.csrf_token_header)
        && str_eq (or_empty r.csrf_token_cookie) r.csrf_token_header)

admit : Result (Uuid × Role) → Outcome
admit (ok (user, role)) = passed user role
admit (err e) = unauthorized

-- `AuthMiddleware`
unfoldable pub auth_middleware : Crypto → JwtConfig → Time → HttpRequest → Outcome
unfolding read_token is_state_changing_method validate_csrf admit validate_access_token
auth_middleware crypto cfg now r =
    let (token, from_cookie) = read_token r in
    if is_blank token
    then unauthorized
    else if from_cookie && (is_state_changing_method r.method && not (validate_csrf r))
    then forbidden
    else admit (validate_access_token crypto cfg now token)

-- `RequireRole`, behind `AuthMiddleware`
unfoldable pub require_role : Role → Outcome → Outcome
unfolding has_permission
require_role required (passed user role) =
    if has_permission role required then passed user role else forbidden
require_role required answer = answer
