-- ===== src/Identity/Tests/Requests.antt =====
-- Requests before the middleware, and the theorems there.
use incident_garden.Prelude.{
  ◌*◌, ◌≡◌, refl, ap, sym, ◌+◌, true, none, some, arith, ltb, if◌then◌else◌,
}
use incident_garden.Errors.{ok}
use incident_garden.Routine.{◌>>=◌, fail_if, try, require, pure}
use incident_garden.Pool.{statement, call, pool_clock}
use incident_garden.Identity.Users.{Role, operator, user, has_permission, rank}
use incident_garden.Identity.Repository.{select_user_by_email, insert_refresh_token}
use incident_garden.Identity.Jwt.{
  claims_of, expired, Claims, second, draw, generate_tokens, new_claims, numeric_date,
  validate_access_token, validated, key_function,
}
use incident_garden.Identity.Service.{login, known_user}
use incident_garden.Identity.Access.{
  HttpRequest, passed, unauthorized, post, auth_middleware, require_role, bearer_token, split_space,
  is_bearer, is_state_changing_method, validate_csrf, read_token,
}
use incident_garden.Identity.Access.Guarded.{Guarded, require_role-Guarded}
use incident_garden.Identity.Access.Opened.{Parses, login-opens}
use incident_garden.Identity.Samples.{
  alice, pool, config, service, picky, alice_claims, same_claims,
}
use incident_garden.Identity.Tests.{right}

claims_eq : (c : Claims) → same_claims c ≡ true → c ≡ alice_claims
claims_eq c h = by_role c c.role refl h
  where
    by_role : (c : Claims) (r : Role) → c.role ≡ r → same_claims c ≡ true → c ≡ alice_claims
    by_role c operator e h = ground (arith, e, h)
    by_role c user e h = ground (arith, e, h)
    by_role c Role.admin e h = ground (arith, e, h)
    by_role c (Role.other s) e h = ground (arith, e, h)

-- What `picky` signs it knows again.
picky-Parses : Parses picky
picky-Parses = record {
  parses = λ key c text keys now signed k.
      ap (λ (x : Claims). if ltb now x.expires_at then claims_of x true else expired)
        (sym (claims_eq c (ground (arith, signed))));
}

picky_runs : login picky service right pool ≡ (
  ok (alice, record { access_token = "signed"; refresh_token = "text0"; expires_in = 900 }),
  (login picky service right pool).1,
)
unfolding login select_user_by_email known_user generate_tokens new_claims numeric_date
    insert_refresh_token draw statement call ◌>>=◌ try fail_if require pool_clock pure
picky_runs = refl

abbrev by_bearer : HttpRequest
by_bearer = record {
  method = post;
  access_token_cookie = none;
  csrf_token_cookie = none;
  csrf_token_header = "";
  authorization_header = "Bearer signed";
}

login-opens_example :
    require_role operator (auth_middleware picky config (1500 * second) by_bearer) ≡ (
      if ltb (1500 * second) (numeric_date (1000 * second + config.access_token_duration))
      then passed 1 operator
      else unauthorized)
unfolding bearer_token split_space is_bearer rank
login-opens_example =
    login-opens picky service right pool _ alice _ operator (1500 * second) by_bearer picky-Parses
      picky_runs refl refl refl (omega arith)

abbrev by_cookie : HttpRequest
by_cookie = record {
  method = post;
  access_token_cookie = some "signed";
  csrf_token_cookie = some "tick";
  csrf_token_header = "tick";
  authorization_header = "";
}

cookie_runs :
    require_role user (auth_middleware picky config (1500 * second) by_cookie) ≡ passed 1 operator
unfolding require_role auth_middleware read_token is_state_changing_method validate_csrf
    validate_access_token validated key_function has_permission rank
cookie_runs = refl

require_role-Guarded_example : Guarded picky config user (1500 * second) by_cookie 1 operator
require_role-Guarded_example =
    require_role-Guarded picky config user (1500 * second) by_cookie 1 operator cookie_runs
