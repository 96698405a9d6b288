-- ===== src/Identity/Tests.antt =====
-- Runs of the identity service, and the theorems there.
mod Resets
mod Requests
use incident_garden.Prelude.{
  ℕ, ◌*◌, String, ◌≡◌, refl, ap, ◌∙◌, ◌≢◌, Bool, true, false, Option, none, some, List, [], ◌∷◌,
  arith, ltb, str_eq, str_eq_iff, ==_iff, if◌then◌else◌,
}
use incident_garden.Errors.{
  Result, ok, err, invalid_token, invalid_credentials, invalid_reset_token,
}
use incident_garden.Domain.{Uuid, Time}
use incident_garden.Routine.{◌>>=◌, after, fail_if, try, require, settle_as, fail_as, ignore, pure}
use incident_garden.Pool.{Pool, statement, call, pool_clock}
use incident_garden.Identity.Users.{
  Role, User, StoredToken, Accounts, operator, user, has_permission, rank, is_valid_role,
}
use incident_garden.Identity.Repository.{
  select_user, select_user_by_email, select_refresh_token, delete_refresh_token,
  insert_refresh_token, insert_reset_token, select_latest_reset_token, latest, update_user,
  delete_user_refresh_tokens,
}
use incident_garden.Identity.Jwt.{
  SigningMethod, hmac, Claims, TokenPair, second, draw, generate_tokens, new_claims, numeric_date,
  validate_access_token, validated, key_function, drawn_or_fail,
}
use incident_garden.Identity.Service.{
  LoginInput, login, refresh_tokens, refuse_inactive, known_user, update_profile,
}
use incident_garden.Identity.Reset.{
  reset_password, forgot_password, forgot_for, limited_reset, send_reset, is_recent,
}
use incident_garden.Identity.Reset.Forgot.{Asked, forgot_password-Asked}
use incident_garden.Identity.Reset.Silent.{forgot_password-silent}
use incident_garden.Identity.Reset.Login.{Works, reset_password-login}
use incident_garden.Identity.Admin.{
  AdminUpdateUserInput, admin_update_user, apply_update, is_bad_role, merged, deactivates,
}
use incident_garden.Identity.Access.{
  HttpRequest, Outcome, passed, unauthorized, post, get, auth_middleware, require_role,
  bearer_token, split_space, is_bearer, is_state_changing_method, validate_csrf, read_token,
}
use incident_garden.Identity.Access.Guarded.{Guarded, require_role-Guarded}
use incident_garden.Identity.Access.Opened.{Parses, login-opens}
use incident_garden.Identity.Rotation.{Rotated, refresh_tokens-Rotates, refresh_tokens-once}
use incident_garden.Identity.SignIn.{login-refuses}
use incident_garden.Identity.Sound.{Sound}
use incident_garden.Identity.Samples.{
  alice, bob, session_token, reset_token, accounts, pool, config, service, toy, toy_text, picky,
  alice_claims, same_claims,
}

pub pool-Sound : Sound pool.state
unfolding is_valid_role
pool-Sound = record {
  keys = refl;
  below = omega arith;
  emails = refl;
  roles = (refl, (refl, tt));
  refresh_owned = (refl, tt);
  reset_owned = (refl, tt);
  refresh_apart = refl;
  reset_apart = refl;
}

abbrev pub right : LoginInput
right = record { email = "alice@x.org"; password = "secret" }

abbrev wrong : LoginInput
wrong = record { email = "alice@x.org"; password = "guess" }

abbrev pub turn_off : AdminUpdateUserInput
turn_off = record {
  user_id = 1;
  role = none;
  is_active = some false;
  first_name = none;
  last_name = none;
}

-- A refresh.
abbrev new_pair : TokenPair
new_pair = record { access_token = "signed"; refresh_token = "text0"; expires_in = 900 }

abbrev refreshed : Pool Accounts
refreshed = record pool {
  state = record accounts {
    refresh_tokens =
        record {
          id = 5;
          user_id = 1;
          token = "text0";
          expires_at = 605800 * second;
          created_at = 1000 * second;
        }
        ∷ [];
    next_id = 6;
    drawn = 1;
  };
}

refresh_runs : refresh_tokens toy service "session" pool ≡ (ok new_pair, refreshed)
unfolding refresh_tokens select_refresh_token select_user refuse_inactive delete_refresh_token
    generate_tokens statement call ◌>>=◌ fail_as require pool_clock pure
refresh_runs = refl

refresh_tokens-Rotates_example : Rotated toy config "session" pool new_pair refreshed
refresh_tokens-Rotates_example =
    refresh_tokens-Rotates toy service "session" pool refreshed new_pair refresh_runs

refresh_tokens-once_example :
    (refresh_tokens toy service "session"
      (record refreshed { faults = false ∷ true ∷ []; now = 1001 * second })).0
    ≡ err invalid_token
refresh_tokens-once_example =
    refresh_tokens-once toy service "session" pool refreshed new_pair (false ∷ true ∷ [])
      (1001 * second) refresh_runs refl

login-refuses_example : login toy service wrong pool ≡ (err invalid_credentials, pool)
login-refuses_example = login-refuses toy service wrong pool invalid_credentials refl refl
