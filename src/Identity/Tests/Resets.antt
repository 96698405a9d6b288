-- ===== src/Identity/Tests/Resets.antt =====
-- Runs of the reset of a password and of a deactivation, and the theorems there.
use incident_garden.Prelude.{
  ◌*◌, ◌≡◌, refl, ◌≢◌, Bool, true, false, some, List, [], ◌∷◌, arith, find_first, str_eq_iff,
}
use incident_garden.Errors.{ok, err, invalid_reset_token}
use incident_garden.Domain.{Time}
use incident_garden.Routine.{◌>>=◌, fail_if, try, require, ignore, pure}
use incident_garden.Pool.{Pool, statement, call, pool_clock}
use incident_garden.Identity.Users.{User, Accounts, is_valid_role}
use incident_garden.Identity.Repository.{
  select_user, select_user_by_email, insert_refresh_token, insert_reset_token,
  select_latest_reset_token, latest, update_user, delete_user_refresh_tokens, is_live_token,
}
use incident_garden.Identity.Jwt.{TokenPair, second, draw, generate_tokens}
use incident_garden.Identity.Service.{LoginInput, login, refresh_tokens, known_user}
use incident_garden.Identity.Reset.{
  reset_password, forgot_password, forgot_for, limited_reset, send_reset, is_recent,
}
use incident_garden.Identity.Reset.Forgot.{Asked, forgot_password-Asked}
use incident_garden.Identity.Reset.Silent.{forgot_password-silent}
use incident_garden.Identity.Reset.Login.{Works, reset_password-login}
use incident_garden.Identity.Admin.{
  admin_update_user, apply_update, is_bad_role, merged, deactivates,
}
use incident_garden.Identity.Admin.Locked.{login-locked, refresh_tokens-locked}
use incident_garden.Identity.Samples.{
  alice, bob, session_token, reset_token, pool, config, service, toy, toy_text,
}
use incident_garden.Identity.Tests.{pool-Sound, turn_off}

toy-Works : Works toy config
toy-Works = record {
  matches_own = λ n password hash h. ground (arith, h, str_eq_iff hash password);
  signature = λ c. "signed";
  signs = λ c. refl;
  text = toy_text;
  texts = λ n. refl;
}

reset_password-login_example :
    (q : Pool Accounts) × (row : User) × (pair : TokenPair) × (reset_password toy
        (record { token = "forgot"; new_password = "fresh" })
        pool
      ≡ (ok tt, q))
    × ((login toy service (record { email = "alice@x.org"; password = "fresh" }) q).0
        ≡ ok (row, pair))
    × (row.id ≡ 1)
    × ((faults : List Bool) (now : Time)
        → (reset_password toy
            (record { token = "forgot"; new_password = "fresh" })
            (record q { faults = faults; now = now })).0
          ≡ err invalid_reset_token)
unfolding toy-Works
reset_password-login_example =
    reset_password-login toy service (record { token = "forgot"; new_password = "fresh" }) pool
      reset_token alice "fresh" toy-Works refl pool-Sound refl refl refl refl refl

forgot_runs :
    forgot_password toy service "alice@x.org" pool
    ≡ (ok tt, (forgot_password toy service "alice@x.org" pool).1)
unfolding forgot_password select_user_by_email forgot_for limited_reset send_reset
    select_latest_reset_token latest is_recent draw insert_reset_token statement call ◌>>=◌ try
    fail_if pool_clock
forgot_runs = refl

forgot_password-Asked_example :
    Asked service "alice@x.org" pool (forgot_password toy service "alice@x.org" pool).1
forgot_password-Asked_example = forgot_password-Asked toy service "alice@x.org" pool _ forgot_runs

forgot_password-silent_example : (forgot_password toy service "nobody@x.org" pool).0 ≡ ok tt
forgot_password-silent_example =
    forgot_password-silent toy service pool "text0" refl refl refl "nobody@x.org" refl

off_runs : admin_update_user 2 turn_off pool ≡ (
  ok (record alice { is_active = false; updated_at = 1000 * second }),
  (admin_update_user 2 turn_off pool).1,
)
unfolding admin_update_user select_user apply_update merged deactivates is_bad_role update_user
    is_valid_role statement ◌>>=◌ fail_if pure ignore delete_user_refresh_tokens
off_runs = refl

abbrev bobs : LoginInput
bobs = record { email = "bob@x.org"; password = "hunter2" }

abbrev off_pool : Pool Accounts
off_pool = record (admin_update_user 2 turn_off pool).1 { faults = []; now = 1001 * second }

bob_signs_in : login toy service bobs off_pool ≡ (
  ok (bob, record { access_token = "signed"; refresh_token = "text0"; expires_in = 900 }),
  (login toy service bobs off_pool).1,
)
unfolding login select_user_by_email known_user generate_tokens insert_refresh_token draw statement
    call ◌>>=◌ try fail_if require pool_clock pure admin_update_user select_user apply_update merged
    deactivates is_bad_role update_user is_valid_role ignore delete_user_refresh_tokens
bob_signs_in = refl

login-locked_example : bob.id ≢ turn_off.user_id
login-locked_example =
    login-locked toy service 2 turn_off pool _ _ [] (1001 * second) pool-Sound refl off_runs bobs
      bob _ _ bob_signs_in

-- The server refuses the deletion of the tokens.
abbrev refusing : Pool Accounts
refusing = record pool { faults = false ∷ false ∷ true ∷ [] }

off_refused : admin_update_user 2 turn_off refusing ≡ (
  ok (record alice { is_active = false; updated_at = 1000 * second }),
  (admin_update_user 2 turn_off refusing).1,
)
unfolding admin_update_user select_user apply_update merged deactivates is_bad_role update_user
    is_valid_role statement ◌>>=◌ fail_if pure ignore delete_user_refresh_tokens
off_refused = refl

token_left :
    find_first
      (is_live_token "session" (1001 * second))
      (admin_update_user 2 turn_off refusing).1.state.refresh_tokens
    ≡ some session_token
unfolding admin_update_user select_user apply_update merged deactivates is_bad_role update_user
    is_valid_role statement ◌>>=◌ fail_if pure ignore delete_user_refresh_tokens
token_left = refl

refresh_tokens-locked_example :
    refresh_tokens toy service "session"
      (record (admin_update_user 2 turn_off refusing).1 { faults = []; now = 1001 * second })
    ≢ (ok (record { access_token = "signed"; refresh_token = "text0"; expires_in = 900 }), pool)
refresh_tokens-locked_example =
    refresh_tokens-locked toy service 2 turn_off refusing _ _ [] (1001 * second) pool-Sound refl
      off_refused "session" session_token _ _ token_left refl
