-- ===== src/Identity/Reset.antt =====
-- `ForgotPassword` and `ResetPassword` of internal/identity/service.go.
pub mod Cleared
pub mod Renewed
pub mod Login
pub mod Forgot
pub mod Silent
use incident_garden.Prelude.{
  ℕ, ◌+◌, ◌-◌, ◌*◌, String, Bool, true, false, ◌&&◌, not, Option, none, some, ◌∷◌, ltb,
  if◌then◌else◌,
}
use Prim.Native.String.{◌++◌}
use incident_garden.Errors.{
  Error, Result, ok, err, user_not_found, email_not_configured, invalid_reset_token,
}
use incident_garden.Domain.{Uuid, Time}
use incident_garden.Routine.{pure, fail, fail_if, try, fail_as, settle_as, ignore, ◌>>=◌, ◌>>◌}
use incident_garden.Pool.{Pool, statement, call, pool_clock}
use incident_garden.Identity.Users.{User, StoredToken, Mail, Accounts}
use incident_garden.Identity.Repository.{
  select_user, select_user_by_email, update_password, insert_reset_token, select_reset_token,
  select_latest_reset_token, delete_user_reset_tokens, delete_user_refresh_tokens,
}
use incident_garden.Identity.Jwt.{Crypto, AccountRoutine, second, draw}
use incident_garden.Identity.Service.{
  IdentityService, is_user_not_found, hash_password, clear_must_change,
}

pub record ResetPasswordInput : Type 0 where
  pub token : String
  pub new_password : String

-- `time.Since(latest.CreatedAt) < 5*time.Minute`
unfoldable pub is_recent : Time → Option StoredToken → Bool
is_recent now none = false
is_recent now (some t) = ltb now (t.created_at + 300 * second)

abbrev pub new_reset_token : User → String → Time → StoredToken
new_reset_token u text now = record {
  id = 0;
  user_id = u.id;
  token = text;
  expires_at = now + 3600 * second;
  created_at = 0;
}

abbrev pub reset_mail : IdentityService → User → String → Mail
reset_mail svc u text = record {
  to = u.email;
  subject = "Password Reset Request";
  body =
      "You requested a password reset.\n\nClick the link below to reset your password:\n"
      ++ (svc.frontend_url
          ++ ("/reset-password?token="
              ++ (text
                  ++ "\n\nThis link expires in 1 hour.\n\nIf you did not request this, please ignore this email.")));
}

abbrev pub send_mail : Mail → Accounts → Result (Unit {0}) × Accounts
send_mail m s = (ok tt, record s { mails = m ∷ s.mails })

module _ (crypto : Crypto) (svc : IdentityService) where
  -- from the token on: an error of the sender is only logged
  unfoldable pub send_reset : User → Time → AccountRoutine (Unit {0})
  unfolding draw insert_reset_token
  send_reset u now = do
    text ← call (draw crypto.hex)
    statement (insert_reset_token (new_reset_token u text now))
    call (send_mail (reset_mail svc u text))

  -- from the limit on
  unfoldable pub limited_reset : User → AccountRoutine (Unit {0})
  unfolding select_latest_reset_token is_recent send_reset pure
  limited_reset u = do
    last ← statement (select_latest_reset_token u.id)
    now ← pool_clock
    if is_recent now last then pure tt else send_reset u now

  -- an address that nobody has is no error
  unfoldable pub forgot_for : Result User → AccountRoutine (Unit {0})
  unfolding limited_reset pure fail is_user_not_found
  forgot_for (ok u) = limited_reset u
  forgot_for (err e) = if is_user_not_found e then pure tt else fail e

  -- `ForgotPassword`
  unfoldable pub forgot_password : String → AccountRoutine (Unit {0})
  unfolding select_user_by_email forgot_for
  forgot_password email = do
    fail_if (not svc.has_email_sender) email_not_configured
    found ← try (statement (select_user_by_email email))
    forgot_for found

-- `if err == nil && user.MustChangePassword`
unfoldable pub clear_if_found : Result User → AccountRoutine (Unit {0})
unfolding clear_must_change pure
clear_if_found (ok u) = clear_must_change u
clear_if_found (err e) = pure tt

-- `ResetPassword`
unfoldable pub reset_password : Crypto → ResetPasswordInput → AccountRoutine (Unit {0})
unfolding select_reset_token hash_password update_password select_user clear_if_found ignore
    delete_user_reset_tokens delete_user_refresh_tokens fail_as
reset_password crypto input = do
  t ← fail_as invalid_reset_token (statement (select_reset_token input.token))
  hashed ← hash_password crypto input.new_password
  statement (update_password t.user_id hashed)
  u ← try (statement (select_user t.user_id))
  clear_if_found u
  ignore (statement (delete_user_reset_tokens t.user_id))
  ignore (statement (delete_user_refresh_tokens t.user_id))
