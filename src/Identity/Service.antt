-- ===== src/Identity/Service.antt =====
-- `Register`, `Login`, `RefreshTokens`, `Logout`, `ChangePassword` and `UpdateProfile` of
-- internal/identity/service.go.
use incident_garden.Prelude.{
  String, Bool, true, false, ◌&&◌, not, Option, none, some, ◌∷◌, if◌then◌else◌, is_some,
}
use incident_garden.Errors.{
  Error, Result, ok, err, user_not_found, email_exists, invalid_credentials, invalid_token,
  account_deactivated, wrong_password,
}
use incident_garden.Domain.{Uuid}
use incident_garden.Routine.{pure, fail, fail_if, try, fail_as, ignore, ◌>>=◌, ◌>>◌}
use incident_garden.Pool.{statement, call}
use incident_garden.Identity.Users.{Role, User, Accounts}
use incident_garden.Identity.Repository.{
  insert_user, select_user, select_user_by_email, update_user, update_password,
  select_refresh_token, delete_refresh_token, delete_user_refresh_tokens,
}
use incident_garden.Identity.Jwt.{
  Crypto, JwtConfig, TokenPair, AccountRoutine, draw, generate_tokens,
}

-- `Service` with its authenticator: which of the optional parts it was given.
pub record IdentityService : Type 0 where
  pub jwt : JwtConfig
  pub has_user_created_handler : Bool
  pub has_email_sender : Bool
  pub frontend_url : String

pub record RegisterInput : Type 0 where
  pub email : String
  pub password : String
  pub first_name : String
  pub last_name : String

pub record LoginInput : Type 0 where
  pub email : String
  pub password : String

pub record ChangePasswordInput : Type 0 where
  pub user_id : Uuid
  pub current_password : String
  pub new_password : String

pub record UpdateProfileInput : Type 0 where
  pub user_id : Uuid
  pub first_name : Option String
  pub last_name : Option String

-- `errors.Is(err, ErrUserNotFound)`
unfoldable pub is_user_not_found : Error → Bool
is_user_not_found user_not_found = true
is_user_not_found _ = false

-- the checks behind `GetUserByEmail` in `Register` and `AdminCreateUser`
unfoldable pub check_email_free : Result User → AccountRoutine (Unit {0})
unfolding pure fail is_user_not_found
check_email_free (ok u) = fail email_exists
check_email_free (err e) = if is_user_not_found e then pure tt else fail e

abbrev pub welcome : User → Accounts → Result (Unit {0}) × Accounts
welcome u s = (ok tt, record s { welcomed = u ∷ s.welcomed })

-- the call of `OnUserCreated`, whose error is only logged
unfoldable pub on_user_created : IdentityService → User → AccountRoutine (Unit {0})
unfolding pure call
on_user_created svc u = if svc.has_user_created_handler then call (welcome u) else pure tt

-- the error of `GetUserByEmail` in `Login`
unfoldable pub known_user : Result User → AccountRoutine User
unfolding pure fail is_user_not_found
known_user (ok u) = pure u
known_user (err e) = if is_user_not_found e then fail invalid_credentials else fail e

abbrev pub or_kept : String → Option String → String
or_kept old none = old
or_kept old (some new) = new

-- `if user.MustChangePassword { … }`: the error of the update is only logged
unfoldable pub clear_must_change : User → AccountRoutine (Unit {0})
unfolding ignore update_user pure
clear_must_change u =
    if u.must_change_password
    then ignore (statement (update_user (record u { must_change_password = false })))
    else pure tt

-- `UpdateProfile`
unfoldable pub update_profile : UpdateProfileInput → AccountRoutine User
unfolding select_user update_user
update_profile input = do
  u ← statement (select_user input.user_id)
  if not (is_some input.first_name) && not (is_some input.last_name)
      then pure u
      else statement (
          update_user (record u {
            first_name = or_kept u.first_name input.first_name;
            last_name = or_kept u.last_name input.last_name;
          }))

-- `Logout`
unfoldable pub logout : String → AccountRoutine (Unit {0})
unfolding delete_refresh_token
logout token = statement (delete_refresh_token token)

module _ (crypto : Crypto) where
  -- `bcrypt.GenerateFromPassword`
  unfoldable pub hash_password : String → AccountRoutine String
  unfolding draw
  hash_password password = call (draw (λ n. crypto.hash n password))

  abbrev pub new_user : RegisterInput → String → User
  new_user input hashed = record {
    id = 0;
    email = input.email;
    password_hash = hashed;
    first_name = input.first_name;
    last_name = input.last_name;
    role = Role.user;
    is_active = true;
    must_change_password = false;
    created_at = 0;
    updated_at = 0;
  }

  -- `Register`
  unfoldable pub register : IdentityService → RegisterInput → AccountRoutine User
  unfolding select_user_by_email check_email_free hash_password insert_user on_user_created
  register svc input = do
    existing ← try (statement (select_user_by_email input.email))
    check_email_free existing
    hashed ← hash_password input.password
    u ← statement (insert_user (new_user input hashed))
    on_user_created svc u
    pure u

  -- `Login`
  unfoldable pub login : IdentityService → LoginInput → AccountRoutine (User × TokenPair)
  unfolding select_user_by_email known_user generate_tokens
  login svc input = do
    found ← try (statement (select_user_by_email input.email))
    u ← known_user found
    fail_if (not (crypto.matches u.password_hash input.password)) invalid_credentials
    fail_if (not u.is_active) account_deactivated
    tokens ← generate_tokens crypto svc.jwt u
    pure (u, tokens)

  -- the branch of `RefreshTokens` for an account that is not active: the error is dropped
  unfoldable pub refuse_inactive : User → String → AccountRoutine (Unit {0})
  unfolding ignore delete_refresh_token fail pure
  refuse_inactive u token =
      if not u.is_active
      then (ignore (statement (delete_refresh_token token)) >> fail account_deactivated)
      else pure tt

  -- `RefreshTokens`
  unfoldable pub refresh_tokens : IdentityService → String → AccountRoutine TokenPair
  unfolding select_refresh_token select_user refuse_inactive delete_refresh_token generate_tokens
      fail_as
  refresh_tokens svc token = do
    stored ← fail_as invalid_token (statement (select_refresh_token token))
    u ← statement (select_user stored.user_id)
    refuse_inactive u token
    statement (delete_refresh_token token)
    generate_tokens crypto svc.jwt u

  -- `ChangePassword`
  unfoldable pub change_password : ChangePasswordInput → AccountRoutine (Unit {0})
  unfolding select_user hash_password update_password clear_must_change ignore
      delete_user_refresh_tokens
  change_password input = do
    u ← statement (select_user input.user_id)
    fail_if (not (crypto.matches u.password_hash input.current_password)) wrong_password
    hashed ← hash_password input.new_password
    statement (update_password u.id hashed)
    clear_must_change u
    ignore (statement (delete_user_refresh_tokens u.id))
