-- ===== src/Identity/Admin.antt =====
-- The operations of internal/identity/service.go that an administrator runs on other accounts.
pub mod Locked
use incident_garden.Prelude.{
  String, Bool, true, false, ◌&&◌, not, Option, none, some, ◌==◌, if◌then◌else◌, is_some,
}
use incident_garden.Errors.{Error, Result, ok, err, cannot_modify_self, invalid_role}
use incident_garden.Domain.{Uuid, Time}
use incident_garden.Routine.{pure, fail_if, try, ignore, ◌>>=◌, ◌>>◌}
use incident_garden.Pool.{statement, call}
use incident_garden.Identity.Users.{Role, User, Accounts, is_valid_role}
use incident_garden.Identity.Repository.{
  insert_user, select_user, select_user_by_email, update_user, update_password,
  delete_user_refresh_tokens,
}
use incident_garden.Identity.Jwt.{Crypto, AccountRoutine}
use incident_garden.Identity.Service.{
  IdentityService, or_kept, hash_password, check_email_free, on_user_created,
}

pub record AdminCreateUserInput : Type 0 where
  pub email : String
  pub password : String
  pub first_name : String
  pub last_name : String
  pub role : Role

pub record AdminUpdateUserInput : Type 0 where
  pub user_id : Uuid
  pub role : Option Role
  pub is_active : Option Bool
  pub first_name : Option String
  pub last_name : Option String

pub record AdminResetPasswordInput : Type 0 where
  pub user_id : Uuid
  pub new_password : String

abbrev pub created_user : AdminCreateUserInput → String → User
created_user input hashed = record {
  id = 0;
  email = input.email;
  password_hash = hashed;
  first_name = input.first_name;
  last_name = input.last_name;
  role = input.role;
  is_active = true;
  must_change_password = true;
  created_at = 0;
  updated_at = 0;
}

-- `AdminCreateUser`
unfoldable pub admin_create_user :
    Crypto → IdentityService → AdminCreateUserInput → AccountRoutine User
unfolding is_valid_role select_user_by_email check_email_free hash_password insert_user
    on_user_created
admin_create_user crypto svc input = do
  fail_if (not (is_valid_role input.role)) invalid_role
  existing ← try (statement (select_user_by_email input.email))
  check_email_free existing
  hashed ← hash_password crypto input.password
  u ← statement (insert_user (created_user input hashed))
  on_user_created svc u
  pure u

-- `input.Role != nil && !input.Role.IsValid()`
unfoldable pub is_bad_role : Option Role → Bool
unfolding is_valid_role
is_bad_role none = false
is_bad_role (some r) = not (is_valid_role r)

abbrev pub role_or_kept : Role → Option Role → Role
role_or_kept old none = old
role_or_kept old (some new) = new

abbrev pub active_or_kept : Bool → Option Bool → Bool
active_or_kept old none = old
active_or_kept old (some new) = new

unfoldable pub merged : User → AdminUpdateUserInput → User
merged u input = record u {
  role = role_or_kept u.role input.role;
  first_name = or_kept u.first_name input.first_name;
  last_name = or_kept u.last_name input.last_name;
  is_active = active_or_kept u.is_active input.is_active;
}

-- `wasActive && input.IsActive != nil && !*input.IsActive`
unfoldable pub deactivates : Bool → Option Bool → Bool
deactivates was_active none = false
deactivates was_active (some b) = was_active && not b

abbrev pub is_empty_update : AdminUpdateUserInput → Bool
is_empty_update input =
    not (is_some input.role)
    && (not (is_some input.is_active)
        && (not (is_some input.first_name) && not (is_some input.last_name)))

-- from the update on: an error of the deletion is only logged
unfoldable pub apply_update : User → AdminUpdateUserInput → AccountRoutine User
unfolding merged update_user deactivates ignore delete_user_refresh_tokens pure
apply_update u input = do
  changed ← statement (update_user (merged u input))
  if deactivates u.is_active input.is_active
      then ignore (statement (delete_user_refresh_tokens u.id))
      else pure tt
  pure changed

-- `AdminUpdateUser`
unfoldable pub admin_update_user : Uuid → AdminUpdateUserInput → AccountRoutine User
unfolding select_user is_bad_role apply_update
admin_update_user by input = do
  fail_if (by == input.user_id) cannot_modify_self
  u ← statement (select_user input.user_id)
  fail_if (is_bad_role input.role) invalid_role
  if is_empty_update input then pure u else apply_update u input

-- `AdminResetPassword`
unfoldable pub admin_reset_password :
    Crypto → Uuid → AdminResetPasswordInput → AccountRoutine (Unit {0})
unfolding select_user hash_password update_password update_user ignore delete_user_refresh_tokens
admin_reset_password crypto by input = do
  fail_if (by == input.user_id) cannot_modify_self
  u ← statement (select_user input.user_id)
  hashed ← hash_password crypto input.new_password
  statement (update_password u.id hashed)
  statement (update_user (record u { must_change_password = true }))
  ignore (statement (delete_user_refresh_tokens u.id))
