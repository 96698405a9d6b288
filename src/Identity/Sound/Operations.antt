-- ===== src/Identity/Sound/Operations.antt =====
-- `ResetPassword` and `AdminUpdateUser` keep the tables sound, whether they return or fail.
use incident_garden.Prelude.{String}
use incident_garden.Errors.{Result, ok, err}
use incident_garden.Domain.{Uuid}
use incident_garden.Routine.Steps.{IsPreorder, Step}
use incident_garden.Pool.Tables.{OnState, OnState-IsPreorder}
use incident_garden.Identity.Users.{User}
use incident_garden.Identity.Jwt.{Crypto, AccountRoutine}
use incident_garden.Identity.Service.{clear_must_change, hash_password}
use incident_garden.Identity.Reset.{ResetPasswordInput, clear_if_found, reset_password}
use incident_garden.Identity.Admin.{AdminUpdateUserInput, apply_update, admin_update_user}
use incident_garden.Identity.Sound.{KeepsSound, KeepsSound-IsPreorder}
use incident_garden.Identity.Sound.Statements.{sound_rules}

abbrev Keeps : {A : Type 0} → AccountRoutine A → Type 0
Keeps m = Step (OnState KeepsSound) m

on_sound : IsPreorder (OnState KeepsSound)
on_sound = OnState-IsPreorder KeepsSound-IsPreorder

clear_must_change-Sound : (u : User) → Keeps (clear_must_change u)
unfolding clear_must_change
clear_must_change-Sound u = search (sound_rules, on_sound)

apply_update-Sound : (u : User) (input : AdminUpdateUserInput) → Keeps (apply_update u input)
unfolding apply_update
apply_update-Sound u input = search (sound_rules, on_sound) depth 7

pub admin_update_user-Sound :
    (by : Uuid) (input : AdminUpdateUserInput) → Keeps (admin_update_user by input)
unfolding admin_update_user
admin_update_user-Sound by input = search (sound_rules, on_sound, apply_update-Sound) depth 9

module _ (crypto : Crypto) where
  hash_password-Sound : (password : String) → Keeps (hash_password crypto password)
  unfolding hash_password
  hash_password-Sound password = search sound_rules

  clear_if_found-Sound : (r : Result User) → Keeps (clear_if_found r)
  unfolding clear_if_found
  clear_if_found-Sound (ok u) = clear_must_change-Sound u
  clear_if_found-Sound (err e) = search (sound_rules, on_sound)

  pub reset_password-Sound : (input : ResetPasswordInput) → Keeps (reset_password crypto input)
  unfolding reset_password
  reset_password-Sound input =
      search (sound_rules, on_sound, hash_password-Sound, clear_if_found-Sound) depth 11
