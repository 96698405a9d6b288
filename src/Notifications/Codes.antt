-- ===== src/Notifications/Codes.antt =====
-- Verification of an e-mail channel by code: `verifyEmailCode` of
-- internal/notifications/service.go, and the statements on channel_verification_codes of
-- internal/notifications/postgres/repository.go. The comparison in constant time is an equality
-- test.
pub mod Guesses
pub mod Verified
mod Tests
use incident_garden.Prelude.{
  ℕ, String, ◌+◌, Bool, true, false, ◌&&◌, not, Option, none, some, List, [], ◌∷◌, ltb, leb, ◌==◌,
  str_eq, if◌then◌else◌, any, keep, find_first, update_where,
}
use incident_garden.Domain.{Uuid, Time}
use incident_garden.Store.{
  Error, Result, ok, err, db_failure, channel_not_found, verification_code_not_found,
  verification_code_invalid, too_many_attempts,
}
use incident_garden.Notifications.Payload.{NotificationChannel}

pub record VerificationCode : Type 0 where
  pub id : Uuid
  pub channel_id : Uuid
  pub code : String
  pub expires_at : Time
  pub attempts : ℕ
  pub created_at : Time

-- The two tables, the statements to come that the server refuses, and the clock.
pub record Vault : Type 0 where
  pub channels : List NotificationChannel
  pub codes : List VerificationCode
  pub faults : List Bool
  pub now : Time

-- What a statement makes of the vault, or the error that the repository returns.
attempt : {A : Type 0} → List Bool → Result (A × Vault) → Vault → Result A × Vault
attempt [] (ok (a, u)) v = (ok a, u)
attempt [] (err e) v = (err e, v)
attempt (false ∷ fs) (ok (a, u)) v = (ok a, record u { faults = fs })
attempt (false ∷ fs) (err e) v = (err e, record v { faults = fs })
attempt (true ∷ fs) r v = (err db_failure, record v { faults = fs })

unfoldable pub statement : {A : Type 0} → (Vault → Result (A × Vault)) → Vault → Result A × Vault
unfolding attempt
statement f v = attempt v.faults (f v) v

-- `channel_id = $1 AND expires_at > NOW()`
abbrev pub is_active_code : Uuid → Time → VerificationCode → Bool
is_active_code c now row = row.channel_id == c && ltb now row.expires_at

unfoldable pub select_code : Uuid → Vault → Result (VerificationCode × Vault)
select_code c v = elim (find_first (is_active_code c v.now) v.codes) [
  | none ↦ err verification_code_not_found
  | some row ↦ ok (row, v)
]

-- `GetVerificationCode`
unfoldable pub get_verification_code : Uuid → Vault → Result VerificationCode × Vault
unfolding statement select_code
get_verification_code c v = statement (select_code c) v

unfoldable pub add_attempt : VerificationCode → VerificationCode
add_attempt row = record row { attempts = row.attempts + 1 }

-- `IncrementCodeAttempts`
unfoldable pub increment_code_attempts : Uuid → Vault → Result (Unit {0}) × Vault
unfolding statement add_attempt
increment_code_attempts c v =
    statement
      (λ u. ok (tt, record u { codes = update_where (is_active_code c u.now) add_attempt u.codes }))
      v

abbrev is_channel : Uuid → NotificationChannel → Bool
is_channel c row = row.id == c

-- `UpdateChannel`
unfoldable pub set_channel : NotificationChannel → Time → NotificationChannel → NotificationChannel
set_channel channel now row = record row {
  is_enabled = channel.is_enabled;
  is_verified = channel.is_verified;
  subscribe_to_all_services = channel.subscribe_to_all_services;
  updated_at = now;
}

unfoldable pub update_channel : NotificationChannel → Vault → Result NotificationChannel × Vault
unfolding statement set_channel
update_channel channel v =
    statement
      (λ u.
        if any (is_channel channel.id) u.channels
        then ok (
          record channel { updated_at = u.now },
          record u {
            channels = update_where (is_channel channel.id) (set_channel channel u.now) u.channels;
          },
        )
        else err channel_not_found)
      v

-- `DeleteVerificationCode`
unfoldable pub delete_verification_code : Uuid → Vault → Result (Unit {0}) × Vault
unfolding statement
delete_verification_code c v =
    statement (λ u. ok (tt, record u { codes = keep (λ row. not (row.channel_id == c)) u.codes })) v

abbrev pub max_verification_attempts : ℕ
max_verification_attempts = 5

-- the end of `verifyEmailCode`: an error of the deletion is dropped
after_update : Result NotificationChannel × Vault → Result NotificationChannel × Vault
after_update (err e, v) = (err e, v)
after_update (ok channel, v) = (ok channel, (delete_verification_code channel.id v).1)

-- from the comparison on
unfoldable pub compare_code :
    NotificationChannel → String → VerificationCode → Vault → Result NotificationChannel × Vault
unfolding after_update
compare_code channel input stored v =
    if not (str_eq input stored.code)
    then (err verification_code_invalid, v)
    else after_update (update_channel (record channel { is_verified = true }) v)

-- from the limit on: an error of the increment is only logged
unfoldable pub on_code :
    NotificationChannel
    → String
    → Result VerificationCode × Vault
    → Result NotificationChannel × Vault
unfolding compare_code
on_code channel input (err e, v) = (err e, v)
on_code channel input (ok stored, v) =
    if leb max_verification_attempts stored.attempts
    then (err too_many_attempts, v)
    else compare_code channel input stored (increment_code_attempts channel.id v).1

-- `verifyEmailCode`
unfoldable pub verify_email_code :
    NotificationChannel → String → Vault → Result NotificationChannel × Vault
unfolding on_code
verify_email_code channel input v = on_code channel input (get_verification_code channel.id v)
