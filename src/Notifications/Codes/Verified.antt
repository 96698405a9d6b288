-- ===== src/Notifications/Codes/Verified.antt =====
-- When a channel is verified by code.
use incident_garden.Prelude.{
  String, ◌<◌, ◌≡◌, refl, inl, inr, Bool, true, false, some, List, [], ◌∷◌, arith, leb, str_eq, any,
  find_first, Bool-cases, Option-cases,
}
use incident_garden.Domain.{Uuid}
use incident_garden.Store.{Result, ok, err}
use incident_garden.Notifications.Payload.{NotificationChannel}
use incident_garden.Notifications.Codes.{
  VerificationCode, Vault, attempt, statement, is_active_code, is_channel, select_code,
  get_verification_code, update_channel, after_update, max_verification_attempts,
  increment_code_attempts, compare_code, on_code, verify_email_code,
}

-- The input is the code that is active, within the limit of guesses, and the channel is marked.
pub record Verified (channel : NotificationChannel) (input : String) (v : Vault)
    (changed : NotificationChannel) : Type 0 where
  pub row : VerificationCode
  pub found : find_first (is_active_code channel.id v.now) v.codes ≡ some row
  pub within : row.attempts < max_verification_attempts
  pub matches : str_eq input row.code ≡ true
  pub marked : changed.is_verified ≡ true
  pub same_id : changed.id ≡ channel.id

attempt-eq-ok :
    {A : Type 0} (fs : List Bool) (r : Result (A × Vault)) (v : Vault) {a : A} {u : Vault}
    → attempt fs r v ≡ (ok a, u)
    → (x : Vault) × (r ≡ ok (a, x))
unfolding attempt
attempt-eq-ok [] (ok (b, x)) v h = (x, ground arith)
attempt-eq-ok [] (err e) v h = cc
attempt-eq-ok (false ∷ fs) (ok (b, x)) v h = (x, ground arith)
attempt-eq-ok (false ∷ fs) (err e) v h = cc
attempt-eq-ok (true ∷ fs) r v h = cc

select_code-eq-ok :
    (c : Uuid) (v x : Vault) (row : VerificationCode)
    → select_code c v ≡ ok (row, x)
    → find_first (is_active_code c v.now) v.codes ≡ some row
unfolding select_code
select_code-eq-ok c v x row h = elim (Option-cases (find_first (is_active_code c v.now) v.codes)) [
  | inl missing ↦ ground (arith, missing, h)
  | inr (found_row, found) ↦ ground (arith, found, h)
]

update_channel-marks :
    (channel changed : NotificationChannel) (v u : Vault)
    → update_channel channel v ≡ (ok changed, u)
    → (changed.is_verified ≡ channel.is_verified) × (changed.id ≡ channel.id)
unfolding update_channel statement
update_channel-marks channel changed v u h =
    let (x, e) = attempt-eq-ok v.faults _ v h in
    elim (Bool-cases (any (is_channel channel.id) v.channels)) [
      | inl there ↦ (ground (arith, there, e), ground (arith, there, e))
      | inr missing ↦ ground (arith, missing, e)
    ]

after_update-eq-ok :
    (r : Result NotificationChannel × Vault) (changed : NotificationChannel) (u : Vault)
    → after_update r ≡ (ok changed, u)
    → r ≡ (ok changed, r.1)
unfolding after_update
after_update-eq-ok (err e, v) changed u h = cc
after_update-eq-ok (ok channel, v) changed u h = ground arith

compare_code-Verified :
    (channel : NotificationChannel) (input : String) (stored : VerificationCode) (v u : Vault)
    (changed : NotificationChannel)
    → compare_code channel input stored v ≡ (ok changed, u)
    → (str_eq input stored.code ≡ true) × (changed.is_verified ≡ true) × (changed.id ≡ channel.id)
unfolding compare_code
compare_code-Verified channel input stored v u changed h =
    elim (Bool-cases (str_eq input stored.code)) [
      | inl same ↦
          let updated =
            after_update-eq-ok (update_channel (record channel { is_verified = true }) v) changed u
              (ground (arith, same, h)) in
          let m =
            update_channel-marks (record channel { is_verified = true }) changed v _ updated in
          (same, m.0, m.1)
      | inr other ↦ ground (arith, other, h)
    ]

on_code-Verified :
    (channel : NotificationChannel) (input : String) (r : Result VerificationCode × Vault)
    (changed : NotificationChannel) (v u : Vault)
    → get_verification_code channel.id v ≡ r
    → on_code channel input r ≡ (ok changed, u)
    → Verified channel input v changed
unfolding on_code get_verification_code statement
on_code-Verified channel input (err e, x) changed v u g h = cc
on_code-Verified channel input (ok stored, x) changed v u g h =
    elim (Bool-cases (leb max_verification_attempts stored.attempts)) [
      | inl spent ↦ ground (arith, spent, h)
      | inr under ↦
          let (y, e) = attempt-eq-ok v.faults (select_code channel.id v) v g in
          let c =
            compare_code-Verified channel input stored (increment_code_attempts channel.id x).1 u
              changed (ground (arith, under, h)) in
          record {
            row = stored;
            found = select_code-eq-ok channel.id v y stored e;
            within = ground (arith, under);
            matches = c.0;
            marked = c.1;
            same_id = c.2;
          }
    ]

-- Whatever the server refuses, a verification that returns was given the code of the channel that is
-- active, with fewer than five guesses counted, and returns that channel marked as verified.
pub verify_email_code-Verified :
    (channel : NotificationChannel) (input : String) (v u : Vault) (changed : NotificationChannel)
    → verify_email_code channel input v ≡ (ok changed, u)
    → Verified channel input v changed
unfolding verify_email_code
verify_email_code-Verified channel input v u changed h =
    on_code-Verified channel input (get_verification_code channel.id v) changed v u refl h
