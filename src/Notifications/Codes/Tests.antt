-- ===== src/Notifications/Codes/Tests.antt =====
-- Guesses of a code, and the theorems there.
use incident_garden.Prelude.{◌≡◌, refl, true, false, [], ◌∷◌, arith}
use incident_garden.Store.{ok, err, too_many_attempts}
use incident_garden.Notifications.Payload.{NotificationChannel, email}
use incident_garden.Notifications.Codes.{
  Vault, verify_email_code, statement, select_code, update_channel, on_code, compare_code,
  get_verification_code, increment_code_attempts,
}
use incident_garden.Notifications.Codes.Guesses.{guess_all, verify_email_code-limited}
use incident_garden.Notifications.Codes.Verified.{Verified, verify_email_code-Verified}

abbrev inbox : NotificationChannel
inbox = record {
  id = 50;
  user_id = 60;
  type = email;
  target = "a@b.c";
  is_enabled = true;
  is_verified = false;
  is_default = false;
  subscribe_to_all_services = false;
  created_at = 1;
  updated_at = 1;
}

abbrev vault : Vault
vault = record {
  channels = inbox ∷ [];
  codes =
      record {
        id = 1;
        channel_id = 50;
        code = "271828";
        expires_at = 900;
        attempts = 3;
        created_at = 100;
      }
      ∷ [];
  faults = [];
  now = 200;
}

verify_email_code-limited_example :
    (verify_email_code inbox "271828" (guess_all inbox ("000000" ∷ "111111" ∷ []) vault)).0
    ≡ err too_many_attempts
verify_email_code-limited_example =
    verify_email_code-limited inbox ("000000" ∷ "111111" ∷ []) vault
      (record {
        id = 1;
        channel_id = 50;
        code = "271828";
        expires_at = 900;
        attempts = 3;
        created_at = 100;
      })
      "271828" refl refl refl (omega arith)

verify_runs : verify_email_code inbox "271828" vault ≡ (
  ok (record inbox { is_verified = true; updated_at = 200 }),
  (verify_email_code inbox "271828" vault).1,
)
unfolding verify_email_code on_code compare_code statement select_code update_channel
    get_verification_code increment_code_attempts
verify_runs = refl

verify_email_code-Verified_example :
    Verified inbox "271828" vault (record inbox { is_verified = true; updated_at = 200 })
verify_email_code-Verified_example =
    verify_email_code-Verified inbox "271828" vault (verify_email_code inbox "271828" vault).1
      (record inbox { is_verified = true; updated_at = 200 }) verify_runs
