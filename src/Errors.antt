-- ===== src/Errors.antt =====
-- What an operation returns: Go's pair of a value and an error.
-- The errors are the sentinels of events/errors.go, catalog/service.go, identity/service.go,
-- identity/jwt/authenticator.go and notifications/errors.go, and one for any error that carries only
-- a message. Wrapping with %w keeps the sentinel, so a wrapped error is the error itself.
pub data Error : Type 0 where
  event_not_found invalid_status invalid_severity service_not_in_event : Error
  event_already_resolved event_not_resolved : Error
  affected_service_not_found affected_group_not_found : Error
  group_not_found service_not_found slug_exists invalid_slug already_archived not_archived : Error
  service_has_active_events group_has_active_events group_has_services : Error
  unknown_event_type unknown_severity : Error
  channel_not_found item_not_failed : Error
  verification_code_not_found verification_code_invalid too_many_attempts : Error
  user_not_found email_exists invalid_credentials invalid_token invalid_reset_token : Error
  account_deactivated wrong_password email_not_configured cannot_modify_self invalid_role : Error
  token_expired : Error
  db_failure crypto_failure : Error

pub data Result (A : Type 0) : Type 0 where
  ok : A → Result A
  err : Error → Result A
