-- ===== src/Identity/Reset/Silent.antt =====
-- `ForgotPassword` of internal/identity/service.go gives nothing away.
use incident_garden.Prelude.{
  ◌+◌, String, ◌≡◌, refl, ap, ◌∙◌, inl, inr, true, false, not, some, [], ◌∷◌, any, keep, find_first,
  Bool-cases, Option-cases,
}
use incident_garden.Errors.{Result, ok, user_not_found}
use incident_garden.Domain.{Time}
use incident_garden.Routine.{◌>>◌, pure}
use incident_garden.Pool.{Pool, statement, call}
use incident_garden.Pool.Runs.{
  fail_if_passes, try_runs, try_goes_on, statement_runs, clock_runs, call_runs,
}
use incident_garden.Identity.Users.{User, StoredToken, Accounts}
use incident_garden.Identity.Repository.{
  one_row, is_user, has_email, is_token, belongs_to, latest, select_user_by_email,
  select_latest_reset_token, insert_reset_token,
}
use incident_garden.Identity.Jwt.{Crypto}
use incident_garden.Identity.Issue.{draw-eq}
use incident_garden.Identity.Rows.{any_own}
use incident_garden.Identity.Service.{IdentityService, is_user_not_found}
use incident_garden.Identity.Reset.{
  is_recent, new_reset_token, reset_mail, send_mail, send_reset, limited_reset, forgot_for,
  forgot_password,
}

insert_reset_token-eq :
    (t : StoredToken) (now : Time) (s : Accounts)
    → any (is_token t.token) s.reset_tokens ≡ false
    → any (is_user t.user_id) s.users ≡ true
    → insert_reset_token t now s
      ≡ ok (
        tt,
        record s {
          reset_tokens = record t { id = s.next_id; created_at = now } ∷ s.reset_tokens;
          next_id = s.next_id + 1;
        },
      )
unfolding insert_reset_token
insert_reset_token-eq t now s h k = rw (h, k) refl

-- A routine that returns whatever it returns to.
Answers : Result (Unit {0}) × Pool Accounts → Type 0
Answers r = r.0 ≡ ok tt

module _ (crypto : Crypto) (svc : IdentityService) (p : Pool Accounts) (text : String)
    (served : p.faults ≡ []) (drawn : crypto.hex p.state.drawn ≡ some text)
    (unused : any (is_token text) p.state.reset_tokens ≡ false) where
  send_reset_answers :
      (u : User)
      → any (is_user u.id) p.state.users ≡ true
      → (send_reset crypto svc u p.now p).0 ≡ ok tt
  unfolding send_reset call
  send_reset_answers u there =
      ap (λ (r : Result (Unit {0}) × Pool Accounts). r.0)
        (call_runs _
            (λ t.
              statement (insert_reset_token (new_reset_token u t p.now))
              >> call (send_mail (reset_mail svc u t)))
            p text _ (draw-eq crypto.hex p.state text drawn)
          ∙ statement_runs (insert_reset_token (new_reset_token u text p.now))
              (record p { state = record p.state { drawn = p.state.drawn + 1 } }) served
              (λ _. call (send_mail (reset_mail svc u text))) tt _
              (insert_reset_token-eq (new_reset_token u text p.now) p.now _ unused there))

  limited_reset_answers :
      (u : User)
      → any (is_user u.id) p.state.users ≡ true
      → (limited_reset crypto svc u p).0 ≡ ok tt
  unfolding limited_reset select_latest_reset_token pure
  limited_reset_answers u there =
      let last = latest (keep (belongs_to u.id) p.state.reset_tokens) in
      ap (λ (r : Result (Unit {0}) × Pool Accounts). r.0)
        (statement_runs (select_latest_reset_token u.id) p served _ last p.state refl
          ∙ clock_runs _ p)
      ∙ elim (Bool-cases (is_recent p.now last)) [
        | inl recent ↦ rw recent refl
        | inr past ↦ rw past (send_reset_answers u there)
      ]

  -- Where the server refuses nothing, an e-mail sender is there and the random text that is drawn is
  -- not a token already, a ForgotPassword answers every address in the same way, whether or not
  -- anybody has it, and whether or not a mail goes out.
  pub forgot_password-silent :
      (email : String)
      → svc.has_email_sender ≡ true
      → (forgot_password crypto svc email p).0 ≡ ok tt
  unfolding forgot_password
  forgot_password-silent email sender =
      ap (λ (r : Result (Unit {0}) × Pool Accounts). r.0)
        (fail_if_passes (not svc.has_email_sender) _ _ p (ap not sender))
      ∙ elim (Option-cases (find_first (has_email email) p.state.users)) [
        | inl missing ↦
            ap (λ (r : Result (Unit {0}) × Pool Accounts). r.0)
              (try_goes_on (select_user_by_email email) p served (forgot_for crypto svc)
                user_not_found
                (unfold select_user_by_email in ap (λ o. one_row o user_not_found p.state) missing))
            ∙ (unfold forgot_for is_user_not_found pure in refl)
        | inr (u, found) ↦
            ap (λ (r : Result (Unit {0}) × Pool Accounts). r.0)
              (try_runs (select_user_by_email email) p served (forgot_for crypto svc) u p.state
                (unfold select_user_by_email in ap (λ o. one_row o user_not_found p.state) found))
            ∙ (unfold forgot_for in
                limited_reset_answers u (any_own (has_email email) p.state.users found))
      ]
