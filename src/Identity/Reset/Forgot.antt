-- ===== src/Identity/Reset/Forgot.antt =====
-- `ForgotPassword` of internal/identity/service.go: how often it sends a mail, and that its answer
-- does not depend on the address.
use incident_garden.Prelude.{
  ◌+◌, ◌*◌, ◌≤◌, String, ◌≡◌, refl, sym, ap, ◌∙◌, inl, inr, Bool, false, ◌&&◌, not, Option, none,
  some, List, [], ◌∷◌, arith, ltb, any, keep, find_first, All, Bool-cases, Option-cases,
}
use mathlib.Core.Path.{subst}
use native.Mathlib.Nat.{le_refl}
use incident_garden.Prelude.Rows.{All-mono}
use incident_garden.Errors.{Error, ok, err, user_not_found}
use incident_garden.Domain.{Time}
use incident_garden.Routine.{pure, fail}
use incident_garden.Routine.Ends.{Ends, Ends-pure, Ends-fail, Ends-if, Ends-weaken}
use incident_garden.Pool.{Pool}
use incident_garden.Pool.Tables.{Ends-call}
use incident_garden.Pool.Results.{Results-fail_if, Results-clock, Results-try, Results-statement}
use incident_garden.Identity.Users.{User, StoredToken, Accounts}
use incident_garden.Identity.Repository.{
  is_user, has_email, is_token, belongs_to, latest, select_user_by_email, select_latest_reset_token,
  insert_reset_token,
}
use incident_garden.Identity.Results.{one_row-eq-ok, Results-draw, Results-sure}
use incident_garden.Identity.Jwt.{Crypto, second}
use incident_garden.Identity.Service.{IdentityService, is_user_not_found}
use incident_garden.Identity.Reset.{
  is_recent, new_reset_token, reset_mail, send_mail, send_reset, limited_reset, forgot_for,
  forgot_password,
}

-- The newest token is no older than any.
Newest : Option StoredToken → List StoredToken → Type 0
Newest none ts = ts ≡ []
Newest (some u) ts = All (λ t. t.created_at ≤ u.created_at) ts

latest-Newest : (ts : List StoredToken) → Newest (latest ts) ts
unfolding latest Newest
latest-Newest [] = refl
latest-Newest (t ∷ ts) = elim (Option-cases (latest ts)) [
  | inl nothing ↦
      let rest : Newest none ts = subst (λ o. Newest o ts) nothing (latest-Newest ts) in
      rw (nothing, rest) (le_refl t.created_at, tt)
  | inr (u, newest) ↦
      let rest : Newest (some u) ts = subst (λ o. Newest o ts) newest (latest-Newest ts) in
      elim (Bool-cases (ltb t.created_at u.created_at)) [
        | inl older ↦ rw (newest, older) (ground (arith, older), rest)
        | inr younger ↦
            rw (newest, younger)
              (
                le_refl t.created_at,
                All-mono (λ r. r.created_at ≤ u.created_at) (λ r. r.created_at ≤ t.created_at)
                    (λ r h. ground (arith, younger, h)) ts rest,
              )
      ]
]

-- Five minutes have passed since each of the tokens.
abbrev pub Old : Time → List StoredToken → Type 0
Old now = All λ t. t.created_at + 300 * second ≤ now

not_recent : (now : Time) (ts : List StoredToken) → is_recent now (latest ts) ≡ false → Old now ts
unfolding is_recent Newest
not_recent now ts h = elim (Option-cases (latest ts)) [
  | inl nothing ↦
      let none_at_all : ts ≡ [] = subst (λ o. Newest o ts) nothing (latest-Newest ts) in
      subst (Old now) (sym none_at_all) tt
  | inr (u, newest) ↦
      let rest : Newest (some u) ts = subst (λ o. Newest o ts) newest (latest-Newest ts) in
      let past : ltb now (u.created_at + 300 * second) ≡ false =
        ap (is_recent now) (sym newest) ∙ h in
      All-mono (λ r. r.created_at ≤ u.created_at) (λ r. r.created_at + 300 * second ≤ now)
        (λ r le. ground (arith, past, le)) ts rest
]

-- What a ForgotPassword that returns has done.
pub data Asked (svc : IdentityService) (email : String) (p q : Pool Accounts) : Type 0 where
  skipped :
      q.state.reset_tokens ≡ p.state.reset_tokens
      → q.state.mails ≡ p.state.mails
      → Asked svc email p q
  sent :
      (u : User) (text : String)
      → find_first (has_email email) p.state.users ≡ some u
      → Old p.now (keep (belongs_to u.id) p.state.reset_tokens)
      → q.state.reset_tokens
        ≡ record (new_reset_token u text p.now) { id = p.state.next_id; created_at = p.now }
          ∷ p.state.reset_tokens
      → q.state.mails ≡ reset_mail svc u text ∷ p.state.mails
      → Asked svc email p q

insert_reset_token-eq-ok :
    (t : StoredToken) (now : Time) (s : Accounts) {a : Unit {0}} {s' : Accounts}
    → insert_reset_token t now s ≡ ok (a, s')
    → s' ≡ record s {
      reset_tokens = record t { id = s.next_id; created_at = now } ∷ s.reset_tokens;
      next_id = s.next_id + 1;
    }
unfolding insert_reset_token
insert_reset_token-eq-ok t now s h =
    elim (Bool-cases
      (not (any (is_token t.token) s.reset_tokens) && any (is_user t.user_id) s.users)) [
        | inl fits ↦ ground (arith, fits, h)
        | inr unfit ↦ ground (arith, unfit, h)
      ]

module _ (crypto : Crypto) (svc : IdentityService) (email : String) (p : Pool Accounts) where
  abbrev found_pool : List Bool → Pool Accounts
  found_pool fs = record p { faults = fs }

  send_reset-Asked :
      (u : User) (fs : List Bool)
      → find_first (has_email email) p.state.users ≡ some u
      → Old p.now (keep (belongs_to u.id) p.state.reset_tokens)
      → Ends (λ _ q. Asked svc email p q) (send_reset crypto svc u p.now) (found_pool fs)
  unfolding send_reset
  send_reset-Asked u fs found old = Results-draw _ _ _ λ text _.
      Results-statement _ _ _ λ _ s gs made.
        let same = insert_reset_token-eq-ok (new_reset_token u text p.now) p.now _ made in
        Ends-weaken (Ends-call (send_mail (reset_mail svc u text)) _) λ _ q c.
          let after_mail : record s { mails = reset_mail svc u text ∷ s.mails } ≡ q.state =
            ground (arith, c.called) in
          sent u text found old
            (ap (λ (x : Accounts). x.reset_tokens) (sym after_mail)
              ∙ ap (λ (x : Accounts). x.reset_tokens) same)
            (ap (λ (x : Accounts). x.mails) (sym after_mail)
              ∙ ap (λ (x : Accounts). reset_mail svc u text ∷ x.mails) same)

  limited_reset-Asked :
      (u : User) (fs : List Bool)
      → find_first (has_email email) p.state.users ≡ some u
      → Ends (λ _ q. Asked svc email p q) (limited_reset crypto svc u) (found_pool fs)
  unfolding limited_reset select_latest_reset_token
  limited_reset-Asked u fs found = Results-sure _ _ _ _ _ refl λ gs. Results-clock _ _ (
      Ends-if _ _ _ _ (λ recent. Ends-pure _ _ (skipped refl refl))
        λ past.
          send_reset-Asked u gs found
            (not_recent p.now (keep (belongs_to u.id) p.state.reset_tokens) past))

  forgot_for-err :
      (x : Error) (fs : List Bool)
      → Ends (λ _ q. Asked svc email p q) (forgot_for crypto svc (err x)) (found_pool fs)
  unfolding forgot_for
  forgot_for-err x fs =
      Ends-if (is_user_not_found x) (pure tt) (fail x) _ (λ _. Ends-pure tt _ (skipped refl refl))
        (λ _. Ends-fail x _)

  forgot_for-ok :
      (u : User) (s : Accounts) (fs : List Bool)
      → select_user_by_email email p.now p.state ≡ ok (u, s)
      → Ends
          (λ _ q. Asked svc email p q)
          (forgot_for crypto svc (ok u))
          (record p { state = s; faults = fs })
  unfolding forgot_for select_user_by_email
  forgot_for-ok u s fs made =
      let (found, same) =
        one_row-eq-ok (find_first (has_email email) p.state.users) user_not_found p.state made in
      subst
        (λ t.
          Ends (λ _ q. Asked svc email p q) (limited_reset crypto svc u)
            (record p { state = t; faults = fs }))
        (sym same) (limited_reset-Asked u fs found)

-- A ForgotPassword that returns, whatever the server refused, has stored a token and sent a mail with
-- it only for the user with that address, and only where every token that is stored for the user is
-- at least five minutes old; otherwise it has stored and sent nothing.
pub forgot_password-Asked :
    (crypto : Crypto) (svc : IdentityService) (email : String) (p q : Pool Accounts)
    → forgot_password crypto svc email p ≡ (ok tt, q)
    → Asked svc email p q
unfolding forgot_password
forgot_password-Asked crypto svc email p q h =
    (Results-fail_if _ _ _ p λ _.
        Results-try (select_user_by_email email) p _
          (λ x fs. forgot_for-err crypto svc email p x fs)
          (λ u s fs made. forgot_for-ok crypto svc email p u s fs made)).at
      tt q h
