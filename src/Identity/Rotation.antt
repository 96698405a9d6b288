-- ===== src/Identity/Rotation.antt =====
-- What a refresh gives and takes: `RefreshTokens` of internal/identity/service.go with
-- `GenerateTokens` of internal/identity/jwt/authenticator.go.
use incident_garden.Prelude.{
  ◌+◌, String, ◌≡◌, refl, sym, ap, ◌∙◌, inl, inr, Bool, true, false, ◌&&◌, not, none, some, List,
  ◌∷◌, arith, str_eq, any, keep, find_first, Bool-cases,
}
use mathlib.Core.Path.{subst}
use incident_garden.Prelude.Rows.{find-keep-not}
use incident_garden.Errors.{ok, err, invalid_token, account_deactivated}
use incident_garden.Domain.{Time}
use incident_garden.Routine.{fail, ignore}
use incident_garden.Routine.Ends.{Ends, Ends-bind, Ends-pure, Ends-fail, Ends-weaken}
use incident_garden.Pool.{Pool, statement}
use incident_garden.Pool.Results.{Results-clock, Results-require, Results-statement}
use incident_garden.Pool.Runs.{fail_as_fails}
use incident_garden.Identity.Results.{
  Ends-any, Results-row, Results-row_as, Results-sure, Results-draw,
}
use incident_garden.Identity.Users.{User, StoredToken, Accounts}
use incident_garden.Identity.Repository.{
  one_row, is_user, is_token, is_live_token, select_refresh_token, select_user,
  delete_refresh_token, insert_refresh_token,
}
use incident_garden.Identity.Jwt.{
  Crypto, JwtConfig, TokenPair, hmac, new_claims, new_refresh_token, generate_tokens,
}
use incident_garden.Identity.Service.{IdentityService, refuse_inactive, refresh_tokens}

insert_refresh_token-eq-ok :
    (t : StoredToken) (now : Time) (s : Accounts) {u : Unit {0}} {s' : Accounts}
    → insert_refresh_token t now s ≡ ok (u, s')
    → s' ≡ record s {
      refresh_tokens = record t { id = s.next_id } ∷ s.refresh_tokens;
      next_id = s.next_id + 1;
    }
unfolding insert_refresh_token
insert_refresh_token-eq-ok t now s h =
    elim (Bool-cases
      (not (any (is_token t.token) s.refresh_tokens) && any (is_user t.user_id) s.users)) [
        | inl fits ↦ ground (arith, fits, h)
        | inr unfit ↦ ground (arith, unfit, h)
      ]

-- The pair is signed for the user as it is now, and its refresh token is stored for that user.
pub record Generated (crypto : Crypto) (cfg : JwtConfig) (u : User) (p : Pool Accounts)
    (pair : TokenPair) (q : Pool Accounts) : Type 0 where
  pub signed : crypto.sign hmac cfg.secret_key (new_claims cfg u p.now) ≡ some pair.access_token
  pub random : crypto.base64 p.state.drawn ≡ some pair.refresh_token
  pub stored :
      q.state.refresh_tokens
      ≡ record (new_refresh_token cfg u pair.refresh_token p.now) { id = p.state.next_id }
        ∷ p.state.refresh_tokens
  pub same_users : q.state.users ≡ p.state.users

pub generate_tokens-Generated :
    (crypto : Crypto) (cfg : JwtConfig) (u : User) (p : Pool Accounts)
    → Ends (Generated crypto cfg u p) (generate_tokens crypto cfg u) p
unfolding generate_tokens
generate_tokens-Generated crypto cfg u p = Results-clock _ p (
    Results-require _ _ _ p λ access signed. Results-draw _ _ p λ refresh random.
      Results-statement _ _ _ λ t s fs made.
        let same =
          insert_refresh_token-eq-ok (new_refresh_token cfg u refresh p.now) p.now _ made in
        Ends-pure _ _ (record {
          signed = signed;
          random = random;
          stored = ap (λ (x : Accounts). x.refresh_tokens) same;
          same_users = ap (λ (x : Accounts). x.users) same;
        }))

refuse_inactive-Ends :
    (crypto : Crypto) (u : User) (token : String) (p : Pool Accounts)
    → Ends (λ _ q. (u.is_active ≡ true) × (q ≡ p)) (refuse_inactive crypto u token) p
unfolding refuse_inactive
refuse_inactive-Ends crypto u token p = elim (Bool-cases u.is_active) [
  | inl active ↦ rw active (Ends-pure tt p (refl, refl))
  | inr inactive ↦ rw inactive (
      Ends-bind (ignore (statement (delete_refresh_token token))) (λ _. fail account_deactivated) p
        (Ends-any _ p) (λ _ q _. Ends-fail account_deactivated q))
]

-- The token was stored for an account that is active, and has not run out; it is gone, and the new
-- pair is for that account.
pub record Rotated (crypto : Crypto) (cfg : JwtConfig) (token : String) (p : Pool Accounts)
    (pair : TokenPair) (q : Pool Accounts) : Type 0 where
  pub row : StoredToken
  pub owner : User
  pub held : find_first (is_live_token token p.now) p.state.refresh_tokens ≡ some row
  pub owned : find_first (is_user row.user_id) p.state.users ≡ some owner
  pub active : owner.is_active ≡ true
  pub signed : crypto.sign hmac cfg.secret_key (new_claims cfg owner p.now) ≡ some pair.access_token
  pub random : crypto.base64 p.state.drawn ≡ some pair.refresh_token
  pub replaced :
      q.state.refresh_tokens
      ≡ record (new_refresh_token cfg owner pair.refresh_token p.now) { id = p.state.next_id }
        ∷ keep (λ r. not (is_token token r)) p.state.refresh_tokens
  pub same_users : q.state.users ≡ p.state.users

refresh_tokens-Ends :
    (crypto : Crypto) (svc : IdentityService) (token : String) (p : Pool Accounts)
    → Ends (Rotated crypto svc.jwt token p) (refresh_tokens crypto svc token) p
unfolding refresh_tokens select_refresh_token select_user delete_refresh_token
refresh_tokens-Ends crypto svc token p = Results-row_as _ _ _ p _ _ refl λ row _ held.
    Results-row _ _ _ _ _ refl λ owner _ owned.
      Ends-bind _ _ _ (refuse_inactive-Ends crypto owner token _) λ _ u (active, same).
        subst (Ends (Rotated crypto svc.jwt token p) _) (sym same) (
          Results-sure _ _ _ _ _ refl λ _.
            Ends-weaken (generate_tokens-Generated crypto svc.jwt owner _) λ pair q g. record {
              row = row;
              owner = owner;
              held = held;
              owned = owned;
              active = active;
              signed = g.signed;
              random = g.random;
              replaced = g.stored;
              same_users = g.same_users;
            })

-- A RefreshTokens that returns, whatever the server refused, was given a token that is stored, has
-- not run out, and belongs to an account that is active; it has replaced that token by the one of
-- the new pair, which is signed for that account, and has changed no other token and no user.
pub refresh_tokens-Rotates :
    (crypto : Crypto) (svc : IdentityService) (token : String) (p q : Pool Accounts)
    (pair : TokenPair)
    → refresh_tokens crypto svc token p ≡ (ok pair, q)
    → Rotated crypto svc.jwt token p pair q
refresh_tokens-Rotates crypto svc token p q pair h =
    (refresh_tokens-Ends crypto svc token p).at pair q h

absent_cons :
    (token : String) (now : Time) (row : StoredToken) (rows : List StoredToken)
    → str_eq row.token token ≡ false
    → find_first (is_live_token token now) (row ∷ rows) ≡ find_first (is_live_token token now) rows
absent_cons token now row rows h = ground (arith, h)

-- A token that is not stored.
absent_refused :
    (crypto : Crypto) (svc : IdentityService) (token : String) (p : Pool Accounts)
    → ((now : Time) → find_first (is_live_token token now) p.state.refresh_tokens ≡ none)
    → (faults : List Bool) (now : Time)
    → (refresh_tokens crypto svc token (record p { faults = faults; now = now })).0
      ≡ err invalid_token
unfolding refresh_tokens
absent_refused crypto svc token p gone faults now =
    fail_as_fails _ _ _ (record p { faults = faults; now = now }) _
      (unfold select_refresh_token in ap (λ o. one_row o invalid_token p.state) (gone now))

-- A refresh token serves once: after a RefreshTokens that returns with another refresh token, the
-- same token is refused as invalid, at any time and whatever the server then refuses.
pub refresh_tokens-once :
    (crypto : Crypto) (svc : IdentityService) (token : String) (p q : Pool Accounts)
    (pair : TokenPair) (faults : List Bool) (now : Time)
    → refresh_tokens crypto svc token p ≡ (ok pair, q)
    → str_eq pair.refresh_token token ≡ false
    → (refresh_tokens crypto svc token (record q { faults = faults; now = now })).0
      ≡ err invalid_token
refresh_tokens-once crypto svc token p q pair faults now h other =
    let r = refresh_tokens-Rotates crypto svc token p q pair h in
    absent_refused crypto svc token q
      (λ t.
        ap (find_first (is_live_token token t)) r.replaced
        ∙ absent_cons token t _ _ other
        ∙ find-keep-not (is_token token) (is_live_token token t) p.state.refresh_tokens
            (λ row live. ground (arith, live)))
      faults now
