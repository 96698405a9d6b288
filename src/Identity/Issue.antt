-- ===== src/Identity/Issue.antt =====
-- `GenerateTokens` of internal/identity/jwt/authenticator.go where nothing stands in its way.
use incident_garden.Prelude.{
  ℕ, ◌+◌, ◌/◌, String, ◌≡◌, refl, ◌∙◌, true, false, Option, some, [], ◌∷◌, any,
}
use incident_garden.Errors.{ok}
use incident_garden.Domain.{Time}
use incident_garden.Routine.{pure}
use incident_garden.Pool.{Pool}
use incident_garden.Pool.Runs.{clock_runs, require_runs, call_runs, statement_runs}
use incident_garden.Identity.Users.{User, StoredToken, Accounts}
use incident_garden.Identity.Repository.{is_user, is_token, insert_refresh_token}
use incident_garden.Identity.Jwt.{
  Crypto, JwtConfig, TokenPair, hmac, second, new_claims, new_refresh_token, draw, drawn_or_fail,
  generate_tokens,
}

-- The state after tokens have been generated.
abbrev pub with_tokens : JwtConfig → User → String → Time → Accounts → Accounts
with_tokens cfg u refresh now s = record s {
  drawn = s.drawn + 1;
  refresh_tokens =
      record (new_refresh_token cfg u refresh now) { id = s.next_id } ∷ s.refresh_tokens;
  next_id = s.next_id + 1;
}

abbrev pub new_pair : JwtConfig → String → String → TokenPair
new_pair cfg access refresh = record {
  access_token = access;
  refresh_token = refresh;
  expires_in = cfg.access_token_duration / second;
}

-- What the outside provides for new tokens: a signature, a random text, and that nobody has it.
pub record CanIssue (crypto : Crypto) (cfg : JwtConfig) (u : User) (access refresh : String)
    (now : Time) (s : Accounts) : Type 0 where
  pub signs : crypto.sign hmac cfg.secret_key (new_claims cfg u now) ≡ some access
  pub draws : crypto.base64 s.drawn ≡ some refresh
  pub unused : any (is_token refresh) s.refresh_tokens ≡ false
  pub exists : any (is_user u.id) s.users ≡ true

pub draw-eq :
    (f : ℕ → Option String) (s : Accounts) (t : String)
    → f s.drawn ≡ some t
    → draw f s ≡ (ok t, record s { drawn = s.drawn + 1 })
unfolding draw drawn_or_fail
draw-eq f s t h = rw h refl

insert_refresh_token-eq :
    (t : StoredToken) (now : Time) (s : Accounts)
    → any (is_token t.token) s.refresh_tokens ≡ false
    → any (is_user t.user_id) s.users ≡ true
    → insert_refresh_token t now s
      ≡ ok (
        tt,
        record s {
          refresh_tokens = record t { id = s.next_id } ∷ s.refresh_tokens;
          next_id = s.next_id + 1;
        },
      )
unfolding insert_refresh_token
insert_refresh_token-eq t now s h k = rw (h, k) refl

pub generate_tokens_runs :
    (crypto : Crypto) (cfg : JwtConfig) (u : User) (access refresh : String) (p : Pool Accounts)
    → p.faults ≡ []
    → CanIssue crypto cfg u access refresh p.now p.state
    → generate_tokens crypto cfg u p ≡ (
      ok (new_pair cfg access refresh),
      record p { state = with_tokens cfg u refresh p.now p.state },
    )
unfolding generate_tokens pure
generate_tokens_runs crypto cfg u access refresh p served c =
    clock_runs _ p
    ∙ require_runs _ _ _ p access c.signs
    ∙ call_runs _ _ p refresh _ (draw-eq crypto.base64 p.state refresh c.draws)
    ∙ statement_runs (insert_refresh_token (new_refresh_token cfg u refresh p.now))
        (record p { state = record p.state { drawn = p.state.drawn + 1 } }) served _ tt _
        (insert_refresh_token-eq (new_refresh_token cfg u refresh p.now) p.now _ c.unused c.exists)
