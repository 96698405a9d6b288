-- ===== src/Identity/Sound/Statements.antt =====
-- The other statements on the accounts, and the calls of the outside.
use incident_garden.Prelude.{
  ℕ, ◌<◌, ◌+◌, String, ◌≡◌, refl, inl, inr, Bool, true, ◌&&◌, not, Option, none, some, List, [],
  ◌∷◌, arith, any, keep, All, Bool-cases,
}
use incident_garden.Prelude.Rows.{All-keep, All-mono, any-keep}
use incident_garden.Errors.{Error}
use incident_garden.Domain.{Uuid}
use incident_garden.Pool.Tables.{OkHolds, StateStep, StateStep-of, CallStep, pool_rules}
use incident_garden.Identity.Users.{User, StoredToken, Accounts, Mail}
use incident_garden.Identity.Repository.{
  one_row, is_user, is_token, belongs_to, select_user, select_user_by_email, insert_refresh_token,
  select_refresh_token, delete_refresh_token, delete_user_refresh_tokens, insert_reset_token,
  select_reset_token, select_latest_reset_token, delete_user_reset_tokens,
}
use incident_garden.Identity.Jwt.{draw}
use incident_garden.Identity.Service.{welcome}
use incident_garden.Identity.Reset.{send_mail}
use incident_garden.Identity.Sound.{
  Sound, KeepsSound, KeepsSound-IsPreorder, Owned, distinct_tokens, insert_user-Sound,
  update_password-Sound,
}
use incident_garden.Identity.Sound.Emails.{update_user-Sound}

-- A query.
one_row-Sound :
    {A : Type 0} (o : Option A) (e : Error) (s : Accounts)
    → OkHolds (λ _ s'. KeepsSound s s') (one_row o e s)
one_row-Sound none e s = tt
one_row-Sound (some a) e s = KeepsSound-IsPreorder.reflexive s

pub select_user-Sound : (i : Uuid) → StateStep KeepsSound (select_user i)
unfolding select_user
select_user-Sound i = StateStep-of λ now s. one_row-Sound _ _ s

pub select_user_by_email-Sound : (e : String) → StateStep KeepsSound (select_user_by_email e)
unfolding select_user_by_email
select_user_by_email-Sound e = StateStep-of λ now s. one_row-Sound _ _ s

pub select_refresh_token-Sound : (t : String) → StateStep KeepsSound (select_refresh_token t)
unfolding select_refresh_token
select_refresh_token-Sound t = StateStep-of λ now s. one_row-Sound _ _ s

pub select_reset_token-Sound : (t : String) → StateStep KeepsSound (select_reset_token t)
unfolding select_reset_token
select_reset_token-Sound t = StateStep-of λ now s. one_row-Sound _ _ s

pub select_latest_reset_token-Sound :
    (i : Uuid) → StateStep KeepsSound (select_latest_reset_token i)
unfolding select_latest_reset_token
select_latest_reset_token-Sound i = StateStep-of λ now s. KeepsSound-IsPreorder.reflexive s

-- New tokens.
module _ (t : StoredToken) where
  below_next :
      (s : Accounts) → All (λ u. u.id < s.next_id) s.users → All (λ u. u.id < s.next_id + 1) s.users
  below_next s =
      All-mono (λ u. u.id < s.next_id) (λ u. u.id < s.next_id + 1) (λ u h. omega arith) s.users

  pub insert_refresh_token-Sound : StateStep KeepsSound (insert_refresh_token t)
  unfolding insert_refresh_token
  insert_refresh_token-Sound = StateStep-of λ now s.
      elim (Bool-cases
        (not (any (is_token t.token) s.refresh_tokens) && any (is_user t.user_id) s.users)) [
          | inl fits ↦ rw fits (record {
            keeps = λ h. record {
              keys = h.keys;
              below = below_next s h.below;
              emails = h.emails;
              roles = h.roles;
              refresh_owned = (ground (arith, fits), h.refresh_owned);
              reset_owned = h.reset_owned;
              refresh_apart = ground (arith, fits, h.refresh_apart);
              reset_apart = h.reset_apart;
            };
          })
          | inr unfit ↦ rw unfit tt
        ]

  pub insert_reset_token-Sound : StateStep KeepsSound (insert_reset_token t)
  unfolding insert_reset_token
  insert_reset_token-Sound = StateStep-of λ now s.
      elim (Bool-cases
        (not (any (is_token t.token) s.reset_tokens) && any (is_user t.user_id) s.users)) [
          | inl fits ↦ rw fits (record {
            keeps = λ h. record {
              keys = h.keys;
              below = below_next s h.below;
              emails = h.emails;
              roles = h.roles;
              refresh_owned = h.refresh_owned;
              reset_owned = (ground (arith, fits), h.reset_owned);
              refresh_apart = h.refresh_apart;
              reset_apart = ground (arith, fits, h.reset_apart);
            };
          })
          | inr unfit ↦ rw unfit tt
        ]

-- Fewer tokens.
distinct_tokens-keep :
    (p : StoredToken → Bool) (ts : List StoredToken)
    → distinct_tokens ts ≡ true
    → distinct_tokens (keep p ts) ≡ true
distinct_tokens-keep p [] h = refl
distinct_tokens-keep p (t ∷ ts) h =
    ground (arith, any-keep (is_token t.token) p ts, distinct_tokens-keep p ts, Bool-cases (p t))

fewer_refresh :
    (p : StoredToken → Bool) (s : Accounts)
    → KeepsSound s (record s { refresh_tokens = keep p s.refresh_tokens })
fewer_refresh p s = record {
  keeps = λ h. record {
    keys = h.keys;
    below = h.below;
    emails = h.emails;
    roles = h.roles;
    refresh_owned =
        All-keep (λ t. any (is_user t.user_id) s.users ≡ true) p s.refresh_tokens h.refresh_owned;
    reset_owned = h.reset_owned;
    refresh_apart = distinct_tokens-keep p s.refresh_tokens h.refresh_apart;
    reset_apart = h.reset_apart;
  };
}

fewer_reset :
    (p : StoredToken → Bool) (s : Accounts)
    → KeepsSound s (record s { reset_tokens = keep p s.reset_tokens })
fewer_reset p s = record {
  keeps = λ h. record {
    keys = h.keys;
    below = h.below;
    emails = h.emails;
    roles = h.roles;
    refresh_owned = h.refresh_owned;
    reset_owned =
        All-keep (λ t. any (is_user t.user_id) s.users ≡ true) p s.reset_tokens h.reset_owned;
    refresh_apart = h.refresh_apart;
    reset_apart = distinct_tokens-keep p s.reset_tokens h.reset_apart;
  };
}

pub delete_refresh_token-Sound : (t : String) → StateStep KeepsSound (delete_refresh_token t)
unfolding delete_refresh_token
delete_refresh_token-Sound t = StateStep-of λ now s. fewer_refresh (λ row. not (is_token t row)) s

pub delete_user_refresh_tokens-Sound :
    (i : Uuid) → StateStep KeepsSound (delete_user_refresh_tokens i)
unfolding delete_user_refresh_tokens
delete_user_refresh_tokens-Sound i =
    StateStep-of λ now s. fewer_refresh (λ row. not (belongs_to i row)) s

pub delete_user_reset_tokens-Sound : (i : Uuid) → StateStep KeepsSound (delete_user_reset_tokens i)
unfolding delete_user_reset_tokens
delete_user_reset_tokens-Sound i =
    StateStep-of λ now s. fewer_reset (λ row. not (belongs_to i row)) s

-- Calls change no table.
untouched :
    (f : Accounts → Accounts) (s : Accounts)
    → (f s).users ≡ s.users
    → (f s).next_id ≡ s.next_id
    → (f s).refresh_tokens ≡ s.refresh_tokens
    → (f s).reset_tokens ≡ s.reset_tokens
    → KeepsSound s (f s)
untouched f s a b c d = record {
  keeps = λ h. record {
    keys = rw a h.keys;
    below = rw (a, b) h.below;
    emails = rw a h.emails;
    roles = rw a h.roles;
    refresh_owned = rw (a, c) h.refresh_owned;
    reset_owned = rw (a, d) h.reset_owned;
    refresh_apart = rw c h.refresh_apart;
    reset_apart = rw d h.reset_apart;
  };
}

pub draw-Sound : (f : ℕ → Option String) → CallStep KeepsSound (draw f)
unfolding draw
draw-Sound f = record {
  at = λ s. untouched (λ t. record t { drawn = t.drawn + 1 }) s refl refl refl refl;
}

pub welcome-Sound : (u : User) → CallStep KeepsSound (welcome u)
welcome-Sound u = record {
  at = λ s. untouched (λ t. record t { welcomed = u ∷ t.welcomed }) s refl refl refl refl;
}

pub send_mail-Sound : (m : Mail) → CallStep KeepsSound (send_mail m)
send_mail-Sound m = record {
  at = λ s. untouched (λ t. record t { mails = m ∷ t.mails }) s refl refl refl refl;
}

pub ruleset sound_rules = (
  pool_rules, KeepsSound-IsPreorder, insert_user-Sound, update_password-Sound, update_user-Sound,
  select_user-Sound, select_user_by_email-Sound, select_refresh_token-Sound,
  select_reset_token-Sound, select_latest_reset_token-Sound, insert_refresh_token-Sound,
  insert_reset_token-Sound, delete_refresh_token-Sound, delete_user_refresh_tokens-Sound,
  delete_user_reset_tokens-Sound, draw-Sound, welcome-Sound, send_mail-Sound,
)
