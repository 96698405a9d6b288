-- ===== src/Identity/Sound.antt =====
-- What the tables of the accounts always satisfy, and that every statement keeps it.
pub mod Emails
pub mod Statements
pub mod Operations
use incident_garden.Prelude.{
  ℕ, ◌≤◌, ◌<◌, ◌+◌, String, ◌≡◌, refl, sym, ap, ◌∙◌, ◌⊎◌, inl, inr, Bool, true, false, ◌&&◌, not,
  Option, none, some, List, [], ◌∷◌, arith, ◌==◌, str_eq, str_eq_iff, any, keep, find_first,
  update_where, contains, distinct, All, Bool-cases, ==_iff, map, if◌then◌else◌,
}
use mathlib.Core.Path.{subst}
use incident_garden.Prelude.Rows.{All-keep, All-update, All-mono, any-update, update-absent}
use incident_garden.Errors.{Result, ok, err}
use incident_garden.Domain.{Uuid, Time}
use incident_garden.Routine.Steps.{IsPreorder}
use incident_garden.Pool.Tables.{StateStep, StateStep-of}
use incident_garden.Identity.Users.{Role, User, StoredToken, Accounts, Mail, is_valid_role}
use incident_garden.Identity.Repository.{
  is_user, has_email, is_token, belongs_to, email_taken, set_user, set_password, as_created,
  insert_user, update_user, update_password, select_user, select_user_by_email,
  insert_refresh_token, select_refresh_token, delete_refresh_token, delete_user_refresh_tokens,
  insert_reset_token, select_reset_token, select_latest_reset_token, delete_user_reset_tokens,
}
use incident_garden.Identity.Jwt.{draw}

abbrev pub user_ids : List User → List Uuid
user_ids = map λ u. u.id

-- No two rows have the same e-mail address.
abbrev pub distinct_emails : List User → Bool
distinct_emails [] = true
distinct_emails (u ∷ us) = not (any (has_email u.email) us) && distinct_emails us

-- Every token belongs to a user.
abbrev pub Owned : List User → List StoredToken → Type 0
Owned us = All λ t. any (is_user t.user_id) us ≡ true

-- No two rows have the same text.
abbrev pub distinct_tokens : List StoredToken → Bool
distinct_tokens [] = true
distinct_tokens (t ∷ ts) = not (any (is_token t.token) ts) && distinct_tokens ts

pub record Sound (s : Accounts) : Type 0 where
  pub keys : distinct (user_ids s.users) ≡ true
  pub below : All (λ u. u.id < s.next_id) s.users
  pub emails : distinct_emails s.users ≡ true
  pub roles : All (λ u. is_valid_role u.role ≡ true) s.users
  pub refresh_owned : Owned s.users s.refresh_tokens
  pub reset_owned : Owned s.users s.reset_tokens
  pub refresh_apart : distinct_tokens s.refresh_tokens ≡ true
  pub reset_apart : distinct_tokens s.reset_tokens ≡ true

pub record KeepsSound (s s' : Accounts) : Type 0 where
  pub keeps : Sound s → Sound s'

pub KeepsSound-IsPreorder : IsPreorder KeepsSound
KeepsSound-IsPreorder = record {
  reflexive = λ s. record { keeps = λ h. h };
  transitive = λ s t u h k. record { keeps = λ a. k.keeps (h.keeps a) };
}

-- New rows.
below_absent : (n : ℕ) (us : List User) → All (λ u. u.id < n) us → contains n (user_ids us) ≡ false
below_absent n [] h = refl
below_absent n (u ∷ us) (h, hs) = ground (arith, below_absent n us hs, ==_iff n u.id)

Owned-cons : (u : User) (us : List User) (ts : List StoredToken) → Owned us ts → Owned (u ∷ us) ts
Owned-cons u us =
    All-mono (λ t. any (is_user t.user_id) us ≡ true) (λ t. any (is_user t.user_id) (u ∷ us) ≡ true)
      λ t h. ground (arith, h)

below_suc : (n : ℕ) (us : List User) → All (λ u. u.id < n) us → All (λ u. u.id < n + 1) us
below_suc n = All-mono (λ u. u.id < n) (λ u. u.id < n + 1) λ u h. omega arith

pub insert_user-Sound : (u : User) → StateStep KeepsSound (insert_user u)
unfolding insert_user
insert_user-Sound u = StateStep-of λ now s.
    elim (Bool-cases (not (any (has_email u.email) s.users) && is_valid_role u.role)) [
      | inl fits ↦ rw fits (record {
        keeps = λ h. record {
          keys = ground (arith, below_absent s.next_id s.users h.below, h.keys);
          below = (omega arith, below_suc s.next_id s.users h.below);
          emails = ground (arith, fits, h.emails);
          roles = (ground (arith, fits), h.roles);
          refresh_owned =
              Owned-cons (as_created s.next_id now u) s.users s.refresh_tokens h.refresh_owned;
          reset_owned =
              Owned-cons (as_created s.next_id now u) s.users s.reset_tokens h.reset_owned;
          refresh_apart = h.refresh_apart;
          reset_apart = h.reset_apart;
        };
      })
      | inr unfit ↦ rw unfit tt
    ]

-- Changed rows.
update_user_ids :
    (p : User → Bool) (f : User → User) (us : List User)
    → ((u : User) → (f u).id ≡ u.id)
    → user_ids (update_where p f us) ≡ user_ids us
update_user_ids p f [] k = refl
update_user_ids p f (u ∷ us) k = elim (Bool-cases (p u)) [
  | inl hit ↦ rw (hit, k u, update_user_ids p f us k) refl
  | inr miss ↦ rw (miss, update_user_ids p f us k) refl
]

Owned-update :
    (p : User → Bool) (f : User → User) (us : List User) (ts : List StoredToken)
    → ((u : User) → (f u).id ≡ u.id)
    → Owned us ts
    → Owned (update_where p f us) ts
Owned-update p f us ts k =
    All-mono (λ t. any (is_user t.user_id) us ≡ true)
      (λ t. any (is_user t.user_id) (update_where p f us) ≡ true)
      (λ t h. any-update (is_user t.user_id) p f us (λ u. ap (λ i. i == t.user_id) (k u)) ∙ h) ts

-- An update of rows that keeps identifiers, and whose new rows are as they have to be.
update_rows-Sound :
    (s : Accounts) (p : User → Bool) (f : User → User)
    → ((u : User) → (f u).id ≡ u.id)
    → ((u : User) → is_valid_role u.role ≡ true → is_valid_role (f u).role ≡ true)
    → distinct_emails (update_where p f s.users) ≡ true
    → Sound s
    → Sound (record s { users = update_where p f s.users })
update_rows-Sound s p f k r d h = record {
  keys = ap distinct (update_user_ids p f s.users k) ∙ h.keys;
  below =
      All-update (λ u. u.id < s.next_id) p f s.users
        (λ u b. subst (λ i. i < s.next_id) (sym (k u)) b) h.below;
  emails = d;
  roles = All-update (λ u. is_valid_role u.role ≡ true) p f s.users r h.roles;
  refresh_owned = Owned-update p f s.users s.refresh_tokens k h.refresh_owned;
  reset_owned = Owned-update p f s.users s.reset_tokens k h.reset_owned;
  refresh_apart = h.refresh_apart;
  reset_apart = h.reset_apart;
}

distinct_emails-password :
    (i : Uuid) (hash : String) (now : Time) (us : List User)
    → distinct_emails (update_where (is_user i) (set_password hash now) us) ≡ distinct_emails us
distinct_emails-password i hash now [] = refl
distinct_emails-password i hash now (u ∷ us) =
    let others =
      any-update (has_email u.email) (is_user i) (set_password hash now) us (λ v. refl) in
    elim (Bool-cases (is_user i u)) [
      | inl hit ↦ rw (hit, others, distinct_emails-password i hash now us) refl
      | inr miss ↦ rw (miss, others, distinct_emails-password i hash now us) refl
    ]

pub update_password-Sound :
    (i : Uuid) (hash : String) → StateStep KeepsSound (update_password i hash)
unfolding update_password
update_password-Sound i hash = StateStep-of λ now s. elim (Bool-cases (any (is_user i) s.users)) [
  | inl there ↦ rw there (record {
    keeps = λ h.
        update_rows-Sound s (is_user i) (set_password hash now) (λ u. refl) (λ u r. r)
          (distinct_emails-password i hash now s.users ∙ h.emails) h;
  })
  | inr missing ↦ rw missing tt
]
