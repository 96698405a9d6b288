-- ===== src/Identity/Sound/Emails.antt =====
-- `UpdateUser` keeps the e-mail addresses apart: it changes one row, and no other has the address.
use incident_garden.Prelude.{
  String, ◌≡◌, refl, inl, inr, true, false, ◌&&◌, not, List, [], ◌∷◌, arith, str_eq, str_eq_iff,
  any, update_where, contains, distinct, Bool-cases, ==_iff,
}
use incident_garden.Prelude.Rows.{update-absent}
use incident_garden.Domain.{Uuid, Time}
use incident_garden.Pool.Tables.{StateStep, StateStep-of}
use incident_garden.Identity.Users.{User, is_valid_role}
use incident_garden.Identity.Repository.{is_user, has_email, email_taken, set_user, update_user}
use incident_garden.Identity.Sound.{KeepsSound, user_ids, distinct_emails, update_rows-Sound}

any_id : (i : Uuid) (us : List User) → contains i (user_ids us) ≡ false → any (is_user i) us ≡ false
any_id i [] h = refl
any_id i (u ∷ us) h = ground (arith, any_id i us, ==_iff i u.id, ==_iff u.id i)

-- Where no row has the identifier, taken means taken by any row.
taken_any :
    (u : User) (us : List User)
    → any (is_user u.id) us ≡ false
    → email_taken u us ≡ false
    → any (has_email u.email) us ≡ false
taken_any u [] h k = refl
taken_any u (v ∷ vs) h k = ground (arith, taken_any u vs)

-- An address that neither the rows nor the update have.
any-update-other :
    (u : User) (now : Time) (e : String) (us : List User)
    → str_eq u.email e ≡ false
    → any (has_email e) us ≡ false
    → any (has_email e) (update_where (is_user u.id) (set_user u now) us) ≡ false
any-update-other u now e [] d h = refl
any-update-other u now e (v ∷ vs) d h = elim (Bool-cases (is_user u.id v)) [
  | inl hit ↦ rw hit (ground (arith, d, h, any-update-other u now e vs d))
  | inr miss ↦ rw miss (ground (arith, h, any-update-other u now e vs d))
]

distinct_emails-update :
    (u : User) (now : Time) (us : List User)
    → distinct (user_ids us) ≡ true
    → distinct_emails us ≡ true
    → email_taken u us ≡ false
    → distinct_emails (update_where (is_user u.id) (set_user u now) us) ≡ true
distinct_emails-update u now [] k d t = refl
distinct_emails-update u now (v ∷ vs) k d t = elim (Bool-cases (is_user u.id v)) [
  | inl hit ↦
      let alone : any (is_user u.id) vs ≡ false =
        any_id u.id vs (ground (arith, hit, k, ==_iff v.id u.id)) in
      rw (hit, update-absent (is_user u.id) (set_user u now) vs alone)
        (ground (arith, d, taken_any u vs alone (ground (arith, t))))
  | inr miss ↦
      let apart : str_eq u.email v.email ≡ false =
        ground (arith, miss, t, str_eq_iff u.email v.email, str_eq_iff v.email u.email) in
      rw miss (
        ground (
          arith,
          d,
          any-update-other u now v.email vs apart,
          distinct_emails-update u now vs (ground (arith, k)) (ground (arith, d))
              (ground (arith, t)),
        ))
]

pub update_user-Sound : (u : User) → StateStep KeepsSound (update_user u)
unfolding update_user
update_user-Sound u = StateStep-of λ now s. elim (Bool-cases (any (is_user u.id) s.users)) [
  | inl there ↦ elim (Bool-cases (not (email_taken u s.users) && is_valid_role u.role)) [
    | inl fits ↦
        rw (there, fits)
          (record {
            keeps = λ h.
                update_rows-Sound s (is_user u.id) (set_user u now) (λ v. refl)
                  (λ v r. ground (arith, fits))
                  (distinct_emails-update u now s.users h.keys h.emails (ground (arith, fits))) h;
          })
    | inr unfit ↦ rw (there, unfit) tt
  ]
  | inr missing ↦ rw missing tt
]
