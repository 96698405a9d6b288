-- ===== src/Identity/Rows.antt =====
-- The rows of users that are sound: a user is the one row with its identifier and the one row with
-- its address.
use incident_garden.Prelude.{
  ◌≡◌, refl, sym, ap, ◌∙◌, inl, inr, Bool, true, false, some, List, [], ◌∷◌, arith, str_eq,
  str_eq_iff, any, find_first, contains, distinct, Bool-cases, ==_iff,
}
use incident_garden.Domain.{Uuid}
use incident_garden.Identity.Users.{User}
use incident_garden.Identity.Repository.{is_user, has_email, email_taken}
use incident_garden.Identity.Sound.{user_ids, distinct_emails}

pub first_is :
    (i : Uuid) (us : List User) {u : User} → find_first (is_user i) us ≡ some u → u.id ≡ i
first_is i [] h = cc
first_is i (v ∷ vs) {u} h = ground (arith, first_is i vs {u = u}, ==_iff v.id i)

any_email :
    (i : Uuid) (us : List User) {u : User}
    → find_first (is_user i) us ≡ some u
    → any (has_email u.email) us ≡ true
any_email i [] h = cc
any_email i (v ∷ vs) {u} h = ground (arith, any_email i vs {u = u}, str_eq_iff v.email u.email)

-- The address of a row that stands further on is not that of the first row.
apart :
    (i : Uuid) (v : User) (vs : List User) {u : User}
    → distinct_emails (v ∷ vs) ≡ true
    → find_first (is_user i) vs ≡ some u
    → str_eq v.email u.email ≡ false
apart i v vs {u} d found =
    ground
      (arith, d, any_email i vs found, str_eq_iff v.email u.email, ap (λ e. any (has_email e) vs))

-- The address of a row finds that row.
pub find_by_email :
    (i : Uuid) (us : List User) {u : User}
    → distinct_emails us ≡ true
    → find_first (is_user i) us ≡ some u
    → find_first (has_email u.email) us ≡ some u
find_by_email i [] d h = cc
find_by_email i (v ∷ vs) {u} d h = elim (Bool-cases (is_user i v)) [
  | inl hit ↦ ground (arith, hit, h, str_eq_iff v.email u.email)
  | inr miss ↦
      let found : find_first (is_user i) vs ≡ some u = ground (arith, miss, h) in
      ground (arith, apart i v vs d found, find_by_email i vs (ground (arith, d)) found)
]

not_taken :
    (u : User) (us : List User) → any (has_email u.email) us ≡ false → email_taken u us ≡ false
not_taken u [] h = refl
not_taken u (v ∷ vs) h = ground (arith, not_taken u vs)

-- No other row has the address of a row.
pub email_taken_self :
    (u : User) (us : List User)
    → distinct_emails us ≡ true
    → find_first (is_user u.id) us ≡ some u
    → email_taken u us ≡ false
email_taken_self u [] d h = cc
email_taken_self u (v ∷ vs) d h = elim (Bool-cases (is_user u.id v)) [
  | inl hit ↦
      let same : v ≡ u = ground (arith, hit, h) in
      let alone : any (has_email u.email) vs ≡ false =
        ap (λ (x : User). any (has_email x.email) vs) (sym same) ∙ ground (arith, d) in
      ground (arith, hit, not_taken u vs alone)
  | inr miss ↦
      let found : find_first (is_user u.id) vs ≡ some u = ground (arith, miss, h) in
      ground (arith, apart u.id v vs d found, email_taken_self u vs (ground (arith, d)) found)
]

-- A row that was found is there under its identifier.
pub any_own :
    (q : User → Bool) (us : List User) {u : User}
    → find_first q us ≡ some u
    → any (is_user u.id) us ≡ true
any_own q [] h = cc
any_own q (v ∷ vs) {u} h =
    ground (arith, any_own q vs {u = u}, ap (λ (x : User). x.id), ==_iff v.id u.id)

own_id :
    (q : User → Bool) (us : List User) {u : User}
    → find_first q us ≡ some u
    → contains u.id (user_ids us) ≡ true
own_id q [] h = cc
own_id q (v ∷ vs) {u} h =
    ground (arith, own_id q vs {u = u}, ap (λ (x : User). x.id), ==_iff u.id v.id)

-- A row that was found is the one with its identifier.
pub find_by_id :
    (q : User → Bool) (us : List User) {u : User}
    → distinct (user_ids us) ≡ true
    → find_first q us ≡ some u
    → find_first (is_user u.id) us ≡ some u
find_by_id q [] d h = cc
find_by_id q (v ∷ vs) {u} d h = elim (Bool-cases (q v)) [
  | inl hit ↦
      let same : v ≡ u = ground (arith, hit, h) in
      let own : is_user u.id v ≡ true =
        ap (λ (x : User). is_user x.id v) (sym same) ∙ ground arith in
      rw own (ap some same)
  | inr miss ↦
      let found : find_first q vs ≡ some u = ground (arith, miss, h) in
      let other : is_user u.id v ≡ false =
        ground
          (arith, d, own_id q vs found, ==_iff v.id u.id, ap (λ i. contains i (user_ids vs))) in
      rw other (find_by_id q vs (ground (arith, d)) found)
]
