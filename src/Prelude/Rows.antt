-- ===== src/Prelude/Rows.antt =====
-- What holds of every row, and what the operations on lists of rows keep.
use mathlib.Core.Path.{◌≡◌, refl, subst}
use mathlib.Core.Logic.{inl, inr}
use mathlib.Core.Bool.{Bool, true, false, not}
use mathlib.Core.List.{List, [], ◌∷◌}
use mathlib.Core.Option.{none, some}
use native.Mathlib.Omega.{arith}
use incident_garden.Prelude.Tests.{Bool-cases}
use incident_garden.Prelude.Lists.{All, any, keep, update_where, find_first}

module _ {ℓ κ} {A : Type ℓ} (P : A → Type κ) where
  pub All-keep : (p : A → Bool) (xs : List A) → All P xs → All P (keep p xs)
  All-keep p [] h = tt
  All-keep p (x ∷ xs) (h, hs) = elim (Bool-cases (p x)) [
    | inl hit ↦ rw hit (h, All-keep p xs hs)
    | inr miss ↦ rw miss (All-keep p xs hs)
  ]

  pub All-update :
      (p : A → Bool) (f : A → A) (xs : List A)
      → ((x : A) → P x → P (f x))
      → All P xs
      → All P (update_where p f xs)
  All-update p f [] k h = tt
  All-update p f (x ∷ xs) k (h, hs) = elim (Bool-cases (p x)) [
    | inl hit ↦ rw hit (k x h, All-update p f xs k hs)
    | inr miss ↦ rw miss (h, All-update p f xs k hs)
  ]

  -- The first row that a test accepts is one of them.
  pub All-find_first :
      (p : A → Bool) (xs : List A) {x : A}
      → All P xs
      → find_first p xs ≡ some x
      → P x × (p x ≡ true)
  All-find_first p [] h e = cc
  All-find_first p (y ∷ ys) {x} (h, hs) e = elim (Bool-cases (p y)) [
    | inl hit ↦
        let same : y ≡ x = ground (arith, hit, e) in
        (subst P same h, subst (λ z. p z ≡ true) same hit)
    | inr miss ↦ All-find_first p ys hs (ground (arith, miss, e))
  ]

module _ {ℓ κ κ'} {A : Type ℓ} (P : A → Type κ) (Q : A → Type κ') where
  pub All-mono : ((x : A) → P x → Q x) → (xs : List A) → All P xs → All Q xs
  All-mono k [] h = tt
  All-mono k (x ∷ xs) (h, hs) = (k x h, All-mono k xs hs)

module _ {ℓ} {A : Type ℓ} where
  -- A test that an update does not change.
  pub any-update :
      (q p : A → Bool) (f : A → A) (xs : List A)
      → ((x : A) → q (f x) ≡ q x)
      → any q (update_where p f xs) ≡ any q xs
  any-update q p f [] k = refl
  any-update q p f (x ∷ xs) k = elim (Bool-cases (p x)) [
    | inl hit ↦ rw (hit, k x, any-update q p f xs k) refl
    | inr miss ↦ rw (miss, any-update q p f xs k) refl
  ]

  -- No row that a test accepts, no update.
  pub update-absent :
      (p : A → Bool) (f : A → A) (xs : List A) → any p xs ≡ false → update_where p f xs ≡ xs
  update-absent p f [] h = refl
  update-absent p f (x ∷ xs) h = ground (arith, update-absent p f xs)

  pub find_first-update :
      (p : A → Bool) (f : A → A) (xs : List A) {x : A}
      → ((y : A) → p y ≡ true → p (f y) ≡ true)
      → find_first p xs ≡ some x
      → find_first p (update_where p f xs) ≡ some (f x)
  find_first-update p f [] k h = cc
  find_first-update p f (y ∷ ys) {x} k h = elim (Bool-cases (p y)) [
    | inl hit ↦ rw (hit, k y hit) (ground (arith, hit, h))
    | inr miss ↦ rw (miss, miss) (find_first-update p f ys k (ground (arith, miss, h)))
  ]

  pub any_of_find :
      (p : A → Bool) (xs : List A) {x : A} → find_first p xs ≡ some x → any p xs ≡ true
  any_of_find p [] h = cc
  any_of_find p (y ∷ ys) {x} h = ground (arith, any_of_find p ys {x = x})

  pub find-keep-not :
      (p q : A → Bool) (xs : List A)
      → ((x : A) → q x ≡ true → p x ≡ true)
      → find_first q (keep (λ x. not (p x)) xs) ≡ none
  find-keep-not p q [] k = refl
  find-keep-not p q (x ∷ xs) k = elim (Bool-cases (p x)) [
    | inl hit ↦ rw hit (find-keep-not p q xs k)
    | inr miss ↦ elim (Bool-cases (q x)) [
      | inl found ↦ absurd (ground (arith, k x found, miss))
      | inr other ↦ rw (miss, other) (find-keep-not p q xs k)
    ]
  ]

  pub any-keep : (q p : A → Bool) (xs : List A) → any q xs ≡ false → any q (keep p xs) ≡ false
  any-keep q p [] h = refl
  any-keep q p (x ∷ xs) h = ground (arith, any-keep q p xs, Bool-cases (p x))
