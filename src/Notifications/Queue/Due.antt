-- ===== src/Notifications/Queue/Due.antt =====
-- What `FetchPendingNotifications` takes from a queue whose identifiers are distinct, as the
-- primary key demands.
use incident_garden.Prelude.{
  ℕ, zero, suc, ◌≡◌, refl, inl, inr, Bool, true, false, ◌||◌, List, [], ◌∷◌, arith, leb, ◌==◌, keep,
  contains, distinct, All, Bool-cases, ==_iff,
}
use incident_garden.Domain.{Uuid, Time}
use incident_garden.Notifications.Queue.{QueueItem}
use incident_garden.Notifications.Queue.Fetch.{
  is_due, insert_by_time, sort_by_time, take, select_due, item_ids,
}

module _ (P : QueueItem → Type 0) where
  All-insert : (x : QueueItem) (xs : List QueueItem) → P x → All P xs → All P (insert_by_time x xs)
  unfolding insert_by_time
  All-insert x [] p ps = (p, tt)
  All-insert x (y ∷ ys) p (q, qs) = elim (Bool-cases (leb x.next_attempt_at y.next_attempt_at)) [
    | inl first ↦ rw first (p, (q, qs))
    | inr later ↦ rw later (q, All-insert x ys p qs)
  ]

  All-sort : (xs : List QueueItem) → All P xs → All P (sort_by_time xs)
  unfolding sort_by_time
  All-sort [] ps = tt
  All-sort (x ∷ xs) (p, ps) = All-insert x (sort_by_time xs) p (All-sort xs ps)

  All-take : (n : ℕ) (xs : List QueueItem) → All P xs → All P (take n xs)
  unfolding take
  All-take zero xs ps = tt
  All-take (suc n) [] ps = tt
  All-take (suc n) (x ∷ xs) (p, ps) = (p, All-take n xs ps)

  All-keep :
      (p : QueueItem → Bool) (xs : List QueueItem)
      → All P xs
      → All (λ x. P x × (p x ≡ true)) (keep p xs)
  All-keep p [] ps = tt
  All-keep p (x ∷ xs) (q, qs) = elim (Bool-cases (p x)) [
    | inl hit ↦ rw hit ((q, hit), All-keep p xs qs)
    | inr miss ↦ rw miss (All-keep p xs qs)
  ]

-- What holds of every row holds of every row that is taken, and each of these is due.
pub All-select_due :
    (P : QueueItem → Type 0) (limit : ℕ) (now : Time) (q : List QueueItem)
    → All P q
    → All (λ x. P x × (is_due now x ≡ true)) (select_due limit now q)
unfolding select_due
All-select_due P limit now q ps =
    let Q : QueueItem → Type 0 = λ x. P x × (is_due now x ≡ true) in
    All-take Q limit (sort_by_time (keep (is_due now) q))
      (All-sort Q (keep (is_due now) q) (All-keep P (is_due now) q ps))

contains-insert :
    (i : Uuid) (x : QueueItem) (xs : List QueueItem)
    → contains i (item_ids (insert_by_time x xs)) ≡ (i == x.id || contains i (item_ids xs))
unfolding insert_by_time
contains-insert i x [] = refl
contains-insert i x (y ∷ ys) =
    ground (arith, contains-insert i x ys, Bool-cases (leb x.next_attempt_at y.next_attempt_at))

distinct-insert :
    (x : QueueItem) (xs : List QueueItem)
    → contains x.id (item_ids xs) ≡ false
    → distinct (item_ids xs) ≡ true
    → distinct (item_ids (insert_by_time x xs)) ≡ true
unfolding insert_by_time
distinct-insert x [] h d = refl
distinct-insert x (y ∷ ys) h d = ground (
  arith,
  distinct-insert x ys,
  contains-insert y.id x ys,
  ==_iff x.id y.id,
  ==_iff y.id x.id,
  Bool-cases (leb x.next_attempt_at y.next_attempt_at),
)

contains-sort :
    (i : Uuid) (xs : List QueueItem)
    → contains i (item_ids (sort_by_time xs)) ≡ contains i (item_ids xs)
unfolding sort_by_time
contains-sort i [] = refl
contains-sort i (x ∷ xs) = ground (arith, contains-insert i x (sort_by_time xs), contains-sort i xs)

distinct-sort :
    (xs : List QueueItem)
    → distinct (item_ids xs) ≡ true
    → distinct (item_ids (sort_by_time xs)) ≡ true
unfolding sort_by_time
distinct-sort [] d = refl
distinct-sort (x ∷ xs) d =
    distinct-insert x (sort_by_time xs) (ground (arith, contains-sort x.id xs))
      (distinct-sort xs (ground arith))

contains-take :
    (i : Uuid) (n : ℕ) (xs : List QueueItem)
    → contains i (item_ids xs) ≡ false
    → contains i (item_ids (take n xs)) ≡ false
unfolding take
contains-take i zero xs h = refl
contains-take i (suc n) [] h = refl
contains-take i (suc n) (x ∷ xs) h = ground (arith, contains-take i n xs)

distinct-take :
    (n : ℕ) (xs : List QueueItem)
    → distinct (item_ids xs) ≡ true
    → distinct (item_ids (take n xs)) ≡ true
unfolding take
distinct-take zero xs d = refl
distinct-take (suc n) [] d = refl
distinct-take (suc n) (x ∷ xs) d = ground (arith, contains-take x.id n xs, distinct-take n xs)

contains-keep :
    (i : Uuid) (p : QueueItem → Bool) (xs : List QueueItem)
    → contains i (item_ids xs) ≡ false
    → contains i (item_ids (keep p xs)) ≡ false
contains-keep i p [] h = refl
contains-keep i p (x ∷ xs) h = ground (arith, contains-keep i p xs, Bool-cases (p x))

distinct-keep :
    (p : QueueItem → Bool) (xs : List QueueItem)
    → distinct (item_ids xs) ≡ true
    → distinct (item_ids (keep p xs)) ≡ true
distinct-keep p [] d = refl
distinct-keep p (x ∷ xs) d =
    ground (arith, contains-keep x.id p xs, distinct-keep p xs, Bool-cases (p x))

-- No item is taken twice.
pub distinct-select_due :
    (limit : ℕ) (now : Time) (q : List QueueItem)
    → distinct (item_ids q) ≡ true
    → distinct (item_ids (select_due limit now q)) ≡ true
unfolding select_due
distinct-select_due limit now q d =
    distinct-take limit (sort_by_time (keep (is_due now) q))
      (distinct-sort (keep (is_due now) q) (distinct-keep (is_due now) q d))
