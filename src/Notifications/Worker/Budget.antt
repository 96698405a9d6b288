-- ===== src/Notifications/Worker/Budget.antt =====
-- How often the senders are called: a bound that no schedule of the worker passes.
use incident_garden.Prelude.{
  ℕ, suc, String, ◌+◌, ◌-◌, ◌≤◌, ◌≡◌, refl, ap, ◌∙◌, ◌⊎◌, inl, inr, Bool, true, false, ◌&&◌, ◌||◌,
  not, List, [], ◌∷◌, ◌++◌, arith, ◌==◌, if◌then◌else◌, any, all, update_where, length, contains,
  distinct, All, Bool-cases, ==_iff,
}
use incident_garden.Domain.{Uuid, Time}
use incident_garden.Notifications.Payload.{Notification}
use incident_garden.Notifications.Queue.{
  QueueItem, Mail, is_item, is_pending, is_processing, as_sent, as_failed, for_retry,
}
use incident_garden.Notifications.Queue.Fetch.{item_ids}
use incident_garden.Notifications.Queue.Effects.{refusals}
use incident_garden.Notifications.Worker.{Worker, process_item, process_items}
use incident_garden.Notifications.Worker.Outcome.{
  Change, unmarked, delivered, given_up, retried, process_item-Processes,
}

-- The sends that a row may still cost: none once it is sent or failed, else one now and those that
-- the limit leaves after it.
unfoldable pub remaining : QueueItem → ℕ
unfolding is_pending is_processing
remaining row =
    if is_pending row.status || is_processing row.status
    then suc (row.max_attempts - (row.attempts + 1))
    else 0

unfoldable pub load : List QueueItem → ℕ
unfolding remaining
load [] = 0
load (row ∷ rows) = remaining row + load rows

-- The row of an item is in processing, with the attempts that the item was fetched with.
abbrev pub fresh : QueueItem → QueueItem → Bool
fresh item row =
    not (is_item item.id row)
    || (is_processing row.status
        && row.attempts == item.attempts
        && row.max_attempts == item.max_attempts)

remaining-as_sent : (now : Time) (row : QueueItem) → remaining (as_sent now row) ≡ 0
unfolding remaining as_sent is_pending is_processing
remaining-as_sent now row = refl

remaining-as_failed :
    (reason : String) (now : Time) (row : QueueItem) → remaining (as_failed reason now row) ≡ 0
unfolding remaining as_failed is_pending is_processing
remaining-as_failed reason now row = refl

remaining-for_retry :
    (reason : String) (next now : Time) (row : QueueItem)
    → remaining (for_retry reason next now row) ≡ suc (row.max_attempts - (row.attempts + 1 + 1))
unfolding remaining for_retry is_pending is_processing
remaining-for_retry reason next now row = refl

remaining-processing :
    (row : QueueItem)
    → is_processing row.status ≡ true
    → remaining row ≡ suc (row.max_attempts - (row.attempts + 1))
unfolding remaining
remaining-processing row h = ground (arith, h)

module _ {F : Type 0} (w : Worker F) (item : QueueItem) (m : Mail) where
  -- A change costs the row at least one of its sends.
  remaining-Change :
      (f : QueueItem → QueueItem) (row : QueueItem)
      → Change w item m f
      → refusals m.faults ≡ false
      → is_processing row.status ≡ true
      → row.attempts ≡ item.attempts
      → row.max_attempts ≡ item.max_attempts
      → suc (remaining (f row)) ≤ remaining row
  remaining-Change _ row (unmarked r) q p a x = cc
  remaining-Change _ row delivered q p a x =
      rw (remaining-as_sent m.now row, remaining-processing row p) (omega arith)
  remaining-Change _ row (given_up reason) q p a x =
      rw (remaining-as_failed reason m.now row, remaining-processing row p) (omega arith)
  remaining-Change _ row (retried reason under) q p a x =
      rw (remaining-for_retry reason _ m.now row, remaining-processing row p) (omega arith)

fresh_fields :
    (item row : QueueItem)
    → fresh item row ≡ true
    → is_item item.id row ≡ true
    → (is_processing row.status ≡ true)
      × (row.attempts ≡ item.attempts)
      × (row.max_attempts ≡ item.max_attempts)
fresh_fields item row h k = (
  ground arith,
  ground (arith, ==_iff row.attempts item.attempts),
  ground (arith, ==_iff row.max_attempts item.max_attempts),
)

module _ {F : Type 0} (w : Worker F) (item : QueueItem) (m : Mail) where
  remaining-fresh :
      (f : QueueItem → QueueItem) (row : QueueItem)
      → Change w item m f
      → refusals m.faults ≡ false
      → fresh item row ≡ true
      → is_item item.id row ≡ true
      → suc (remaining (f row)) ≤ remaining row
  remaining-fresh f row c q h k =
      let (p, a, x) = fresh_fields item row h k in remaining-Change w item m f row c q p a x

  load-Change :
      (f : QueueItem → QueueItem) (q : List QueueItem)
      → Change w item m f
      → refusals m.faults ≡ false
      → all (fresh item) q ≡ true
      → load (update_where (is_item item.id) f q) ≤ load q
  unfolding load
  load-Change f [] c u h = omega arith
  load-Change f (x ∷ xs) c u h =
      let rest = load-Change f xs c u (ground (arith, h)) in
      elim (Bool-cases (is_item item.id x)) [
        | inl hit ↦
            let less = remaining-fresh f x c u (ground (arith, h)) hit in rw hit (omega arith)
        | inr miss ↦ rw miss (omega arith)
      ]

  load-Change_less :
      (f : QueueItem → QueueItem) (q : List QueueItem)
      → Change w item m f
      → refusals m.faults ≡ false
      → all (fresh item) q ≡ true
      → any (is_item item.id) q ≡ true
      → suc (load (update_where (is_item item.id) f q)) ≤ load q
  unfolding load
  load-Change_less f [] c u h k = cc
  load-Change_less f (x ∷ xs) c u h k = elim (Bool-cases (is_item item.id x)) [
    | inl hit ↦
        let rest = load-Change f xs c u (ground (arith, h)) in
        let less = remaining-fresh f x c u (ground (arith, h)) hit in rw hit (omega arith)
    | inr miss ↦
        let rest = load-Change_less f xs c u (ground (arith, h)) (ground (arith, k, miss)) in
        rw miss (omega arith)
  ]

  pub Change-id :
      (f : QueueItem → QueueItem) (row : QueueItem) → Change w item m f → (f row).id ≡ row.id
  unfolding as_sent as_failed for_retry
  Change-id _ row (unmarked r) = refl
  Change-id _ row delivered = refl
  Change-id _ row (given_up reason) = refl
  Change-id _ row (retried reason under) = refl

  -- The other items' rows are as they were.
  fresh-Change :
      (other : QueueItem) (f : QueueItem → QueueItem) (q : List QueueItem)
      → Change w item m f
      → (other.id == item.id) ≡ false
      → all (fresh other) q ≡ true
      → all (fresh other) (update_where (is_item item.id) f q) ≡ true
  fresh-Change other f [] c d h = refl
  fresh-Change other f (x ∷ xs) c d h =
      let rest = fresh-Change other f xs c d (ground (arith, h)) in
      ground (
        arith,
        rest,
        Change-id f x c,
        ==_iff x.id item.id,
        ==_iff x.id other.id,
        ==_iff other.id item.id,
        Bool-cases (is_item item.id x),
      )

  any-Change :
      (i : Uuid) (f : QueueItem → QueueItem) (q : List QueueItem)
      → Change w item m f
      → any (is_item i) (update_where (is_item item.id) f q) ≡ any (is_item i) q
  any-Change i f [] c = refl
  any-Change i f (x ∷ xs) c =
      ground (arith, any-Change i f xs c, Change-id f x c, Bool-cases (is_item item.id x))

length-snoc : (n : Notification) (xs : List Notification) → length (xs ++ n ∷ []) ≡ suc (length xs)
length-snoc n [] = refl
length-snoc n (x ∷ xs) = ground (arith, length-snoc n xs)

calls_after :
    (m m' : Mail)
    → (m'.calls ≡ m.calls) ⊎ ((n : Notification) × (m'.calls ≡ m.calls ++ n ∷ []))
    → length m'.calls ≤ suc (length m.calls)
calls_after m m' (inl h) = rw h (omega arith)
calls_after m m' (inr (n, h)) = rw (h, length-snoc n m.calls) (omega arith)

-- The items of a batch have rows of their own, in processing.
abbrev pub Ready : List QueueItem → List QueueItem → Type 0
Ready q = All λ item. (all (fresh item) q ≡ true) × (any (is_item item.id) q ≡ true)

-- A run without refusals pays for each call of a sender with a send that its row had left, and
-- handles every item at the price of at least one.
pub record Pays (n : ℕ) (m m' : Mail) : Type 0 where
  pub paid : length m'.calls + load m'.queue ≤ length m.calls + load m.queue
  pub less : load m'.queue + n ≤ load m.queue
  pub served : refusals m'.faults ≡ false

module _ {F : Type 0} (w : Worker F) where
  process_item-Pays :
      (item : QueueItem) (m : Mail)
      → refusals m.faults ≡ false
      → all (fresh item) m.queue ≡ true
      → any (is_item item.id) m.queue ≡ true
      → Pays 1 m (process_item w item m)
  process_item-Pays item m u h k =
      let p = process_item-Processes w item m in
      let less = load-Change_less w item m p.change m.queue p.becomes u h k in
      let called = calls_after m (process_item w item m) p.called in
      record {
        paid = rw p.queue (omega arith);
        less = rw p.queue (omega arith);
        served = ground (arith, p.fewer, Bool-cases (refusals (process_item w item m).faults));
      }

  Ready-rest :
      (item : QueueItem) (items : List QueueItem) (m : Mail)
      → contains item.id (item_ids items) ≡ false
      → Ready m.queue items
      → Ready (process_item w item m).queue items
  Ready-rest item [] m d r = tt
  Ready-rest item (x ∷ xs) m d (r, rs) =
      let p = process_item-Processes w item m in
      let apart : (x.id == item.id) ≡ false =
        ground (arith, d, ==_iff x.id item.id, ==_iff item.id x.id) in
      (
        (
          ap (all (fresh x)) p.queue ∙ fresh-Change w item m x p.change m.queue p.becomes apart r.0,
          ap (any (is_item x.id)) p.queue
              ∙ any-Change w item m x.id p.change m.queue p.becomes
              ∙ r.1,
        ),
        Ready-rest item xs m (ground (arith, d)) rs,
      )

  pub process_items-Pays :
      (items : List QueueItem) (m : Mail)
      → refusals m.faults ≡ false
      → distinct (item_ids items) ≡ true
      → Ready m.queue items
      → Pays (length items) m (process_items w items m)
  unfolding process_items
  process_items-Pays [] m u d r = record { paid = omega arith; less = omega arith; served = u }
  process_items-Pays (item ∷ items) m u d (r, rs) =
      let first = process_item-Pays item m u r.0 r.1 in
      let rest =
        process_items-Pays items (process_item w item m) first.served (ground (arith, d))
          (Ready-rest item items m (ground (arith, d)) rs) in
      record {
        paid = omega (arith, first.paid, rest.paid);
        less = omega (arith, first.less, rest.less);
        served = rest.served;
      }
