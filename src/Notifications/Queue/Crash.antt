-- ===== src/Notifications/Queue/Crash.antt =====
-- What becomes of the items that a worker has fetched when it crashes before it marks them: a later
-- `RecoverStuckProcessing` of internal/notifications/postgres/repository.go.
use incident_garden.Prelude.{
  ℕ, ◌+◌, ◌≡◌, refl, sym, ap, ◌∙◌, ◌⊎◌, inl, inr, Bool, true, false, some, List, [], ◌∷◌, arith,
  ◌≤◌, ◌<◌, ltb, if◌then◌else◌, find_first, update_where, contains, map, Bool-cases, ==_iff,
}
use mathlib.Core.Path.{subst}
use incident_garden.Domain.{Uuid, Time}
use incident_garden.Store.{ok}
use incident_garden.Notifications.Queue.{
  QueueItem, rows, Mail, is_item, is_pending, is_processing, as_processing,
}
use incident_garden.Notifications.Queue.Effects.{statement-eq-ok}
use incident_garden.Notifications.Queue.Fetch.{
  is_due, select_due, item_ids, returned, take_due, fetch_pending,
}
use incident_garden.Notifications.Queue.Recovery.{
  is_stuck, as_recovered, recover_rows, recover_stuck_processing,
}

find-update :
    (i : Uuid) (p : QueueItem → Bool) (f : QueueItem → QueueItem) (q : List QueueItem)
    {row : QueueItem}
    → ((r : QueueItem) → (f r).id ≡ r.id)
    → find_first (is_item i) q ≡ some row
    → find_first (is_item i) (update_where p f q) ≡ some (if p row then f row else row)
find-update i p f [] k h = cc
find-update i p f (x ∷ xs) {row} k h = elim (Bool-cases (is_item i x)) [
  | inl hit ↦
      let same : x ≡ row = ground (arith, hit, h) in
      subst
        (λ r. find_first (is_item i) (update_where p f (x ∷ xs)) ≡ some (if p r then f r else r))
        same (ground (arith, hit, k x, Bool-cases (p x)))
  | inr miss ↦
      let later = find-update i p f xs {row = row} k (ground (arith, miss, h)) in
      ground (arith, miss, k x, Bool-cases (p x), later)
]

item_ids-returned : (xs : List QueueItem) → item_ids (map returned xs) ≡ item_ids xs
unfolding returned
item_ids-returned [] = refl
item_ids-returned (x ∷ xs) = ap (λ is. x.id ∷ is) (item_ids-returned xs)

take_due-eq :
    (limit : ℕ) (now : Time) (q q' : List QueueItem) (items : List QueueItem)
    → take_due limit now q ≡ rows items q'
    → q' ≡ update_where (λ row. contains row.id (item_ids items)) (as_processing now) q
unfolding take_due
take_due-eq limit now q q' items h =
    let ids : item_ids items ≡ item_ids (select_due limit now q) =
      ap item_ids (ground (arith, h)) ∙ item_ids-returned (select_due limit now q) in
    let rows' : q'
        ≡ update_where (λ row. contains row.id (item_ids (select_due limit now q)))
            (as_processing now) q =
      ground (arith, h) in
    rows' ∙ ap (λ is. update_where (λ row. contains row.id is) (as_processing now) q) (sym ids)

recover_rows-eq :
    (stuck_for now : Time) (q q' : List QueueItem) (n : ℕ)
    → recover_rows stuck_for now q ≡ rows n q'
    → q' ≡ update_where (is_stuck stuck_for now) (as_recovered now) q
unfolding recover_rows
recover_rows-eq stuck_for now q q' n h = ground (arith, h)

-- The row that an item has in the end, with what it was before the fetch: it is due at the time of
-- the recovery where the item was taken more than `stuck_for` before; else it is still in processing
-- and due at no time.
pub record Fate (row : QueueItem) (taken stuck_for later : Time) (row' : QueueItem) : Type 0 where
  pub same_item :
      (row'.id ≡ row.id) × (row'.channel_id ≡ row.channel_id) × (row'.payload ≡ row.payload)
  pub same_attempts : (row'.attempts ≡ row.attempts) × (row'.max_attempts ≡ row.max_attempts)
  pub fate :
      ((taken + stuck_for < later) × (is_due later row' ≡ true))
      ⊎ ((later ≤ taken + stuck_for)
          × (is_processing row'.status ≡ true)
          × ((t : Time) → is_due t row' ≡ false))

resumed : QueueItem → Time → Time → Time → QueueItem
resumed row taken stuck_for later =
    let mine = as_processing taken row in
    if is_stuck stuck_for later mine then as_recovered later mine else mine

resumed-Fate :
    (row : QueueItem) (taken stuck_for later : Time)
    → Fate row taken stuck_for later (resumed row taken stuck_for later)
unfolding resumed is_stuck as_recovered as_processing is_processing is_pending is_due
resumed-Fate row taken stuck_for later = elim (Bool-cases (ltb (taken + stuck_for) later)) [
  | inl over ↦ rw over (record {
    same_item = (refl, refl, refl);
    same_attempts = (refl, refl);
    fate = inl (ground (arith, over), ground arith);
  })
  | inr early ↦ rw early (record {
    same_item = (refl, refl, refl);
    same_attempts = (refl, refl);
    fate = inr (ground (arith, early), refl, λ t. refl);
  })
]

-- What the recovery leaves of the queue before the fetch: the rows of the items that were taken, and
-- those that nobody has in processing.
pub record Resumed (ids : List Uuid) (taken stuck_for later : Time) (q q' : List QueueItem)
    : Type 0 where
  pub items :
      (i : Uuid) (row : QueueItem)
      → find_first (is_item i) q ≡ some row
      → contains i ids ≡ true
      → (row' : QueueItem) × (find_first (is_item i) q' ≡ some row')
        × Fate row taken stuck_for later row'
  pub others :
      (i : Uuid) (row : QueueItem)
      → find_first (is_item i) q ≡ some row
      → contains i ids ≡ false
      → is_processing row.status ≡ false
      → find_first (is_item i) q' ≡ some row

found_id :
    (i : Uuid) (q : List QueueItem) {row : QueueItem}
    → find_first (is_item i) q ≡ some row
    → row.id ≡ i
found_id i [] h = cc
found_id i (x ∷ xs) {row} h = ground (arith, h, found_id i xs {row = row}, ==_iff x.id i)

idle_not_stuck :
    (stuck_for now : Time) (row : QueueItem)
    → is_processing row.status ≡ false
    → is_stuck stuck_for now row ≡ false
unfolding is_stuck
idle_not_stuck stuck_for now row h = ground (arith, h)

-- A worker fetches items and crashes; later a RecoverStuckProcessing returns, whatever the server
-- refused in between. Each item that was taken has the attempts that it had before. It is due again
-- if it was taken longer than the given duration before the recovery; otherwise, as its worker may
-- still be at it, it stays in processing, and no fetch takes it. A row that was not taken, and was not
-- in processing, is exactly as it was.
pub fetch_pending-recover :
    (limit : ℕ) (stuck_for later : Time) (faults : List Bool) (m m' m'' : Mail)
    (items : List QueueItem) (n : ℕ)
    → fetch_pending limit m ≡ (ok items, m')
    → recover_stuck_processing stuck_for (record m' { faults = faults; now = later }) ≡ (ok n, m'')
    → Resumed (item_ids items) m.now stuck_for later m.queue m''.queue
unfolding fetch_pending recover_stuck_processing
fetch_pending-recover limit stuck_for later faults m m' m'' items n h k =
    let taken = λ (row : QueueItem). contains row.id (item_ids items) in
    let first =
      take_due-eq limit m.now m.queue m'.queue items (statement-eq-ok (take_due limit m.now) m h) in
    let second = recover_rows-eq stuck_for later m'.queue m''.queue n (
      statement-eq-ok (recover_rows stuck_for later) (record m' { faults = faults; now = later })
        k) in
    let between =
      λ (i : Uuid) (row : QueueItem) (there : find_first (is_item i) m.queue ≡ some row).
        ap (find_first (is_item i)) first
        ∙ find-update i taken (as_processing m.now) m.queue (λ r. unfold as_processing in refl)
            there in
    let after = λ (i : Uuid) (row : QueueItem) (there : find_first (is_item i) m'.queue ≡ some row).
      ap (find_first (is_item i)) second
      ∙ find-update i (is_stuck stuck_for later) (as_recovered later) m'.queue
          (λ r. unfold as_recovered in refl) there in
    record {
      items = λ i row there mine.
          let own : contains row.id (item_ids items) ≡ true =
            ap (λ t. contains t (item_ids items)) (found_id i m.queue there) ∙ mine in
          let fetched =
            between i row there ∙ ap (λ c. some (if c then as_processing m.now row else row)) own in
          (
            resumed row m.now stuck_for later,
            (unfold resumed in after i (as_processing m.now row) fetched),
            resumed-Fate row m.now stuck_for later,
          );
      others = λ i row there other idle.
          let own : contains row.id (item_ids items) ≡ false =
            ap (λ t. contains t (item_ids items)) (found_id i m.queue there) ∙ other in
          let left =
            between i row there ∙ ap (λ c. some (if c then as_processing m.now row else row)) own in
          after i row left
          ∙ ap (λ c. some (if c then as_recovered later row else row))
              (idle_not_stuck stuck_for later row idle);
    }
