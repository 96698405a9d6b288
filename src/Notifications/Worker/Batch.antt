-- ===== src/Notifications/Worker/Batch.antt =====
-- A whole batch of the worker: what it may cost in calls of the senders.
use mathlib.Core.Path.{subst}
use incident_garden.Prelude.{
  suc, ◌≡◌, refl, sym, ap, ◌∙◌, inl, inr, Bool, true, false, ◌&&◌, ◌||◌, not, List, [], ◌∷◌, arith,
  ◌==◌, any, all, update_where, length, contains, distinct, All, map, Bool-cases, ==_iff,
}
use incident_garden.Domain.{Uuid, Time}
use incident_garden.Notifications.Queue.{
  QueueItem, Mail, is_item, is_pending, is_processing, as_processing,
}
use incident_garden.Notifications.Queue.Fetch.{
  is_due, select_due, item_ids, returned, take_due, fetch_pending,
}
use incident_garden.Notifications.Queue.Due.{All-select_due, distinct-select_due}
use incident_garden.Notifications.Queue.Effects.{refusals, statement-Serves}
use incident_garden.Notifications.Worker.{Worker, process_items, process_fetched, process_batch}
use incident_garden.Notifications.Worker.Budget.{
  remaining, load, fresh, Ready, Pays, process_items-Pays,
}

-- A row with the item's identifier is the item, as far as the worker looks.
abbrev agrees : QueueItem → QueueItem → Bool
agrees item row =
    not (is_item item.id row)
    || (row.attempts == item.attempts
        && row.max_attempts == item.max_attempts
        && (not (is_pending item.status) || is_pending row.status))

agrees_apart :
    (x : QueueItem) (xs : List QueueItem)
    → contains x.id (item_ids xs) ≡ false
    → all (agrees x) xs ≡ true
agrees_apart x [] h = refl
agrees_apart x (y ∷ ys) h = ground (arith, agrees_apart x ys, ==_iff y.id x.id, ==_iff x.id y.id)

agrees_self : (x : QueueItem) → agrees x x ≡ true
agrees_self x = ground (
  arith,
  ==_iff x.attempts x.attempts,
  ==_iff x.max_attempts x.max_attempts,
  Bool-cases (is_pending x.status),
)

-- The row of an item is there, and agrees with it.
abbrev Found : List QueueItem → QueueItem → Type 0
Found q item = (all (agrees item) q ≡ true) × (any (is_item item.id) q ≡ true)

Found-cons :
    (x : QueueItem) (q items : List QueueItem)
    → contains x.id (item_ids items) ≡ false
    → All (Found q) items
    → All (Found (x ∷ q)) items
Found-cons x q [] h fs = tt
Found-cons x q (y ∷ ys) h (f, fs) = (
  (
    ground (arith, f.0, ==_iff y.id x.id, ==_iff x.id y.id),
    ground (arith, f.1, Bool-cases (is_item y.id x)),
  ),
  Found-cons x q ys (ground (arith, h)) fs,
)

Found-All : (q : List QueueItem) → distinct (item_ids q) ≡ true → All (Found q) q
Found-All [] d = tt
Found-All (x ∷ xs) d = (
  (ground (arith, agrees_self x, agrees_apart x xs), ground (arith, ==_iff x.id x.id)),
  Found-cons x xs xs (ground arith) (Found-All xs (ground arith)),
)

-- The items' identifiers are among those that the fetch marks.
abbrev Listed : List Uuid → List QueueItem → Type 0
Listed ids = All λ x. contains x.id ids ≡ true

Listed-cons :
    (i : Uuid) (ids : List Uuid) (xs : List QueueItem) → Listed ids xs → Listed (i ∷ ids) xs
Listed-cons i ids [] h = tt
Listed-cons i ids (x ∷ xs) (h, hs) = (ground (arith, h), Listed-cons i ids xs hs)

Listed-self : (xs : List QueueItem) → Listed (item_ids xs) xs
Listed-self [] = tt
Listed-self (x ∷ xs) =
    (ground (arith, ==_iff x.id x.id), Listed-cons x.id (item_ids xs) xs (Listed-self xs))

abbrev marked_rows : List Uuid → Time → List QueueItem → List QueueItem
marked_rows ids now q = update_where (λ row. contains row.id ids) (as_processing now) q

is_processing-as_processing :
    (now : Time) (row : QueueItem) → is_processing (as_processing now row).status ≡ true
unfolding as_processing is_processing
is_processing-as_processing now row = refl

as_processing_fields :
    (now : Time) (row : QueueItem)
    → ((as_processing now row).id ≡ row.id)
      × ((as_processing now row).attempts ≡ row.attempts)
      × ((as_processing now row).max_attempts ≡ row.max_attempts)
unfolding as_processing
as_processing_fields now row = (refl, refl, refl)

fresh_marked :
    (item : QueueItem) (ids : List Uuid) (now : Time) (q : List QueueItem)
    → contains item.id ids ≡ true
    → all (agrees item) q ≡ true
    → all (fresh item) (marked_rows ids now q) ≡ true
fresh_marked item ids now [] h a = refl
fresh_marked item ids now (x ∷ xs) h a = ground (
  arith,
  fresh_marked item ids now xs,
  is_processing-as_processing now x,
  as_processing_fields now x,
  ==_iff x.id item.id,
  Bool-cases (contains x.id ids),
  Bool-cases (is_item item.id x),
)

any_marked :
    (i : Uuid) (ids : List Uuid) (now : Time) (q : List QueueItem)
    → any (is_item i) (marked_rows ids now q) ≡ any (is_item i) q
any_marked i ids now [] = refl
any_marked i ids now (x ∷ xs) =
    ground
      (arith, any_marked i ids now xs, as_processing_fields now x, Bool-cases (contains x.id ids))

abbrev Taken : List QueueItem → Time → QueueItem → Type 0
Taken q now x = Found q x × (is_due now x ≡ true)

Ready-fetched :
    (ids : List Uuid) (now : Time) (q items : List QueueItem)
    → Listed ids items
    → All (Taken q now) items
    → Ready (marked_rows ids now q) (map returned items)
unfolding returned
Ready-fetched ids now q [] l t = tt
Ready-fetched ids now q (x ∷ xs) (l, ls) ((f, due), ts) = (
  (fresh_marked x ids now q l f.0, any_marked x.id ids now q ∙ f.1),
  Ready-fetched ids now q xs ls ts,
)

returned_ids : (items : List QueueItem) → item_ids (map returned items) ≡ item_ids items
unfolding returned
returned_ids [] = refl
returned_ids (x ∷ xs) = ap (λ is. x.id ∷ is) (returned_ids xs)

returned-length : (items : List QueueItem) → length (map returned items) ≡ length items
returned-length [] = refl
returned-length (x ∷ xs) = ap suc (returned-length xs)

-- Every row that the fetch marks is pending.
abbrev Covers : Time → List QueueItem → List QueueItem → Type 0
Covers now rows = All λ item. (all (agrees item) rows ≡ true) × (is_due now item ≡ true)

Covers-tail :
    (now : Time) (x : QueueItem) (rows items : List QueueItem)
    → Covers now (x ∷ rows) items
    → Covers now rows items
Covers-tail now x rows [] c = tt
Covers-tail now x rows (y ∷ ys) ((a, due), cs) =
    ((ground (arith, a), due), Covers-tail now x rows ys cs)

pending_of :
    (now : Time) (x : QueueItem) (rows items : List QueueItem)
    → contains x.id (item_ids items) ≡ true
    → Covers now (x ∷ rows) items
    → is_pending x.status ≡ true
unfolding is_due
pending_of now x rows [] h c = cc
pending_of now x rows (y ∷ ys) h ((a, due), cs) = elim (Bool-cases (x.id == y.id)) [
  | inl hit ↦ ground (arith, hit, a, due, ==_iff x.id y.id)
  | inr miss ↦ pending_of now x rows ys (ground (arith, h, miss)) cs
]

remaining-as_processing :
    (now : Time) (x : QueueItem)
    → is_pending x.status ≡ true
    → remaining (as_processing now x) ≡ remaining x
unfolding remaining as_processing is_processing is_pending
remaining-as_processing now x h = ground (arith, h)

load-fetched :
    (now : Time) (q items : List QueueItem)
    → Covers now q items
    → load (marked_rows (item_ids items) now q) ≡ load q
unfolding load
load-fetched now [] items c = refl
load-fetched now (x ∷ xs) items c =
    let rest = load-fetched now xs items (Covers-tail now x xs items c) in
    elim (Bool-cases (contains x.id (item_ids items))) [
      | inl hit ↦
          rw hit (rw (remaining-as_processing now x (pending_of now x xs items hit c), rest) refl)
      | inr miss ↦ rw (miss, rest) refl
    ]

Covers-Taken :
    (now : Time) (q items : List QueueItem) → All (Taken q now) items → Covers now q items
Covers-Taken now q [] t = tt
Covers-Taken now q (x ∷ xs) ((f, due), ts) = ((f.0, due), Covers-Taken now q xs ts)

module _ {F : Type 0} (w : Worker F) where
  fetched_Pays :
      (m m' : Mail) (items : List QueueItem)
      → All (Taken m.queue m.now) items
      → distinct (item_ids items) ≡ true
      → m'.queue ≡ marked_rows (item_ids items) m.now m.queue
      → m'.calls ≡ m.calls
      → refusals m'.faults ≡ false
      → Pays (length items) m (process_items w (map returned items) m')
  fetched_Pays m m' items t d q c u =
      let ready : Ready m'.queue (map returned items) =
        subst (λ rows. Ready rows (map returned items)) (sym q)
          (Ready-fetched (item_ids items) m.now m.queue items (Listed-self items) t) in
      let p =
        process_items-Pays w (map returned items) m' u (ap distinct (returned_ids items) ∙ d)
          ready in
      let same : load m'.queue ≡ load m.queue =
        ap load q ∙ load-fetched m.now m.queue items (Covers-Taken m.now m.queue items t) in
      let kept : length m'.calls ≡ length m.calls = ap length c in
      let n = returned-length items in
      record {
        paid = omega (arith, p.paid, same, kept);
        less = omega (arith, p.less, same, n);
        served = p.served;
      }

-- Where the server refuses nothing, a batch handles the due rows that it takes, and pays for each
-- call of a sender with a send that a row had left.
pub process_batch-Pays :
    {F : Type 0} (w : Worker F) (m : Mail)
    → refusals m.faults ≡ false
    → distinct (item_ids m.queue) ≡ true
    → Pays (length (select_due w.config.batch_size m.now m.queue)) m (process_batch w m)
unfolding process_batch process_fetched fetch_pending take_due
process_batch-Pays w m u d =
    let items = select_due w.config.batch_size m.now m.queue in
    let q = marked_rows (item_ids items) m.now m.queue in
    let s = statement-Serves (take_due w.config.batch_size m.now) (map returned items) q m refl u in
    let taken =
      All-select_due (Found m.queue) w.config.batch_size m.now m.queue (Found-All m.queue d) in
    subst (λ r. Pays (length items) m (process_fetched w r)) (sym s.result)
      (fetched_Pays w m s.after items taken
        (distinct-select_due w.config.batch_size m.now m.queue d) s.queue s.calls s.served)
