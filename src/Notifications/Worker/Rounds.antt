-- ===== src/Notifications/Worker/Rounds.antt =====
-- Any number of batches of the worker, with time between them.
use mathlib.Core.Path.{subst}
use incident_garden.Prelude.{
  ℕ, ◌+◌, ◌≡◌, refl, sym, ap, ◌∙◌, inl, inr, Bool, true, false, List, [], ◌∷◌, arith, update_where,
  length, contains, distinct, map, Bool-cases,
}
use incident_garden.Domain.{Time}
use incident_garden.Notifications.Queue.{QueueItem, Mail, is_item, as_processing}
use incident_garden.Notifications.Queue.Fetch.{
  select_due, item_ids, returned, take_due, fetch_pending,
}
use incident_garden.Notifications.Queue.Effects.{refusals, statement-Serves}
use incident_garden.Notifications.Worker.{
  Worker, process_item, process_items, process_fetched, process_batch,
}
use incident_garden.Notifications.Worker.Outcome.{process_item-Processes}
use incident_garden.Notifications.Worker.Budget.{Change-id, Pays}
use incident_garden.Notifications.Worker.Batch.{process_batch-Pays}

-- The batches that a worker runs one after the other, at any times: how many items they have
-- handled, and what the worker started from and has come to.
pub data Rounds {F : Type 0} (w : Worker F) (m : Mail) : ℕ → Mail → Type 0 where
  start : Rounds w m 0 m
  wait : {n : ℕ} {m' : Mail} (t : Time) → Rounds w m n m' → Rounds w m n (record m' { now = t })
  batch :
      {n : ℕ} {m' : Mail}
      → Rounds w m n m'
      → Rounds w m
          (n + length (select_due w.config.batch_size m'.now m'.queue))
          (process_batch w m')

update_ids :
    (f : QueueItem → QueueItem) (p : QueueItem → Bool) (q : List QueueItem)
    → ((row : QueueItem) → (f row).id ≡ row.id)
    → item_ids (update_where p f q) ≡ item_ids q
update_ids f p [] h = refl
update_ids f p (x ∷ xs) h = elim (Bool-cases (p x)) [
  | inl hit ↦ rw (hit, h x, update_ids f p xs h) refl
  | inr miss ↦ rw (miss, update_ids f p xs h) refl
]

module _ {F : Type 0} (w : Worker F) where
  process_items_ids :
      (items : List QueueItem) (m : Mail)
      → item_ids (process_items w items m).queue ≡ item_ids m.queue
  unfolding process_items
  process_items_ids [] m = refl
  process_items_ids (item ∷ items) m =
      let p = process_item-Processes w item m in
      process_items_ids items (process_item w item m)
      ∙ ap item_ids p.queue
      ∙ update_ids p.change (is_item item.id) m.queue
          (λ row. Change-id w item m p.change row p.becomes)

  as_processing_id : (now : Time) (row : QueueItem) → (as_processing now row).id ≡ row.id
  unfolding as_processing
  as_processing_id now row = refl

  process_batch_ids :
      (m : Mail) → refusals m.faults ≡ false → item_ids (process_batch w m).queue ≡ item_ids m.queue
  unfolding process_batch process_fetched fetch_pending take_due
  process_batch_ids m u =
      let items = select_due w.config.batch_size m.now m.queue in
      let marks : QueueItem → Bool = λ row. contains row.id (item_ids items) in
      let q = update_where marks (as_processing m.now) m.queue in
      let s =
        statement-Serves (take_due w.config.batch_size m.now) (map returned items) q m refl u in
      subst (λ r. item_ids (process_fetched w r).queue ≡ item_ids m.queue) (sym s.result)
        (process_items_ids (map returned items) s.after
          ∙ ap item_ids s.queue
          ∙ update_ids (as_processing m.now) marks m.queue (as_processing_id m.now))

  -- What is kept along a run.
  record Kept (n : ℕ) (m m' : Mail) : Type 0 where
    pays : Pays n m m'
    ids : item_ids m'.queue ≡ item_ids m.queue

  Rounds-Kept :
      (m m' : Mail) (n : ℕ)
      → refusals m.faults ≡ false
      → distinct (item_ids m.queue) ≡ true
      → Rounds w m n m'
      → Kept n m m'
  Rounds-Kept m _ _ u d start = record {
    pays = record { paid = omega arith; less = omega arith; served = u };
    ids = refl;
  }
  Rounds-Kept m _ _ u d (wait {n} {m'} t r) =
      let k = Rounds-Kept m m' n u d r in
      record {
        pays = record { paid = k.pays.paid; less = k.pays.less; served = k.pays.served };
        ids = k.ids;
      }
  Rounds-Kept m _ _ u d (batch {n} {m'} r) =
      let k = Rounds-Kept m m' n u d r in
      let p = process_batch-Pays w m' k.pays.served (ap distinct k.ids ∙ d) in
      record {
        pays = record {
          paid = omega (arith, p.paid, k.pays.paid);
          less = omega (arith, p.less, k.pays.less);
          served = p.served;
        };
        ids = process_batch_ids m' k.pays.served ∙ k.ids;
      }

-- Where the server refuses nothing, a worker, over any number of batches at any times, calls the
-- senders no more often than the rows of the queue had sends left, and what the rows have left goes
-- down with each item that it handles: so it handles no more items than that either.
pub Rounds-Pays :
    {F : Type 0} (w : Worker F) (m m' : Mail) (n : ℕ)
    → refusals m.faults ≡ false
    → distinct (item_ids m.queue) ≡ true
    → Rounds w m n m'
    → Pays n m m'
Rounds-Pays w m m' n u d r = (Rounds-Kept w m m' n u d r).pays
