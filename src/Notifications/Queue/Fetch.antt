-- ===== src/Notifications/Queue/Fetch.antt =====
-- `FetchPendingNotifications` of internal/notifications/postgres/repository.go. Rows that another
-- worker holds are skipped there; the operations here run one after the other.
use incident_garden.Prelude.{
  zero, ℕ, suc, Bool, ◌&&◌, List, [], ◌∷◌, leb, if◌then◌else◌, keep, update_where, contains, map,
}
use incident_garden.Domain.{Uuid, Time}
use incident_garden.Store.{Result}
use incident_garden.Notifications.Queue.{
  QueueItem, QueueReply, rows, Mail, statement, is_pending, processing, as_processing,
}

-- the WHERE clause
unfoldable pub is_due : Time → QueueItem → Bool
unfolding is_pending
is_due now row = is_pending row.status && leb row.next_attempt_at now

-- ORDER BY next_attempt_at
unfoldable pub insert_by_time : QueueItem → List QueueItem → List QueueItem
insert_by_time x [] = x ∷ []
insert_by_time x (y ∷ ys) =
    let rest = insert_by_time x ys in
    if leb x.next_attempt_at y.next_attempt_at then x ∷ y ∷ ys else y ∷ rest

unfoldable pub sort_by_time : List QueueItem → List QueueItem
unfolding insert_by_time
sort_by_time [] = []
sort_by_time (x ∷ xs) = insert_by_time x (sort_by_time xs)

-- LIMIT
unfoldable pub take : ℕ → List QueueItem → List QueueItem
take zero xs = []
take (suc n) [] = []
take (suc n) (x ∷ xs) = x ∷ take n xs

unfoldable pub select_due : ℕ → Time → List QueueItem → List QueueItem
unfolding is_due sort_by_time take
select_due limit now q = take limit (sort_by_time (keep (is_due now) q))

abbrev pub item_ids : List QueueItem → List Uuid
item_ids items = map (λ item. item.id) items

unfoldable pub returned : QueueItem → QueueItem
returned item = record item { status = processing }

-- The rows that are fetched are set to processing in the transaction; the items that are returned
-- are copies of what was read, with the new status.
unfoldable pub take_due : ℕ → Time → List QueueItem → QueueReply (List QueueItem)
unfolding select_due as_processing returned
take_due limit now q =
    let items = select_due limit now q in
    rows (map returned items)
      (update_where (λ row. contains row.id (item_ids items)) (as_processing now) q)

unfoldable pub fetch_pending : ℕ → Mail → Result (List QueueItem) × Mail
unfolding statement take_due
fetch_pending limit m = statement (take_due limit m.now) m
