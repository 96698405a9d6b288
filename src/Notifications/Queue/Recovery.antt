-- ===== src/Notifications/Queue/Recovery.antt =====
-- The queue's maintenance in internal/notifications/postgres/repository.go: retries by hand,
-- recovery of items of crashed workers, deletion of old items, statistics. A time before the
-- clock's zero does not occur: `t < now - d` is written `t + d < now`.
use incident_garden.Prelude.{
  ℕ, ◌+◌, Bool, false, ◌&&◌, not, Option, none, some, List, ltb, if◌then◌else◌, any, keep,
  update_where, count,
}
use incident_garden.Domain.{Uuid, Time}
use incident_garden.Store.{Result, item_not_failed}
use incident_garden.Notifications.Queue.{
  QueueItem, QueueReply, rows, no_rows, Mail, statement, is_item, is_pending, is_processing,
  is_sent, is_failed, pending,
}

unfoldable pub as_retried : Time → QueueItem → QueueItem
as_retried now row = record row {
  status = pending;
  attempts = 0;
  next_attempt_at = now;
  last_error = "";
  updated_at = now;
}

abbrev is_failed_item : Uuid → QueueItem → Bool
is_failed_item i row = is_item i row && is_failed row.status

-- `RetryFailedItem`
unfoldable pub retry_failed_item : Uuid → Mail → Result (Unit {0}) × Mail
unfolding statement as_retried is_failed
retry_failed_item i m =
    statement
      (λ q.
        if any (is_failed_item i) q
        then rows tt (update_where (is_failed_item i) (as_retried m.now) q)
        else no_rows item_not_failed)
      m

unfoldable pub is_stuck : Time → Time → QueueItem → Bool
unfolding is_processing
is_stuck stuck_for now row = is_processing row.status && ltb (row.updated_at + stuck_for) now

unfoldable pub as_recovered : Time → QueueItem → QueueItem
as_recovered now row = record row { status = pending; next_attempt_at = now; updated_at = now }

-- `RecoverStuckProcessing`, which returns the number of rows
unfoldable pub recover_rows : Time → Time → List QueueItem → QueueReply ℕ
unfolding as_recovered is_stuck
recover_rows stuck_for now q =
    rows (count (is_stuck stuck_for now) q)
      (update_where (is_stuck stuck_for now) (as_recovered now) q)

unfoldable pub recover_stuck_processing : Time → Mail → Result ℕ × Mail
unfolding statement recover_rows
recover_stuck_processing stuck_for m = statement (recover_rows stuck_for m.now) m

-- `sent_at < $1`, which a NULL does not satisfy
before : Time → Time → Option Time → Bool
before older_than now none = false
before older_than now (some t) = ltb (t + older_than) now

unfoldable pub is_old : Time → Time → QueueItem → Bool
unfolding is_sent before
is_old older_than now row = is_sent row.status && before older_than now row.sent_at

-- `DeleteOldSentItems`
unfoldable pub delete_old_rows : Time → Time → List QueueItem → QueueReply ℕ
unfolding is_old
delete_old_rows older_than now q =
    rows (count (is_old older_than now) q) (keep (λ row. not (is_old older_than now row)) q)

unfoldable pub delete_old_sent_items : Time → Mail → Result ℕ × Mail
unfolding statement delete_old_rows
delete_old_sent_items older_than m = statement (delete_old_rows older_than m.now) m

pub record QueueStats : Type 0 where
  pub pending : ℕ
  pub processing : ℕ
  pub sent : ℕ
  pub failed : ℕ

unfoldable pub stats_of : List QueueItem → QueueStats
unfolding is_pending is_processing is_sent is_failed
stats_of q = record {
  pending = count (λ row. is_pending row.status) q;
  processing = count (λ row. is_processing row.status) q;
  sent = count (λ row. is_sent row.status) q;
  failed = count (λ row. is_failed row.status) q;
}

-- `GetQueueStats`
unfoldable pub get_queue_stats : Mail → Result QueueStats × Mail
unfolding statement stats_of
get_queue_stats m = statement (λ q. rows (stats_of q) q) m
