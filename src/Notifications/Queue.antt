-- ===== src/Notifications/Queue.antt =====
-- The notification queue: internal/notifications/queue.go, and the statements on the table
-- notification_queue of internal/notifications/postgres/repository.go.
-- A NULL in `last_error` is the empty string, as `scanQueueItem` reads it. A payload that is written
-- as JSON and read back is the payload.
pub mod Fetch
pub mod Effects
pub mod Due
pub mod Crash
pub mod Recovery
use incident_garden.Prelude.{
  ℕ, String, ◌+◌, Bool, true, false, ◌&&◌, Option, none, some, List, [], ◌∷◌, ◌++◌, ltb, leb, ◌==◌,
  if◌then◌else◌, any, keep, find_first, update_where, count, contains, is_empty, map,
}
use incident_garden.Domain.{Uuid, Time}
use incident_garden.Store.{Error, Result, ok, err, db_failure, channel_not_found, item_not_failed}
use incident_garden.Notifications.Payload.{
  ChannelType, MessageType, NotificationChannel, NotificationPayload, Notification,
}

-- CHECK check_queue_status keeps any other string out of the table.
pub data QueueStatus : Type 0 where
  pending processing sent failed : QueueStatus
  other : String → QueueStatus

pub record QueueItem : Type 0 where
  pub id : Uuid
  pub event_id : Uuid
  pub channel_id : Uuid
  pub message_type : MessageType
  pub payload : NotificationPayload
  pub status : QueueStatus
  pub attempts : ℕ
  pub max_attempts : ℕ
  pub next_attempt_at : Time
  pub last_error : String
  pub created_at : Time
  pub updated_at : Time
  pub sent_at : Option Time

-- An error of a sender: its text, and what `IsRetryable` says if it has that method.
pub record SendError : Type 0 where
  pub message : String
  pub retryable : Option Bool

-- The two tables, the statements to come that the server refuses, the clock, what the senders
-- answer to the calls to come (past the end of the list they accept), and the calls made.
pub record Mail : Type 0 where
  pub queue : List QueueItem
  pub channels : List NotificationChannel
  pub faults : List Bool
  pub now : Time
  pub answers : List (Option SendError)
  pub calls : List Notification

pub data QueueReply (A : Type 0) : Type 0 where
  rows : A → List QueueItem → QueueReply A
  no_rows : Error → QueueReply A

module _ {A : Type 0} where
  settle : QueueReply A → Mail → Result A × Mail
  settle (rows a q) m = (ok a, record m { queue = q })
  settle (no_rows e) m = (err e, m)

  -- A statement on the pool, or a transaction that the server carries out or refuses as a whole.
  attempt : List Bool → QueueReply A → Mail → Result A × Mail
  unfolding settle
  attempt [] r m = settle r m
  attempt (false ∷ fs) r m = settle r (record m { faults = fs })
  attempt (true ∷ fs) r m = (err db_failure, record m { faults = fs })

  unfoldable pub statement : (List QueueItem → QueueReply A) → Mail → Result A × Mail
  unfolding attempt
  statement f m = attempt m.faults (f m.queue) m

abbrev pub is_item : Uuid → QueueItem → Bool
is_item i row = row.id == i

unfoldable pub is_pending : QueueStatus → Bool
is_pending pending = true
is_pending _ = false

unfoldable pub is_processing : QueueStatus → Bool
is_processing processing = true
is_processing _ = false

unfoldable pub is_sent : QueueStatus → Bool
is_sent sent = true
is_sent _ = false

unfoldable pub is_failed : QueueStatus → Bool
is_failed failed = true
is_failed _ = false

abbrev is_channel : Uuid → NotificationChannel → Bool
is_channel c row = row.id == c

-- `GetChannelByID`
unfoldable pub get_channel : Uuid → Mail → Result NotificationChannel × Mail
unfolding statement
get_channel c m =
    statement
      (λ q. elim (find_first (is_channel c) m.channels) [
        | none ↦ no_rows channel_not_found
        | some row ↦ rows row q
      ])
      m

-- the row that `EnqueueNotification` inserts, with the columns' defaults
unfoldable pub new_row : Time → QueueItem → QueueItem
new_row now item = record item {
  status = pending;
  attempts = 0;
  next_attempt_at = now;
  last_error = "";
  created_at = now;
  updated_at = now;
  sent_at = none;
}

unfoldable pub enqueue_notification : QueueItem → Mail → Result (Unit {0}) × Mail
unfolding statement new_row
enqueue_notification item m = statement (λ q. rows tt (q ++ new_row m.now item ∷ [])) m

-- `EnqueueBatch`: one transaction
unfoldable pub enqueue_batch : List QueueItem → Mail → Result (Unit {0}) × Mail
unfolding statement new_row
enqueue_batch items m =
    if is_empty items
    then (ok tt, m)
    else statement (λ q. rows tt (q ++ map (new_row m.now) items)) m

-- The columns that each of the updates sets.
unfoldable pub as_sent : Time → QueueItem → QueueItem
as_sent now row = record row {
  status = sent;
  attempts = row.attempts + 1;
  sent_at = some now;
  updated_at = now;
}

unfoldable pub as_failed : String → Time → QueueItem → QueueItem
as_failed reason now row = record row {
  status = failed;
  attempts = row.attempts + 1;
  last_error = reason;
  updated_at = now;
}

unfoldable pub for_retry : String → Time → Time → QueueItem → QueueItem
for_retry reason next now row = record row {
  status = pending;
  attempts = row.attempts + 1;
  next_attempt_at = next;
  last_error = reason;
  updated_at = now;
}

unfoldable pub as_processing : Time → QueueItem → QueueItem
as_processing now row = record row { status = processing; updated_at = now }

-- `UPDATE … WHERE id = $1`: no row is no error
unfoldable pub set_row : Uuid → (QueueItem → QueueItem) → Mail → Result (Unit {0}) × Mail
unfolding statement
set_row i f m = statement (λ q. rows tt (update_where (is_item i) f q)) m

unfoldable pub mark_as_sent : Uuid → Mail → Result (Unit {0}) × Mail
unfolding set_row as_sent
mark_as_sent i m = set_row i (as_sent m.now) m

unfoldable pub mark_as_failed : Uuid → String → Mail → Result (Unit {0}) × Mail
unfolding set_row as_failed
mark_as_failed i reason m = set_row i (as_failed reason m.now) m

unfoldable pub mark_for_retry : Uuid → String → Time → Mail → Result (Unit {0}) × Mail
unfolding set_row for_retry
mark_for_retry i reason next m = set_row i (for_retry reason next m.now) m

unfoldable pub mark_as_processing : Uuid → Mail → Result (Unit {0}) × Mail
unfolding set_row as_processing
mark_as_processing i m = set_row i (as_processing m.now) m
