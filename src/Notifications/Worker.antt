-- ===== src/Notifications/Worker.antt =====
-- The worker of the queue (internal/notifications/worker.go) and `SendToChannel` of dispatcher.go.
-- The renderer and the senders are not modelled: a renderer is a function, and what a sender answers
-- is an input. Go's float64 is a parameter too, with the four operations that the back-off uses.
pub mod Outcome
pub mod Budget
pub mod Batch
pub mod Rounds
use Prim.Native.String.{◌++◌ as str_append}
use incident_garden.Prelude.{
  zero, ℕ, suc, String, ◌+◌, ◌-◌, Bool, true, false, not, Option, none, some, List, [], ◌∷◌, ◌++◌,
  leb, if◌then◌else◌,
}
use incident_garden.Domain.{Uuid, Time}
use incident_garden.Store.{Error, Result, ok, err}
use incident_garden.Notifications.Payload.{
  ChannelType, NotificationChannel, NotificationPayload, Notification,
}
use incident_garden.Notifications.Queue.{
  QueueItem, SendError, Mail, get_channel, mark_as_sent, mark_as_failed, mark_for_retry,
}
use incident_garden.Notifications.Queue.Fetch.{fetch_pending}

-- `time.Duration`, which has a sign, and `Time.Add`
pub data Duration : Type 0 where
  ahead behind : ℕ → Duration

abbrev pub add : Time → Duration → Time
add t (ahead n) = t + n
add t (behind n) = t - n

-- float64: a duration as a number, rounded, a product, `>`, which NaN does not satisfy, and a number
-- as a duration, whatever it is for a number that int64 does not hold
pub record Floats (F : Type 0) : Type 0 where
  pub of_duration : Time → F
  pub times : F → F → F
  pub exceeds : F → F → Bool
  pub to_duration : F → Duration

pub record WorkerConfig (F : Type 0) : Type 0 where
  pub batch_size : ℕ
  pub poll_interval : Time
  pub max_attempts : ℕ
  pub initial_backoff : Time
  pub max_backoff : Time
  pub backoff_multiplier : F
  pub num_workers : ℕ

-- A message, or the text of the renderer's error.
pub data Rendered : Type 0 where
  message : String → String → Rendered
  render_error : String → Rendered

pub record Worker (F : Type 0) : Type 0 where
  pub config : WorkerConfig F
  pub floats : Floats F
  pub has_sender : ChannelType → Bool
  pub render : ChannelType → NotificationPayload → Rendered
  pub error_text : Error → String

-- `isRetryable`: an error without the method is retried
unfoldable pub is_retryable : SendError → Bool
is_retryable e = elim e.retryable [ none ↦ true | some b ↦ b ]

-- `NewRetryableError`, `NewNonRetryableError`
unfoldable pub new_retryable_error : SendError → SendError
new_retryable_error e = record { message = e.message; retryable = some true }

unfoldable pub new_non_retryable_error : SendError → SendError
new_non_retryable_error e = record { message = e.message; retryable = some false }

-- a sender's answer to one call
answer : List (Option SendError) → Notification → Mail → Option SendError × Mail
answer [] n m = (none, record m { calls = m.calls ++ n ∷ [] })
answer (a ∷ more) n m = (a, record m { answers = more; calls = m.calls ++ n ∷ [] })

module _ {F : Type 0} where
  -- `SendToChannel`
  unfoldable pub send_to_channel :
      Worker F → ChannelType → Notification → Mail → Option SendError × Mail
  unfolding answer
  send_to_channel w t n m =
      if w.has_sender t
      then answer m.answers n m
      else (some (record { message = "no sender for channel type"; retryable = none }), m)

  -- `backoff *= multiplier`, n times
  grow : Floats F → F → ℕ → F → F
  grow fl k zero b = b
  grow fl k (suc n) b = grow fl k n (fl.times b k)

  -- the delay of `calculateNextAttempt`
  unfoldable pub backoff : Worker F → ℕ → Duration
  unfolding grow
  backoff w attempt =
      let fl = w.floats in
      let b =
        grow fl w.config.backoff_multiplier (attempt - 1)
          (fl.of_duration w.config.initial_backoff) in
      let cap = fl.of_duration w.config.max_backoff in
      fl.to_duration (if fl.exceeds b cap then cap else b)

  unfoldable pub calculate_next_attempt : Worker F → ℕ → Time → Time
  unfolding backoff
  calculate_next_attempt w attempt now = add now (backoff w attempt)

  -- `handleSendError`: an error of a mark is only logged
  unfoldable pub handle_send_error : Worker F → QueueItem → SendError → Mail → Mail
  unfolding is_retryable calculate_next_attempt
  handle_send_error w item e m =
      if not (is_retryable e)
      then (mark_as_failed item.id e.message m).1
      else if leb item.max_attempts (item.attempts + 1)
      then (mark_as_failed item.id (str_append "max attempts exceeded: " e.message) m).1
      else (mark_for_retry item.id e.message (calculate_next_attempt w (item.attempts + 1) m.now)
          m).1

  -- the end of `processItem`, on the answer of the sender
  after_send : Worker F → QueueItem → Option SendError × Mail → Mail
  unfolding handle_send_error
  after_send w item (none, m) = (mark_as_sent item.id m).1
  after_send w item (some e, m) = handle_send_error w item e m

  send_item : Worker F → QueueItem → NotificationChannel → Rendered → Mail → Mail
  unfolding after_send send_to_channel
  send_item w item channel (render_error text) m = (mark_as_failed item.id text m).1
  send_item w item channel (message subject body) m = after_send w item (
      send_to_channel w channel.type
        (record { to = channel.target; subject = subject; body = body }) m)

  -- `processItem`, once the channel is read
  on_channel : Worker F → QueueItem → Result NotificationChannel × Mail → Mail
  unfolding send_item
  on_channel w item (err e, m) = (mark_as_failed item.id (w.error_text e) m).1
  on_channel w item (ok channel, m) =
      if not channel.is_verified
      then (mark_as_failed item.id "channel not verified" m).1
      else if not channel.is_enabled
      then (mark_as_failed item.id "channel disabled" m).1
      else send_item w item channel (w.render channel.type item.payload) m

  -- `processItem`
  unfoldable pub process_item : Worker F → QueueItem → Mail → Mail
  unfolding on_channel
  process_item w item m = on_channel w item (get_channel item.channel_id m)

  unfoldable pub process_items : Worker F → List QueueItem → Mail → Mail
  unfolding process_item
  process_items w [] m = m
  process_items w (item ∷ items) m = process_items w items (process_item w item m)

  process_fetched : Worker F → Result (List QueueItem) × Mail → Mail
  unfolding process_items
  process_fetched w (err e, m) = m
  process_fetched w (ok items, m) = process_items w items m

  -- `processBatch`
  unfoldable pub process_batch : Worker F → Mail → Mail
  unfolding process_fetched
  process_batch w m = process_fetched w (fetch_pending w.config.batch_size m)
