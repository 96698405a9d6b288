-- ===== src/Notifications/Tests.antt =====
-- Runs of the worker on a small queue, and the theorems there.
use incident_garden.Prelude.{ℕ, ◌+◌, ◌*◌, ◌≡◌, refl, true, none, some, List, [], ◌∷◌, ltb, length}
use incident_garden.Domain.{Uuid, Time}
use incident_garden.Store.{ok}
use incident_garden.Notifications.Payload.{
  email, MessageType, NotificationChannel, NotificationPayload,
}
use incident_garden.Notifications.Queue.{
  QueueItem, QueueStatus, pending, processing, sent, Mail, statement,
}
use incident_garden.Notifications.Queue.Fetch.{select_due}
use incident_garden.Notifications.Queue.Fetch.{fetch_pending}
use incident_garden.Notifications.Queue.Recovery.{recover_stuck_processing}
use incident_garden.Notifications.Queue.Crash.{Resumed, fetch_pending-recover}
use incident_garden.Notifications.Worker.{
  Floats, ahead, Worker, message, process_item, process_batch,
}
use incident_garden.Notifications.Worker.Outcome.{Processes, process_item-Processes}
use incident_garden.Notifications.Worker.Budget.{Pays}
use incident_garden.Notifications.Worker.Rounds.{Rounds, start, wait, batch, Rounds-Pays}

abbrev payload : NotificationPayload
payload = record {
  message_type = MessageType.initial;
  event = record {
    id = 1;
    title = "API errors";
    type = "incident";
    status = "investigating";
    severity = "minor";
    message = "";
    services = [];
    groups = [];
    created_at = 5;
    started_at = none;
    scheduled_start = none;
    scheduled_end = none;
  };
  changes = none;
  resolution = none;
  event_url = "";
  generated_at = 5;
}

abbrev queued : Uuid → QueueStatus → ℕ → Time → QueueItem
queued i st attempts next = record {
  id = i;
  event_id = 1;
  channel_id = 50;
  message_type = MessageType.initial;
  payload = payload;
  status = st;
  attempts = attempts;
  max_attempts = 3;
  next_attempt_at = next;
  last_error = "";
  created_at = 5;
  updated_at = 10;
  sent_at = none;
}

abbrev inbox : NotificationChannel
inbox = record {
  id = 50;
  user_id = 60;
  type = email;
  target = "a@b.c";
  is_enabled = true;
  is_verified = true;
  is_default = true;
  subscribe_to_all_services = true;
  created_at = 1;
  updated_at = 1;
}

-- Two rows are due, one is stuck in processing, one was sent long ago; the sender refuses the first
-- message.
abbrev mail : Mail
mail = record {
  queue =
      queued 1 pending 0 20
      ∷ queued 2 pending 2 10
      ∷ queued 3 processing 1 10
      ∷ record (queued 4 sent 1 10) { sent_at = some 11 }
      ∷ [];
  channels = inbox ∷ [];
  faults = [];
  now = 100;
  answers = some (record { message = "busy"; retryable = none }) ∷ [];
  calls = [];
}

-- Numbers for float64, exact on whole multipliers.
abbrev numbers : Floats ℕ
numbers = record {
  of_duration = λ d. d;
  times = λ a b. a * b;
  exceeds = λ a b. ltb b a;
  to_duration = ahead;
}

abbrev worker : Worker ℕ
worker = record {
  config = record {
    batch_size = 100;
    poll_interval = 5;
    max_attempts = 3;
    initial_backoff = 1;
    max_backoff = 300;
    backoff_multiplier = 2;
    num_workers = 5;
  };
  floats = numbers;
  has_sender = λ t. true;
  render = λ t p. message "subject" "body";
  error_text = λ e. "error";
}

process_item-Processes_example :
    Processes worker
      (queued 3 processing 1 10)
      mail
      (process_item worker (queued 3 processing 1 10) mail)
process_item-Processes_example = process_item-Processes worker (queued 3 processing 1 10) mail

-- Two batches, a minute apart.
abbrev two_batches : Mail
two_batches = process_batch worker (record (process_batch worker mail) { now = 160 })

two-Rounds :
    Rounds worker mail
      (0
        + length (select_due 100 100 mail.queue)
        + length (select_due 100 160 (process_batch worker mail).queue))
      two_batches
two-Rounds = batch (wait 160 (batch start))

Rounds-Pays_example :
    Pays
      (0
        + length (select_due 100 100 mail.queue)
        + length (select_due 100 160 (process_batch worker mail).queue))
      mail
      two_batches
Rounds-Pays_example = Rounds-Pays worker mail two_batches _ refl refl two-Rounds

-- The worker that takes both rows at 100 crashes. At 200, after more than 60, they are due again.
abbrev fetched : Mail
fetched = (fetch_pending 100 mail).1

abbrev taken : List QueueItem
taken =
    record (queued 2 processing 2 10) { updated_at = 10 }
    ∷ record (queued 1 processing 0 20) { updated_at = 10 }
    ∷ []

fetches_two : fetch_pending 100 mail ≡ (ok taken, fetched)
unfolding fetch_pending statement
fetches_two = refl

abbrev recovered : Mail
recovered = (recover_stuck_processing 60 (record fetched { faults = []; now = 200 })).1

recovers_three :
    recover_stuck_processing 60 (record fetched { faults = []; now = 200 }) ≡ (ok 3, recovered)
unfolding recover_stuck_processing statement fetch_pending
recovers_three = refl

fetch_pending-recover_example : Resumed (2 ∷ 1 ∷ []) 100 60 200 mail.queue recovered.queue
fetch_pending-recover_example =
    fetch_pending-recover 100 60 200 [] mail fetched recovered taken 3 fetches_two recovers_three
