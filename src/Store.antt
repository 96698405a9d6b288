-- ===== src/Store.antt =====
-- The database as the services see it: the tables of migrations/ that the modelled code reads and
-- writes, a pool (`db`), one open transaction (`tx`), and statements that may fail.
-- Postgres is not part of the repository. What it does at each statement is an input: `faults`
-- lists, for the statements to come, which of them the server refuses (`true`: a lost connection, a
-- time-out, a foreign key); the statements past its end are carried out. A refused statement
-- aborts the transaction that it ran in, as Postgres does.
pub use incident_garden.Errors.{
  Error, event_not_found, invalid_status, invalid_severity, service_not_in_event,
  event_already_resolved, event_not_resolved, affected_service_not_found, affected_group_not_found,
  group_not_found, service_not_found, slug_exists, invalid_slug, already_archived, not_archived,
  service_has_active_events, group_has_active_events, group_has_services, unknown_event_type,
  unknown_severity, channel_not_found, item_not_failed, verification_code_not_found,
  verification_code_invalid, too_many_attempts, db_failure, Result, ok, err,
}
unfoldable pub use incident_garden.Routine.{
  pure, fail, after, ◌>>=◌, ◌>>◌, for_each, fold_each, fail_if, try, finally,
}
pub mod Steps
pub mod Quiet
pub mod Tables
pub mod Returns
pub mod Fails
pub mod Ids
use incident_garden.Prelude.{
  ℕ, ◌+◌, Bool, true, false, Option, none, some, List, [], ◌∷◌, ◌++◌, if◌then◌else◌,
}
use incident_garden.Routine.{Routine}
use incident_garden.Domain.{
  Uuid, Time, Event, EventUpdate, EventServiceChange, EventService, EventStatus, Service,
  ServiceGroup, ServiceStatus, ServiceStatusLogEntry,
}
use incident_garden.Inputs.{CreateEventUpdateInput}

-- A row of event_subscribers is an event and a channel. Of a row of notification_queue there are the
-- identifier and the event, for the deletion of events: what the worker does with the table is
-- modelled in Notifications/Queue.antt.
pub record Db : Type 0 where
  pub events : List Event
  pub event_services : List EventService
  pub event_groups : List (Uuid × Uuid)
  pub event_updates : List EventUpdate
  pub event_service_changes : List EventServiceChange
  pub services : List Service
  pub service_groups : List ServiceGroup
  pub service_group_members : List (Uuid × Uuid)
  pub service_status_log : List ServiceStatusLogEntry
  pub event_subscribers : List (Uuid × Uuid)
  pub notification_queue : List (Uuid × Uuid)

-- A call of the notifier that the event service has made. What a call does is the notifier's
-- affair; the update's call carries what `notifyOnUpdate` is given.
pub data Notice : Type 0 where
  event_created : Event → List Uuid → Notice
  event_updated :
      Event
      → EventUpdate
      → EventStatus
      → CreateEventUpdateInput
      → List (Uuid × ServiceStatus)
      → Notice
  event_cancelled : Event → Notice

pub record World : Type 0 where
  pub db : Db
  pub tx : Db
  pub aborted : Bool
  pub faults : List Bool
  pub now : Time
  pub next_id : Uuid
  pub notices : List Notice

abbrev pub Action : Type 0 → Type 0
Action = Routine World

-- What a statement does where the server carries it out: rows and the new tables; an error that the
-- repository makes of an empty result; or a violated constraint.
pub data Reply (A : Type 0) : Type 0 where
  rows : A → Db → Reply A
  no_rows : Error → Reply A
  violation : Reply A

module _ {A : Type 0} where
  settle : Reply A → World → Result A × World
  settle (rows a d) w = (ok a, record w { tx = d })
  settle (no_rows e) w = (err e, w)
  settle violation w = (err db_failure, record w { aborted = true })

  attempt : List Bool → Reply A → World → Result A × World
  unfolding settle
  attempt [] r w = settle r w
  attempt (false ∷ fs) r w = settle r (record w { faults = fs })
  attempt (true ∷ fs) r w = (err db_failure, record w { faults = fs; aborted = true })

  -- A statement on the transaction.
  unfoldable pub in_tx : (Db → Reply A) → Action A
  unfolding attempt
  in_tx f w = if w.aborted then (err db_failure, w) else attempt w.faults (f w.tx) w

  settle_pool : Reply A → World → Result A × World
  settle_pool (rows a d) w = (ok a, record w { db = d })
  settle_pool (no_rows e) w = (err e, w)
  settle_pool violation w = (err db_failure, w)

  attempt_pool : List Bool → Reply A → World → Result A × World
  unfolding settle_pool
  attempt_pool [] r w = settle_pool r w
  attempt_pool (false ∷ fs) r w = settle_pool r (record w { faults = fs })
  attempt_pool (true ∷ fs) r w = (err db_failure, record w { faults = fs })

  -- A statement on the pool: it commits at once, and reads nothing of the open transaction.
  unfoldable pub on_pool : (Db → Reply A) → Action A
  unfolding attempt_pool
  on_pool f w = attempt_pool w.faults (f w.db) w

begin_on : List Bool → World → Result (Unit {0}) × World
begin_on [] w = (ok tt, record w { tx = w.db; aborted = false })
begin_on (false ∷ fs) w = (ok tt, record w { tx = w.db; aborted = false; faults = fs })
begin_on (true ∷ fs) w = (err db_failure, record w { faults = fs })

-- `repo.BeginTx`
unfoldable pub begin_tx : Action (Unit {0})
unfolding begin_on
begin_tx w = begin_on w.faults w

commit_on : Bool → List Bool → World → Result (Unit {0}) × World
commit_on true fs w = (err db_failure, w)
commit_on false [] w = (ok tt, record w { db = w.tx })
commit_on false (false ∷ fs) w = (ok tt, record w { db = w.tx; faults = fs })
commit_on false (true ∷ fs) w = (err db_failure, record w { faults = fs })

-- `tx.Commit`: an aborted transaction is rolled back instead.
unfoldable pub commit : Action (Unit {0})
unfolding commit_on
commit w = commit_on w.aborted w.faults w

-- `tx.Rollback`: after a commit it changes nothing.
unfoldable pub rollback : World → World
rollback w = record w { tx = w.db; aborted = false }

-- `gen_random_uuid()` and `uuid.New()`
unfoldable pub fresh_id : Action Uuid
fresh_id w = (ok w.next_id, record w { next_id = w.next_id + 1 })

-- `time.Now()` and `NOW()`: one operation reads one time.
unfoldable pub read_clock : Action Time
read_clock w = (ok w.now, w)

unfoldable pub notify : Notice → Action (Unit {0})
notify n w = (ok tt, record w { notices = w.notices ++ n ∷ [] })
