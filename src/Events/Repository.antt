-- ===== src/Events/Repository.antt =====
-- The statements of internal/events/postgres/repository.go that the event service runs.
pub mod Reads
pub mod Row
use incident_garden.Prelude.{
  ℕ, Bool, true, false, ◌&&◌, ◌||◌, not, Option, none, some, List, [], ◌∷◌, ◌++◌, map, ◌==◌,
  if◌then◌else◌, any, keep, find_first, update_where,
}
use incident_garden.Domain.{
  Uuid, Time, Event, EventUpdate, EventServiceChange, EventService, ServiceStatus,
  ServiceStatusLogEntry, Severity, is_valid_severity, is_valid_type, is_valid_status, is_active,
}
use incident_garden.Store.{
  Error, event_not_found, service_not_in_event, Db, Action, pure, ◌>>=◌, ◌>>◌, Reply, rows, no_rows,
  violation, in_tx, on_pool,
}

abbrev pub is_event : Uuid → Event → Bool
is_event e row = row.id == e

abbrev pub is_link : Uuid → Uuid → EventService → Bool
is_link e s row = row.event_id == e && row.service_id == s

-- `event_id = $1` of a log entry, whose column may be NULL
abbrev pub logs_event : Uuid → ServiceStatusLogEntry → Bool
logs_event e entry = elim entry.event_id [ none ↦ false | some i ↦ i == e ]

abbrev pub of_event : Uuid → EventService → Bool
of_event e row = row.event_id == e

-- CHECK check_severity: NULL or a named severity.
unfoldable pub severity_check : Option Severity → Bool
unfolding is_valid_severity
severity_check none = true
severity_check (some s) = is_valid_severity s

-- `SELECT service_id FROM event_services WHERE event_id = $1`
unfoldable pub select_service_ids : Uuid → List EventService → List Uuid
select_service_ids e rs = map (λ r. r.service_id) (keep (of_event e) rs)

unfoldable pub select_group_ids : Uuid → List (Uuid × Uuid) → List Uuid
select_group_ids e rs = map (λ r. r.1) (keep (λ r. r.0 == e) rs)

unfoldable pub select_event : Uuid → Db → Reply Event
select_event e d = elim (find_first (is_event e) d.events) [
  | none ↦ no_rows event_not_found
  | some r ↦ rows r d
]

-- `GetEvent`: the row, then its services and its groups, each a statement on the pool.
unfoldable pub get_event : Uuid → Action Event
unfolding select_event select_service_ids select_group_ids
get_event e = do
  event ← on_pool (select_event e)
  sids ← on_pool (λ d. rows (select_service_ids e d.event_services) d)
  gids ← on_pool (λ d. rows (select_group_ids e d.event_groups) d)
  pure (record event { service_ids = sids; group_ids = gids })

-- `CreateEventTx`: the row with the given identifier and time; the columns have no link lists.
unfoldable pub insert_event : Event → Db → Reply (Unit {0})
unfolding severity_check is_valid_type
insert_event event d =
    if is_valid_type event.type && severity_check event.severity
    then rows tt
        (record d { events = record event { service_ids = []; group_ids = [] } ∷ d.events })
    else violation

-- the columns that `UpdateEventTx` sets
unfoldable pub set_event : Event → Time → Event → Event
set_event event now row = record row {
  title = event.title;
  status = event.status;
  severity = event.severity;
  description = event.description;
  resolved_at = event.resolved_at;
  scheduled_start_at = event.scheduled_start_at;
  scheduled_end_at = event.scheduled_end_at;
  notify_subscribers = event.notify_subscribers;
  updated_at = now;
}

unfoldable pub update_event_row : Event → Time → Db → Reply (Unit {0})
unfolding severity_check set_event
update_event_row event now d =
    if any (is_event event.id) d.events
    then if severity_check event.severity
      then rows tt
          (record d { events = update_where (is_event event.id) (set_event event now) d.events })
      else violation
    else no_rows event_not_found

-- `associateServiceWithStatus`: INSERT … ON CONFLICT DO UPDATE
unfoldable pub upsert_link : EventService → List EventService → List EventService
upsert_link row rs =
    if any (is_link row.event_id row.service_id) rs
    then update_where (is_link row.event_id row.service_id)
        (λ r. record r { status = row.status; updated_at = row.updated_at }) rs
    else rs ++ row ∷ []

unfoldable pub associate_service : EventService → Db → Reply (Unit {0})
unfolding upsert_link is_valid_status
associate_service row d =
    if is_valid_status row.status
    then rows tt (record d { event_services = upsert_link row d.event_services })
    else violation

-- `UpdateEventServiceStatusTx`
unfoldable pub update_link_status : EventService → Db → Reply (Unit {0})
unfolding is_valid_status
update_link_status row d =
    if any (is_link row.event_id row.service_id) d.event_services
    then if is_valid_status row.status
      then rows tt (record d {
        event_services =
            update_where (is_link row.event_id row.service_id)
              (λ r. record r { status = row.status; updated_at = row.updated_at }) d.event_services;
      })
      else violation
    else no_rows service_not_in_event

-- `RemoveServiceFromEventTx`
unfoldable pub delete_link : Uuid → Uuid → Db → Reply (Unit {0})
delete_link e s d =
    if any (is_link e s) d.event_services
    then rows tt (record d { event_services = keep (λ r. not (is_link e s r)) d.event_services })
    else no_rows service_not_in_event

-- `IsServiceInEventTx`
unfoldable pub select_in_event : Uuid → Uuid → Db → Reply Bool
select_in_event e s d = rows (any (is_link e s) d.event_services) d

-- `GetEventServiceStatusTx`
unfoldable pub select_link_status : Uuid → Uuid → Db → Reply ServiceStatus
select_link_status e s d = elim (find_first (is_link e s) d.event_services) [
  | none ↦ no_rows service_not_in_event
  | some r ↦ rows r.status d
]

-- `status NOT IN ('resolved', 'completed', 'scheduled')` of the event that a link belongs to
unfoldable pub event_is_active : List Event → Uuid → Bool
unfolding is_active
event_is_active events e = any (λ row. row.id == e && is_active row.status) events

-- the WHERE clause of `HasOtherActiveEventsTx`
unfoldable pub other_active : Uuid → Uuid → Db → Bool
unfolding event_is_active
other_active s e d =
    any (λ r. r.service_id == s && not (r.event_id == e) && event_is_active d.events r.event_id)
      d.event_services

-- `event_groups`: the primary key forbids a pair twice
abbrev pub is_pair : Uuid × Uuid → Uuid × Uuid → Bool
is_pair p q = q.0 == p.0 && q.1 == p.1

-- the inserts of `AssociateGroupsTx`, after its DELETE
unfoldable pub insert_group : Uuid × Uuid → Db → Reply (Unit {0})
insert_group p d =
    if any (is_pair p) d.event_groups
    then violation
    else rows tt (record d { event_groups = d.event_groups ++ p ∷ [] })

-- `AddGroupToEventTx`: ON CONFLICT DO NOTHING
unfoldable pub add_group : Uuid × Uuid → Db → Reply (Unit {0})
add_group p d =
    if any (is_pair p) d.event_groups
    then rows tt d
    else rows tt (record d { event_groups = d.event_groups ++ p ∷ [] })

unfoldable pub delete_groups : Uuid → Db → Reply (Unit {0})
delete_groups e d = rows tt (record d { event_groups = keep (λ p. not (p.0 == e)) d.event_groups })

unfoldable pub insert_update : EventUpdate → Db → Reply (Unit {0})
insert_update u d = rows tt (record d { event_updates = d.event_updates ++ u ∷ [] })

unfoldable pub insert_change : EventServiceChange → Db → Reply (Unit {0})
insert_change c d = rows tt (record d { event_service_changes = d.event_service_changes ++ c ∷ [] })

-- ON DELETE SET NULL of service_status_log.event_id
unfoldable pub clear_event : Uuid → ServiceStatusLogEntry → ServiceStatusLogEntry
clear_event e l = if logs_event e l then record l { event_id = none } else l

-- `DeleteEventTx`, with what the foreign keys on events(id) do: CASCADE, and SET NULL in the log
unfoldable pub delete_event_row : Uuid → Db → Reply (Unit {0})
unfolding clear_event
delete_event_row e d =
    if any (is_event e) d.events
    then rows tt (record d {
      events = keep (λ r. not (is_event e r)) d.events;
      event_services = keep (λ r. not (of_event e r)) d.event_services;
      event_groups = keep (λ p. not (p.0 == e)) d.event_groups;
      event_updates = keep (λ u. not (u.event_id == e)) d.event_updates;
      event_service_changes = keep (λ c. not (c.event_id == e)) d.event_service_changes;
      service_status_log = map (clear_event e) d.service_status_log;
      event_subscribers = keep (λ p. not (p.0 == e)) d.event_subscribers;
      notification_queue = keep (λ n. not (n.1 == e)) d.notification_queue;
    })
    else no_rows event_not_found
