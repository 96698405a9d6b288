-- ===== src/Events/Create.antt =====
-- `CreateEvent` of internal/events/service.go. `has_notifier` says
-- whether the service was built with a notifier; `range` is the order in which Go runs over a map.
pub mod Atomic
pub mod Ids
pub mod Row
pub mod Created
pub mod Merge
pub mod LinkStatus
pub mod Links
pub mod Given
use Prim.Native.String.{◌++◌ as str_append}
use incident_garden.Prelude.{
  ℕ, String, Bool, true, false, ◌&&◌, ◌||◌, not, Option, none, some, List, [], ◌∷◌, ◌++◌, map, ◌==◌,
  if◌then◌else◌, is_empty, is_some,
}
use incident_garden.Domain.{
  Uuid, Time, Event, EventType, Severity, ServiceStatus, AffectedService, AffectedGroup, added,
  is_valid_type, is_valid_severity, is_valid_for_type,
}
use incident_garden.Inputs.{CreateEventInput}
use incident_garden.Store.{
  invalid_status, invalid_severity, unknown_event_type, unknown_severity, event_created, Action,
  pure, fail, fail_if, finally, ◌>>=◌, ◌>>◌, for_each, fold_each, in_tx, on_pool, begin_tx, commit,
  rollback, fresh_id, read_clock, notify,
}
use incident_garden.Events.Repository.{insert_event, insert_group, delete_groups}
use incident_garden.Catalog.Repository.{get_service_status, select_group_services}
use incident_garden.Events.Compose.{
  validate_affected_entities, log_status, record_change, associate_tx,
}

-- map[string]domain.ServiceStatus
abbrev pub Statuses : Type 0
Statuses = List (Uuid × ServiceStatus)

abbrev pub has_key : Uuid → Statuses → Bool
has_key k [] = false
has_key k (p ∷ m) = p.0 == k || has_key k m

-- `m[k] = v`
unfoldable pub put : Uuid → ServiceStatus → Statuses → Statuses
put k v [] = (k, v) ∷ []
put k v (p ∷ m) = if p.0 == k then (k, v) ∷ m else p ∷ put k v m

-- the inner loop over a group's services: a status that is set already stays
unfoldable pub add_members : List Uuid → ServiceStatus → Statuses → Statuses
unfolding put
add_members [] st m = m
add_members (s ∷ ss) st m = add_members ss st (if has_key s m then m else put s st m)

-- the loop body over the affected groups
pub add_group_members : Statuses → AffectedGroup → Action Statuses
unfolding add_members
add_group_members m g = do
  sids ← on_pool (select_group_services g.group_id)
  pure (add_members sids g.status m)

unfoldable pub collect_groups : List AffectedGroup → Action Statuses
unfolding add_group_members
collect_groups groups = fold_each add_group_members groups []

-- the loop over the explicit services, which override the groups
unfoldable pub override : List AffectedService → Statuses → Statuses
unfolding put
override [] m = m
override (a ∷ more) m = override more (put a.service_id a.status m)

pub check_severity : EventType → Option Severity → Action (Unit {0})
unfolding is_valid_severity
check_severity EventType.incident none = fail invalid_severity
check_severity EventType.incident (some s) = fail_if (not (is_valid_severity s)) unknown_severity
check_severity _ _ = pure tt

-- the event that `CreateEvent` builds, with the identifier and the times that the insert returns
unfoldable pub new_event : CreateEventInput → Uuid → Uuid → Time → Event
new_event input by i now = record {
  id = i;
  title = input.title;
  type = input.type;
  status = input.status;
  severity = input.severity;
  description = input.description;
  started_at = input.started_at;
  resolved_at = input.resolved_at;
  scheduled_start_at = input.scheduled_start_at;
  scheduled_end_at = input.scheduled_end_at;
  notify_subscribers = input.notify_subscribers;
  template_id = input.template_id;
  created_by = by;
  created_at = now;
  updated_at = now;
  service_ids = [];
  group_ids = map (λ g. g.group_id) input.affected_groups;
}

pub create_event_tx : CreateEventInput → Uuid → Action Event
unfolding insert_event new_event
create_event_tx input by = do
  i ← fresh_id
  now ← read_clock
  in_tx (insert_event (new_event input by i now))
  pure (new_event input by i now)

-- the loop body that associates one service, with the identifiers collected so far
associate_one : Uuid → String → Uuid → List Uuid → Uuid × ServiceStatus → Action (List Uuid)
unfolding associate_tx log_status
associate_one e title by sids p = do
  current ← get_service_status p.0
  associate_tx e p.0 p.1
  log_status p.0 (some current) p.1 e (str_append "Event created: " title) by
  pure (sids ++ p.0 ∷ [])

-- the loop over the statuses, in the order in which the map is run over
pub associate_all : Uuid → String → Uuid → Statuses → Action (List Uuid)
unfolding associate_one
associate_all e title by m = fold_each (associate_one e title by) m []

insert_one_group : Uuid → AffectedGroup → Action (Unit {0})
unfolding insert_group
insert_one_group e g = in_tx (insert_group (e, g.group_id))

-- `AssociateGroupsTx`, behind the test of the caller
pub associate_groups : Uuid → List AffectedGroup → Action (Unit {0})
unfolding insert_one_group delete_groups
associate_groups e groups =
    if is_empty groups
    then pure tt
    else in_tx (delete_groups e) >> for_each (insert_one_group e) groups

-- the loop bodies of `recordInitialChangesTx`
record_service : Uuid → Uuid → Uuid → AffectedService → Action (Unit {0})
unfolding record_change
record_service e batch by a =
    record_change e batch added (some a.service_id) none "Initial event creation" by

record_group : Uuid → Uuid → Uuid → AffectedGroup → Action (Unit {0})
unfolding record_change
record_group e batch by g =
    record_change e batch added none (some g.group_id) "Initial event creation" by

-- the calls of `recordInitialChangesTx`, past its first return
record_all : Uuid → List AffectedService → List AffectedGroup → Uuid → Action (Unit {0})
unfolding record_service record_group
record_all e services groups by = do
  batch ← fresh_id
  for_each (record_service e batch by) services
  for_each (record_group e batch by) groups

pub record_initial_changes_tx :
    Uuid → List AffectedService → List AffectedGroup → Uuid → Action (Unit {0})
unfolding record_all
record_initial_changes_tx e services groups by =
    if is_empty services && is_empty groups then pure tt else record_all e services groups by

-- from the first statement of the transaction to the notification
pub create_body : Bool → (Statuses → Statuses) → CreateEventInput → Statuses → Uuid → Action Event
unfolding create_event_tx associate_all associate_groups record_initial_changes_tx
create_body has_notifier range input statuses by = do
  row ← create_event_tx input by
  sids ← associate_all row.id input.title by (range statuses)
  let created = record row { service_ids = sids }
  associate_groups row.id input.affected_groups
  record_initial_changes_tx row.id input.affected_services input.affected_groups by
  commit
  if has_notifier && created.notify_subscribers
      then notify (event_created created sids)
      else pure tt
  pure created

-- `CreateEvent`
unfoldable pub create_event : Bool → (Statuses → Statuses) → CreateEventInput → Uuid → Action Event
unfolding check_severity collect_groups override create_body
create_event has_notifier range input by = do
  fail_if (not (is_valid_type input.type)) unknown_event_type
  fail_if (not (is_valid_for_type input.status input.type)) invalid_status
  check_severity input.type input.severity
  validate_affected_entities input.affected_services input.affected_groups
  from_groups ← collect_groups input.affected_groups
  begin_tx
  finally (create_body has_notifier range input (override input.affected_services from_groups) by)
      rollback
