-- ===== src/Events/Compose.antt =====
-- How the event service changes the services and groups of an event (internal/events/service.go):
-- the helpers of `AddUpdate`, and the audit records that they write.
pub mod Steps
pub mod Quiet
pub mod Frame
pub mod Empty
pub mod Ids
use incident_garden.Prelude.{
  ℕ, String, Bool, true, false, ◌||◌, not, Option, none, some, List, [], ◌∷◌, ◌++◌, map, ◌==◌,
  if◌then◌else◌, is_empty,
}
use incident_garden.Domain.{
  Uuid, EventServiceChange, ServiceStatus, ServiceStatusLogEntry, AffectedService, AffectedGroup,
  ChangeAction, added, removed, event, status_eq,
}
use incident_garden.Inputs.{CreateEventUpdateInput}
use incident_garden.Store.{
  Error, service_not_in_event, affected_service_not_found, affected_group_not_found, Result, ok,
  err, Action, pure, fail, fail_if, try, ◌>>=◌, ◌>>◌, for_each, in_tx, on_pool, fresh_id,
  read_clock,
}
use incident_garden.Events.Repository.{
  associate_service, update_link_status, delete_link, select_in_event, select_link_status,
  add_group, insert_change,
}
use incident_garden.Catalog.Repository.{
  get_service_status, insert_log, select_missing_services, select_missing_groups,
  select_group_services,
}

-- `validateAffectedEntities`
check_services : List Uuid → Action (Unit {0})
check_services ids = if is_empty ids then pure tt else do
  missing ← on_pool (select_missing_services ids)
  fail_if (not (is_empty missing)) affected_service_not_found

check_groups : List Uuid → Action (Unit {0})
check_groups ids = if is_empty ids then pure tt else do
  missing ← on_pool (select_missing_groups ids)
  fail_if (not (is_empty missing)) affected_group_not_found

unfoldable pub validate_affected_entities :
    List AffectedService → List AffectedGroup → Action (Unit {0})
unfolding check_services check_groups
validate_affected_entities services groups = do
  check_services (map (λ a. a.service_id) services)
  check_groups (map (λ g. g.group_id) groups)

-- `CreateStatusLogEntryTx` with the entry that the event service builds
unfoldable pub log_status :
    Uuid → Option ServiceStatus → ServiceStatus → Uuid → String → Uuid → Action (Unit {0})
log_status s old new e reason by = do
  i ← fresh_id
  now ← read_clock
  in_tx (
      insert_log (record {
        id = i;
        service_id = s;
        old_status = old;
        new_status = new;
        source_type = event;
        event_id = some e;
        reason = reason;
        created_by = by;
        created_at = now;
      }))

-- `CreateServiceChangeTx` with the change that the event service builds
unfoldable pub record_change :
    Uuid → Uuid → ChangeAction → Option Uuid → Option Uuid → String → Uuid → Action (Unit {0})
record_change e batch action s g reason by = do
  i ← fresh_id
  now ← read_clock
  in_tx (
      insert_change (record {
        id = i;
        event_id = e;
        batch_id = some batch;
        action = action;
        service_id = s;
        group_id = g;
        reason = reason;
        created_by = by;
        created_at = now;
      }))

-- `AssociateServiceWithStatusTx`
unfoldable pub associate_tx : Uuid → Uuid → ServiceStatus → Action (Unit {0})
associate_tx e s st = do
  now ← read_clock
  in_tx (associate_service (record { event_id = e; service_id = s; status = st; updated_at = now }))

-- the rest of the loop body of `updateExistingServiceStatuses`, past its `continue`
change_status : Uuid → Uuid → ServiceStatus → ServiceStatus → String → Uuid → Action (Unit {0})
unfolding log_status
change_status e s old new reason by = do
  now ← read_clock
  in_tx
      (update_link_status (record { event_id = e; service_id = s; status = new; updated_at = now }))
  log_status s (some old) new e reason by

-- the loop body of `updateExistingServiceStatuses`
update_one : Uuid → String → Uuid → AffectedService → Action (Unit {0})
unfolding change_status
update_one e reason by su = do
  old ← in_tx (select_link_status e su.service_id)
  if status_eq old su.status then pure tt else change_status e su.service_id old su.status reason by

unfoldable pub update_existing_service_statuses :
    Uuid → List AffectedService → String → Uuid → Action (Unit {0})
unfolding update_one
update_existing_service_statuses e us reason by = for_each (update_one e reason by) us

-- what `currentStatus, _ := GetServiceStatus(…)` leaves: the empty string on an error
abbrev pub or_empty : Result ServiceStatus → ServiceStatus
or_empty (ok st) = st
or_empty (err e) = ServiceStatus.other ""

-- `associateServiceIfNotExists`, past its first return
associate_new : Uuid → Uuid → ServiceStatus → String → Uuid → Action Bool
unfolding log_status associate_tx
associate_new e s st reason by = do
  current ← try (get_service_status s)
  associate_tx e s st
  log_status s (some (or_empty current)) st e reason by
  pure true

unfoldable pub associate_service_if_not_exists :
    Uuid → Uuid → ServiceStatus → String → Uuid → Action Bool
unfolding associate_new
associate_service_if_not_exists e s st reason by = do
  exists ← in_tx (select_in_event e s)
  if exists then pure false else associate_new e s st reason by

-- the loop body of `addServicesToEvent`
add_one : Uuid → Uuid → String → Uuid → AffectedService → Action (Unit {0})
unfolding associate_service_if_not_exists record_change
add_one e batch reason by a = do
  is_new ← associate_service_if_not_exists e a.service_id a.status reason by
  if is_new then record_change e batch added (some a.service_id) none reason by else pure tt

unfoldable pub add_services_to_event :
    Uuid → Uuid → List AffectedService → String → Uuid → Action (Unit {0})
unfolding add_one
add_services_to_event e batch services reason by = for_each (add_one e batch reason by) services

-- the loop body over the members of a group
add_member : Uuid → ServiceStatus → String → Uuid → Uuid → Action (Unit {0})
unfolding associate_service_if_not_exists
add_member e st reason by s = do associate_service_if_not_exists e s st reason by; pure tt

-- the loop body of `addGroupsToEvent`
add_one_group : Uuid → Uuid → String → Uuid → AffectedGroup → Action (Unit {0})
unfolding add_member record_change
add_one_group e batch reason by g = do
  members ← on_pool (select_group_services g.group_id)
  for_each (add_member e g.status reason by) members
  in_tx (add_group (e, g.group_id))
  record_change e batch added none (some g.group_id) reason by

unfoldable pub add_groups_to_event :
    Uuid → Uuid → List AffectedGroup → String → Uuid → Action (Unit {0})
unfolding add_one_group
add_groups_to_event e batch groups reason by = for_each (add_one_group e batch reason by) groups

-- the end of the loop body of `removeServicesFromEvent`: a service that is not in the event is passed over
after_delete : Result (Unit {0}) → Uuid → Uuid → Uuid → String → Uuid → Action (Unit {0})
unfolding record_change
after_delete (ok t) e batch s reason by = record_change e batch removed (some s) none reason by
after_delete (err service_not_in_event) e batch s reason by = pure tt
after_delete (err other) e batch s reason by = fail other

remove_one : Uuid → Uuid → String → Uuid → Uuid → Action (Unit {0})
unfolding after_delete
remove_one e batch reason by s = do
  outcome ← try (in_tx (delete_link e s))
  after_delete outcome e batch s reason by

unfoldable pub remove_services_from_event :
    Uuid → Uuid → List Uuid → String → Uuid → Action (Unit {0})
unfolding remove_one
remove_services_from_event e batch ss reason by = for_each (remove_one e batch reason by) ss

-- `hasServiceChanges`
unfoldable pub has_service_changes : CreateEventUpdateInput → Bool
has_service_changes input =
    not (is_empty input.service_updates)
    || not (is_empty input.add_services)
    || not (is_empty input.add_groups)
    || not (is_empty input.remove_service_ids)

-- the calls of `processServiceChanges`, past its first return
apply_changes : CreateEventUpdateInput → Uuid → Action (Unit {0})
unfolding update_existing_service_statuses add_services_to_event add_groups_to_event
    remove_services_from_event
apply_changes input by = do
  batch ← fresh_id
  update_existing_service_statuses input.event_id input.service_updates input.reason by
  add_services_to_event input.event_id batch input.add_services input.reason by
  add_groups_to_event input.event_id batch input.add_groups input.reason by
  remove_services_from_event input.event_id batch input.remove_service_ids input.reason by

unfoldable pub process_service_changes : CreateEventUpdateInput → Uuid → Action (Unit {0})
unfolding has_service_changes apply_changes
process_service_changes input by =
    if has_service_changes input then apply_changes input by else pure tt
