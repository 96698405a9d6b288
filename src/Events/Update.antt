-- ===== src/Events/Update.antt =====
-- `AddUpdate` of internal/events/service.go, with `handleResolution` and
-- `recalculateServicesStoredStatus`. `has_notifier` says whether the service has a notifier.
pub mod Atomic
pub mod Effect
pub mod Resolution
pub mod Shown
pub mod Ids
pub mod Returns
pub mod Carried
pub mod Refusal
pub mod Success
mod Tests
pub mod Recalculate
use incident_garden.Prelude.{
  Bool, true, false, ◌&&◌, not, Option, none, some, List, [], ◌∷◌, if◌then◌else◌, is_some,
}
use incident_garden.Domain.{
  Uuid, Time, Event, EventUpdate, EventStatus, ServiceStatus, operational, AffectedService,
  is_valid_for_type, is_resolved,
}
use incident_garden.Inputs.{CreateEventUpdateInput}
use incident_garden.Store.{
  invalid_status, event_already_resolved, Result, ok, err, event_updated, Action, pure, fail_if,
  try, finally, ◌>>=◌, ◌>>◌, for_each, fold_each, rows, in_tx, on_pool, begin_tx, commit, rollback,
  fresh_id, read_clock, notify,
}
use incident_garden.Events.Repository.{
  get_event, update_event_row, select_service_ids, select_link_status, other_active, insert_update,
}
use incident_garden.Catalog.Repository.{get_service_status, update_service_status}
use incident_garden.Events.Compose.{validate_affected_entities, log_status, process_service_changes}
use incident_garden.Events.Create.{Statuses, put}

-- `CreateEventUpdateTx` with the update that `AddUpdate` builds
pub create_update_tx : CreateEventUpdateInput → Uuid → Action EventUpdate
unfolding insert_update
create_update_tx input by = do
  i ← fresh_id
  now ← read_clock
  let update : EventUpdate = record {
    id = i;
    event_id = input.event_id;
    status = input.status;
    message = input.message;
    notify_subscribers = input.notify_subscribers;
    created_by = by;
    created_at = now;
  }
  in_tx (insert_update update) >> pure update

-- the new status, and the time of the resolution unless there is one already
unfoldable pub apply_status : EventStatus → Time → Event → Event
apply_status st now event = record event {
  status = st;
  resolved_at =
      if is_resolved st && not (is_some event.resolved_at) then some now else event.resolved_at;
}

-- `UpdateEventTx`, which also reads `updated_at` back
pub update_event_tx : Event → Action Event
unfolding update_event_row
update_event_tx event = do
  now ← read_clock
  in_tx (update_event_row event now)
  pure (record event { updated_at = now })

keep_status : Result ServiceStatus → Uuid → Statuses → Statuses
unfolding put
keep_status (ok st) s m = put s st m
keep_status (err e) s m = m

-- the loop body that captures an old status: a service that is not in the event is passed over
capture_one : Uuid → Statuses → AffectedService → Action Statuses
unfolding select_link_status keep_status
capture_one e m su = do
  old ← try (in_tx (select_link_status e su.service_id))
  pure (keep_status old su.service_id m)

capture_old_statuses : Uuid → List AffectedService → Action Statuses
unfolding capture_one
capture_old_statuses e us = fold_each (capture_one e) us []

abbrev known : Result ServiceStatus → Option ServiceStatus
known (ok st) = some st
known (err e) = none

-- the branch of the loop for a service that no other active event has
unfoldable pub set_operational : Uuid → Uuid → Uuid → Action (Unit {0})
unfolding log_status
set_operational s e by = do
  old ← try (get_service_status s)
  now ← read_clock
  in_tx (update_service_status s operational now)
  log_status s (known old) operational e "Event resolved, no other active events" by

-- the loop body: other active events keep the stored status as it is
recalculate_one : Uuid → Uuid → Uuid → Action (Unit {0})
unfolding set_operational
recalculate_one e by s = do
  has_other ← in_tx (λ d. rows (other_active s e d) d)
  if has_other then pure tt else set_operational s e by

unfoldable pub recalculate_services_stored_status : List Uuid → Uuid → Uuid → Action (Unit {0})
unfolding recalculate_one
recalculate_services_stored_status ss e by = for_each (recalculate_one e by) ss

-- the calls of `handleResolution`, past its first return
recalculate_event : Uuid → Uuid → Action (Unit {0})
unfolding recalculate_services_stored_status
recalculate_event e by = do
  sids ← in_tx (λ d. rows (select_service_ids e d.event_services) d)
  recalculate_services_stored_status sids e by

unfoldable pub handle_resolution : CreateEventUpdateInput → Uuid → Action (Unit {0})
unfolding recalculate_event
handle_resolution input by =
    if is_resolved input.status then recalculate_event input.event_id by else pure tt

-- from the first statement of the transaction to the notification
pub update_body : Bool → Event → CreateEventUpdateInput → Uuid → Action EventUpdate
unfolding create_update_tx update_event_tx capture_old_statuses process_service_changes
    handle_resolution
update_body has_notifier event input by = do
  update ← create_update_tx input by
  now ← read_clock
  changed ← update_event_tx (apply_status input.status now event)
  old ← capture_old_statuses input.event_id input.service_updates
  process_service_changes input by
  handle_resolution input by
  commit
  if has_notifier && input.notify_subscribers
      then notify (event_updated changed update event.status input old)
      else pure tt
  pure update

-- `AddUpdate`
unfoldable pub add_update : Bool → CreateEventUpdateInput → Uuid → Action EventUpdate
unfolding get_event update_body validate_affected_entities
add_update has_notifier input by = do
  event ← get_event input.event_id
  fail_if (not (is_valid_for_type input.status event.type)) invalid_status
  fail_if (is_resolved event.status) event_already_resolved
  validate_affected_entities input.add_services input.add_groups
  begin_tx
  finally (update_body has_notifier event input by) rollback
