-- ===== src/Events/Update/Atomic.antt =====
-- `AddUpdate` is all or nothing.
use incident_garden.Prelude.{◌≡◌, Bool}
use incident_garden.Domain.{Uuid, Event, AffectedService}
use incident_garden.Inputs.{CreateEventUpdateInput}
use incident_garden.Store.{Error, err, World}
use incident_garden.Store.Steps.{Step}
use incident_garden.Store.Quiet.{
  Unseen, quiet_rules, Atomic, Atomic-finally, Atomic-bind, commit-notify-Atomic,
}
use incident_garden.Catalog.Repository.Reads.{catalog_reads}
use incident_garden.Events.Repository.Reads.{get_event-Unseen}
use incident_garden.Events.Compose.Quiet.{Unseen-ChangeRules}
use incident_garden.Events.Compose.Steps.{
  validate-Step, log_status-Step, process_service_changes-Step,
}
use incident_garden.Events.Create.{Statuses}
use incident_garden.Events.Update.{
  create_update_tx, update_event_tx, capture_one, capture_old_statuses, set_operational,
  recalculate_one, recalculate_services_stored_status, recalculate_event, handle_resolution,
  update_body, add_update,
}

ruleset quiet_calls =
    (quiet_rules, catalog_reads, Unseen-ChangeRules, log_status-Step, process_service_changes-Step)

create_update_tx-Unseen :
    (input : CreateEventUpdateInput) (by : Uuid) → Step Unseen (create_update_tx input by)
unfolding create_update_tx
create_update_tx-Unseen input by = search quiet_calls depth 7

update_event_tx-Unseen : (event : Event) → Step Unseen (update_event_tx event)
unfolding update_event_tx
update_event_tx-Unseen event = search quiet_calls depth 7

capture_one-Unseen :
    (e : Uuid) (m : Statuses) (su : AffectedService) → Step Unseen (capture_one e m su)
unfolding capture_one
capture_one-Unseen e m su = search quiet_calls

set_operational-Unseen : (s e by : Uuid) → Step Unseen (set_operational s e by)
unfolding set_operational
set_operational-Unseen s e by = search quiet_calls depth 7

recalculate_one-Unseen : (e by s : Uuid) → Step Unseen (recalculate_one e by s)
unfolding recalculate_one
recalculate_one-Unseen e by s = search (quiet_calls, set_operational-Unseen)

recalculate_event-Unseen : (e by : Uuid) → Step Unseen (recalculate_event e by)
unfolding recalculate_event recalculate_services_stored_status
recalculate_event-Unseen e by = search (quiet_calls, recalculate_one-Unseen)

handle_resolution-Unseen :
    (input : CreateEventUpdateInput) (by : Uuid) → Step Unseen (handle_resolution input by)
unfolding handle_resolution
handle_resolution-Unseen input by = search (quiet_calls, recalculate_event-Unseen)

update_body-Atomic :
    (b : Bool) (event : Event) (input : CreateEventUpdateInput) (by : Uuid)
    → Atomic (update_body b event input by)
unfolding update_body capture_old_statuses
update_body-Atomic b event input by =
    search
      (
        quiet_calls, create_update_tx-Unseen, update_event_tx-Unseen, capture_one-Unseen,
        handle_resolution-Unseen, Atomic-bind, commit-notify-Atomic,
      )
      depth 9

add_update-Atomic_lem :
    (b : Bool) (input : CreateEventUpdateInput) (by : Uuid) → Atomic (add_update b input by)
unfolding add_update
add_update-Atomic_lem b input by =
    search
      (
        quiet_calls, get_event-Unseen, validate-Step, update_body-Atomic, Atomic-finally,
        Atomic-bind,
      )
      depth 9

-- An update that fails, wherever it fails and whatever the database refused, leaves the committed
-- tables as they were and sends no notice.
pub add_update-Atomic :
    (has_notifier : Bool) (input : CreateEventUpdateInput) (by : Uuid) (w : World) (e : Error)
    → (add_update has_notifier input by w).0 ≡ err e
    → Unseen w (add_update has_notifier input by w).1
add_update-Atomic b input by = (add_update-Atomic_lem b input by).at
