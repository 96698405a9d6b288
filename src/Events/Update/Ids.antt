-- ===== src/Events/Update/Ids.antt =====
-- `AddUpdate` does not take the counter of identifiers back.
use incident_garden.Prelude.{Bool}
use incident_garden.Domain.{Uuid, Event, AffectedService}
use incident_garden.Inputs.{CreateEventUpdateInput}
use incident_garden.Store.Steps.{Step}
use incident_garden.Store.Ids.{NextUp, id_rules}
use incident_garden.Events.Repository.{get_event}
use incident_garden.Events.Compose.Ids.{NextUp-ChangeRules}
use incident_garden.Events.Compose.Steps.{
  by_status_of, validate-Step, log_status-Step, process_service_changes-Step,
}
use incident_garden.Events.Create.{Statuses}
use incident_garden.Events.Update.{
  create_update_tx, update_event_tx, capture_one, capture_old_statuses, set_operational,
  recalculate_one, recalculate_services_stored_status, recalculate_event, handle_resolution,
  update_body, add_update,
}

ruleset id_calls =
    (id_rules, NextUp-ChangeRules, by_status_of, log_status-Step, process_service_changes-Step)

pub get_event-NextUp : (e : Uuid) → Step NextUp (get_event e)
unfolding get_event
get_event-NextUp e = search id_rules depth 7

create_update_tx-NextUp :
    (input : CreateEventUpdateInput) (by : Uuid) → Step NextUp (create_update_tx input by)
unfolding create_update_tx
create_update_tx-NextUp input by = search id_rules depth 7

update_event_tx-NextUp : (event : Event) → Step NextUp (update_event_tx event)
unfolding update_event_tx
update_event_tx-NextUp event = search id_rules depth 7

capture_one-NextUp :
    (e : Uuid) (m : Statuses) (su : AffectedService) → Step NextUp (capture_one e m su)
unfolding capture_one
capture_one-NextUp e m su = search id_rules

set_operational-NextUp : (s e by : Uuid) → Step NextUp (set_operational s e by)
unfolding set_operational
set_operational-NextUp s e by = search id_calls depth 7

recalculate_one-NextUp : (e by s : Uuid) → Step NextUp (recalculate_one e by s)
unfolding recalculate_one
recalculate_one-NextUp e by s = search (id_rules, set_operational-NextUp)

recalculate_event-NextUp : (e by : Uuid) → Step NextUp (recalculate_event e by)
unfolding recalculate_event recalculate_services_stored_status
recalculate_event-NextUp e by = search (id_rules, recalculate_one-NextUp)

handle_resolution-NextUp :
    (input : CreateEventUpdateInput) (by : Uuid) → Step NextUp (handle_resolution input by)
unfolding handle_resolution
handle_resolution-NextUp input by = search (id_rules, recalculate_event-NextUp)

update_body-NextUp :
    (b : Bool) (event : Event) (input : CreateEventUpdateInput) (by : Uuid)
    → Step NextUp (update_body b event input by)
unfolding update_body capture_old_statuses
update_body-NextUp b event input by =
    search
      (
        id_calls, create_update_tx-NextUp, update_event_tx-NextUp, capture_one-NextUp,
        handle_resolution-NextUp,
      )
      depth 12

pub add_update-NextUp :
    (b : Bool) (input : CreateEventUpdateInput) (by : Uuid) → Step NextUp (add_update b input by)
unfolding add_update
add_update-NextUp b input by =
    search (id_calls, get_event-NextUp, validate-Step, update_body-NextUp) depth 10
