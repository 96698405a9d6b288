-- ===== src/Events/Update/Tests.antt =====
-- An update of the sample page that must succeed.
use incident_garden.Prelude.{◌≡◌, refl, true, false, [], some, find_first}
use incident_garden.Domain.{
  EventUpdate, investigating, identified, in_progress, is_valid_for_type, is_resolved,
  is_valid_status,
}
use incident_garden.Store.{World, ok, err, invalid_status}
use incident_garden.Store.Returns.{Calm}
use incident_garden.Events.Repository.{is_event, severity_check, select_service_ids}
use incident_garden.Events.Samples.{page, world, incident_row}
use incident_garden.Events.Update.{add_update}
use incident_garden.Events.Update.Returns.{AllValid, Present}
use incident_garden.Events.Update.Refusal.{refusal, add_update-refuses}
use incident_garden.Events.Update.Success.{status_only, add_update-returns}

world_is_Calm : Calm (world [])
world_is_Calm = record { served = refl; alive = refl }

fits_incident : is_valid_for_type identified (incident_row 1 investigating).type ≡ true
unfolding is_valid_for_type
fits_incident = refl

is_open : is_resolved (incident_row 1 investigating).status ≡ false
unfolding is_resolved
is_open = refl

severity_is_allowed : severity_check (incident_row 1 investigating).severity ≡ true
unfolding severity_check
severity_is_allowed = refl

page-AllValid : AllValid page.services
unfolding is_valid_status
page-AllValid = (refl, (refl, tt))

page-Present : Present page (select_service_ids 1 page.event_services)
unfolding select_service_ids
page-Present = (refl, (refl, tt))

add_update-returns_example :
    (u : EventUpdate) × (w' : World) × (add_update true
        (status_only 1 identified "found" true)
        90
        (world [])
      ≡ (ok u, w'))
add_update-returns_example =
    add_update-returns true 1 identified "found" true 90 (world []) (incident_row 1 investigating)
      world_is_Calm refl fits_incident is_open severity_is_allowed page-AllValid page-Present

-- A status of maintenance does not fit an incident.
refusal_of_first : refusal (find_first (is_event 1) page.events) in_progress ≡ some invalid_status
unfolding is_valid_for_type
refusal_of_first = refl

add_update-refuses_example :
    add_update true (status_only 1 in_progress "started" true) 90 (world [])
    ≡ (err invalid_status, world [])
add_update-refuses_example =
    add_update-refuses true (status_only 1 in_progress "started" true) 90 (world []) invalid_status
      world_is_Calm refusal_of_first
