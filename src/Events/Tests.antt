-- ===== src/Events/Tests.antt =====
-- Runs of the event service on a small status page, and its theorems there.
use incident_garden.Prelude.{
  ◌≡◌, refl, true, false, none, some, [], ◌∷◌, contains, find_first, keep,
}
use incident_garden.Domain.{
  Event, EventType, EventUpdate, resolved, investigating, operational, degraded, major_outage,
  minor, is_valid_for_type, is_resolved,
}
use incident_garden.Inputs.{CreateEventInput, CreateEventUpdateInput}
use incident_garden.Catalog.Effective.{IsEffective, get_effective_status-IsEffective}
use incident_garden.Events.Compose.{validate_affected_entities, record_change}
use incident_garden.Events.Samples.{page, world, service_row}
use incident_garden.Events.Create.Given.{Gives, create_event-Gives}
use incident_garden.Events.Create.Row.{Created}
use incident_garden.Events.Create.Created.{create_event-Created}
use incident_garden.Events.Create.{create_event, new_event, override, put}
use incident_garden.Events.Create.Atomic.{create_event-Atomic}
use incident_garden.Events.Update.Shown.{add_update-shown}
use incident_garden.Store.{
  World, rows, ok, err, db_failure, in_tx, on_pool, begin_tx, commit, rollback, fresh_id,
  read_clock, notify, for_each, fold_each, ◌>>=◌, pure, fail, fail_if, try, finally,
}
use incident_garden.Store.Quiet.{Unseen}
use incident_garden.Catalog.Repository.{
  get_service_status, update_service_status, insert_log, is_service, select_missing_services,
  affects, get_effective_status,
}
use incident_garden.Events.Repository.{
  other_active, select_service_ids, associate_service, insert_change,
}
use incident_garden.Events.Update.{add_update, apply_status}
use incident_garden.Events.Update.Atomic.{add_update-Atomic}
use incident_garden.Events.Update.Resolution.{Updated, add_update-Updated}

abbrev resolve_first : CreateEventUpdateInput
resolve_first = record {
  event_id = 1;
  status = resolved;
  message = "fixed";
  notify_subscribers = true;
  service_updates = [];
  add_services = [];
  add_groups = [];
  remove_service_ids = [];
  reason = "";
}

abbrev resolution : EventUpdate
resolution = record {
  id = 1000;
  event_id = 1;
  status = resolved;
  message = "fixed";
  notify_subscribers = true;
  created_by = 90;
  created_at = 100;
}

-- The fifth statement, the insert of the update, is refused.
abbrev refused : World
refused = world (false ∷ false ∷ false ∷ false ∷ true ∷ [])

add_update-refused : (add_update true resolve_first 90 refused).0 ≡ err db_failure
unfolding add_update in_tx on_pool begin_tx commit rollback fresh_id read_clock notify for_each
    fold_each ◌>>=◌ pure fail fail_if try finally is_valid_for_type is_resolved
add_update-refused = refl

add_update-Atomic_example : Unseen refused (add_update true resolve_first 90 refused).1
add_update-Atomic_example =
    add_update-Atomic true resolve_first 90 refused db_failure add_update-refused

add_update_runs :
    add_update true resolve_first 90 (world [])
    ≡ (ok resolution, (add_update true resolve_first 90 (world [])).1)
unfolding add_update in_tx on_pool begin_tx commit rollback fresh_id read_clock notify for_each
    fold_each ◌>>=◌ pure fail fail_if try finally is_valid_for_type is_resolved apply_status
    other_active get_service_status update_service_status insert_log
add_update_runs = refl

add_update-Updated_example :
    Updated resolve_first page (add_update true resolve_first 90 (world [])).1.db
add_update-Updated_example =
    add_update-Updated true resolve_first 90 (world [])
      (add_update true resolve_first 90 (world [])).1 resolution add_update_runs

-- The new event is an outage of service 10; the insert of its link is refused.
abbrev outage : CreateEventInput
outage = record {
  title = "Outage";
  type = EventType.incident;
  status = investigating;
  severity = some minor;
  description = "";
  started_at = some 90;
  resolved_at = none;
  scheduled_start_at = none;
  scheduled_end_at = none;
  notify_subscribers = true;
  template_id = none;
  affected_services = record { service_id = 10; status = major_outage } ∷ [];
  affected_groups = [];
}

abbrev link_refused : World
link_refused = world (false ∷ false ∷ false ∷ false ∷ true ∷ [])

create_event_refused : (create_event true (λ m. m) outage 90 link_refused).0 ≡ err db_failure
unfolding create_event in_tx on_pool begin_tx commit rollback fresh_id read_clock notify for_each
    fold_each ◌>>=◌ pure fail fail_if try finally is_valid_for_type get_service_status insert_log
    override put validate_affected_entities select_missing_services
create_event_refused = refl

create_event-Atomic_example :
    Unseen link_refused (create_event true (λ m. m) outage 90 link_refused).1
create_event-Atomic_example =
    create_event-Atomic true (λ m. m) outage 90 link_refused db_failure create_event_refused

abbrev after_resolution : World
after_resolution = (add_update true resolve_first 90 (world [])).1

resolve_first_resolves : is_resolved resolve_first.status ≡ true
unfolding is_resolved
resolve_first_resolves = refl

first_has_10 : contains 10 (select_service_ids 1 after_resolution.db.event_services) ≡ true
unfolding add_update in_tx on_pool begin_tx commit rollback fresh_id read_clock notify for_each
    fold_each ◌>>=◌ pure fail fail_if try finally is_valid_for_type is_resolved apply_status
    other_active get_service_status update_service_status insert_log select_service_ids
first_has_10 = refl

only_first_has_10 : other_active 10 1 after_resolution.db ≡ false
unfolding add_update in_tx on_pool begin_tx commit rollback fresh_id read_clock notify for_each
    fold_each ◌>>=◌ pure fail fail_if try finally is_valid_for_type is_resolved apply_status
    other_active get_service_status update_service_status insert_log select_service_ids
only_first_has_10 = refl

service_10_after :
    find_first (is_service 10) after_resolution.db.services
    ≡ some (record (service_row 10 operational) { updated_at = 100 })
unfolding add_update in_tx on_pool begin_tx commit rollback fresh_id read_clock notify for_each
    fold_each ◌>>=◌ pure fail fail_if try finally is_valid_for_type is_resolved apply_status
    other_active get_service_status update_service_status insert_log select_service_ids
service_10_after = refl

add_update-shown_example :
    get_effective_status 10 after_resolution.db ≡ rows (operational, false) after_resolution.db
add_update-shown_example =
    add_update-shown true resolve_first 90 (world []) after_resolution resolution 10
      (record (service_row 10 operational) { updated_at = 100 }) add_update_runs
      resolve_first_resolves first_has_10 only_first_has_10 service_10_after

page_shows_10 : get_effective_status 10 page ≡ rows (major_outage, true) page
unfolding get_effective_status
page_shows_10 = refl

get_effective_status-IsEffective_example :
    IsEffective degraded (keep (affects page 10) page.event_services) (major_outage, true)
get_effective_status-IsEffective_example =
    get_effective_status-IsEffective 10 page page (service_row 10 degraded) (major_outage, true)
      refl page_shows_10

abbrev after_outage : World
after_outage = (create_event true (λ m. m) outage 90 (world [])).1

abbrev outage_row : Event
outage_row = new_event outage 90 1000 100

create_event_runs :
    create_event true (λ m. m) outage 90 (world [])
    ≡ (ok (record outage_row { service_ids = 10 ∷ [] }), after_outage)
unfolding create_event in_tx on_pool begin_tx commit rollback fresh_id read_clock notify for_each
    fold_each ◌>>=◌ pure fail fail_if try finally is_valid_for_type get_service_status insert_log
    override put validate_affected_entities select_missing_services new_event record_change
    associate_service insert_change
create_event_runs = refl

create_event-Created_example :
    Created outage (record outage_row { service_ids = 10 ∷ [] }) (world []) after_outage
create_event-Created_example =
    create_event-Created true (λ m. m) outage 90 (world []) after_outage
      (record outage_row { service_ids = 10 ∷ [] }) create_event_runs

create_event-Gives_example :
    Gives outage (record outage_row { service_ids = 10 ∷ [] }) page after_outage.db
create_event-Gives_example =
    create_event-Gives true (λ m. m) outage 90 (world []) after_outage
      (record outage_row { service_ids = 10 ∷ [] }) (λ m s. refl) (λ m d. d) create_event_runs
