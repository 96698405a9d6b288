-- ===== src/Catalog/Service.antt =====
-- The operations of internal/catalog/service.go that change the catalog.
pub mod Atomic
pub mod Regrouped
pub mod Written
pub mod Updated
pub mod Created
pub mod Abandoned
pub mod Archived
pub mod Restored
pub mod Grouped
mod Tests
use incident_garden.Prelude.{
  ℕ, String, Bool, true, false, ◌&&◌, not, Option, none, some, List, [], ◌∷◌, ◌==◌, str_eq, ltb,
  if◌then◌else◌, is_empty,
}
use incident_garden.Domain.{
  Uuid, Time, Service, ServiceGroup, ServiceStatus, operational, manual, status_eq,
  ServiceStatusLogEntry,
}
use incident_garden.Store.{
  Error, Result, ok, err, slug_exists, service_not_found, service_has_active_events,
  group_has_active_events, group_has_services, Action, pure, fail, fail_if, try, finally, ◌>>=◌,
  ◌>>◌, in_tx, on_pool, begin_tx, commit, rollback, fresh_id, read_clock,
}
use incident_garden.Routine.{settle_as}
use incident_garden.Catalog.Slug.{validate_slug}
use incident_garden.Catalog.Repository.{is_service, insert_log}
use incident_garden.Catalog.Repository.Writes.{
  get_service, has_slug, insert_service, update_service_tx, set_service_groups_tx,
}
use incident_garden.Catalog.Repository.Archive.{
  archive_service, archive_group, count_service_events, count_group_events, count_group_services,
}

-- `GroupIDs` of the service is a field of its own.
pub record UpdateServiceInput : Type 0 where
  pub service : Service
  pub group_ids : List Uuid
  pub updated_by : Uuid
  pub reason : String

-- a check whose error is returned
abbrev pub check : Result (Unit {0}) → Action (Unit {0})
check r w = (r, w)

-- `errors.Is(err, ErrServiceNotFound)`
unfoldable pub is_service_not_found : Error → Bool
is_service_not_found service_not_found = true
is_service_not_found _ = false

-- the checks behind `GetServiceBySlug`
unfoldable pub check_slug_free : Result (Service × List Uuid) → Action (Unit {0})
unfolding pure fail is_service_not_found
check_slug_free (ok found) = fail slug_exists
check_slug_free (err e) = if is_service_not_found e then pure tt else fail e

unfoldable pub check_slug : String → Action (Unit {0})
unfolding get_service check_slug_free
check_slug slug = do found ← try (get_service (has_slug slug)); check_slug_free found

abbrev pub status_change : Uuid → UpdateServiceInput → Service → Time → ServiceStatusLogEntry
status_change i input old now = record {
  id = i;
  service_id = input.service.id;
  old_status = some old.status;
  new_status = input.service.status;
  source_type = manual;
  event_id = none;
  reason = input.reason;
  created_by = input.updated_by;
  created_at = now;
}

-- `if existing.Status != service.Status { … }`
unfoldable pub log_change : UpdateServiceInput → Service → Action (Unit {0})
unfolding insert_log pure
log_change input old =
    if status_eq old.status input.service.status
    then pure tt
    else (fresh_id >>= λ i.
        read_clock >>= λ now. in_tx (insert_log (status_change i input old now)))

-- the calls of the transaction
unfoldable pub update_service_body : UpdateServiceInput → Service → Action (Unit {0})
unfolding log_change update_service_tx set_service_groups_tx
update_service_body input old = do
  log_change input old
  now ← read_clock
  in_tx (update_service_tx input.service now)
  set_service_groups_tx input.service.id input.group_ids
  commit

-- `UpdateService`
unfoldable pub update_service : UpdateServiceInput → Action (Unit {0})
unfolding validate_slug get_service check_slug update_service_body
update_service input = do
  check (validate_slug input.service.slug)
  (old, _) ← get_service (is_service input.service.id)
  if str_eq old.slug input.service.slug then pure tt else check_slug input.service.slug
  begin_tx
  finally (update_service_body input old) rollback

-- `SetServiceGroups`, with a transaction of its own
unfoldable pub set_service_groups : Uuid → List Uuid → Action (Unit {0})
unfolding set_service_groups_tx
set_service_groups s gids = do begin_tx; finally (set_service_groups_tx s gids >> commit) rollback

abbrev is_unset : ServiceStatus → Bool
is_unset (ServiceStatus.other s) = str_eq s ""
is_unset _ = false

-- `if service.Status == "" { … }`
unfoldable pub or_operational : ServiceStatus → ServiceStatus
or_operational st = if is_unset st then operational else st

abbrev pub as_inserted : Uuid → Time → Service → Service
as_inserted i now service = record service {
  id = i;
  status = or_operational service.status;
  created_at = now;
  updated_at = now;
  archived_at = none;
}

-- `CreateService`, which returns the service that it was given, with its identifier
unfoldable pub create_service : Service → List Uuid → Action Service
unfolding validate_slug check_slug insert_service set_service_groups
create_service service gids = do
  check (validate_slug service.slug)
  check_slug service.slug
  i ← fresh_id
  now ← read_clock
  on_pool (insert_service (as_inserted i now service))
  if is_empty gids then pure tt else set_service_groups i gids
  pure (as_inserted i now service)

-- `DeleteService`
unfoldable pub delete_service : Uuid → Action (Unit {0})
unfolding count_service_events archive_service
delete_service s = do
  active_count ← on_pool (count_service_events s)
  fail_if (ltb 0 active_count) service_has_active_events
  archive_service s

-- `DeleteGroup`
unfoldable pub delete_group : Uuid → Action (Unit {0})
unfolding count_group_events count_group_services archive_group
delete_group g = do
  active_count ← on_pool (count_group_events g)
  fail_if (ltb 0 active_count) group_has_active_events
  service_count ← on_pool (count_group_services g)
  fail_if (ltb 0 service_count) group_has_services
  archive_group g
