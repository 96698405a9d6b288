-- ===== src/Catalog/Repository.antt =====
-- The statements of internal/catalog/postgres/repository.go that the event service and the status
-- page run, and the view of migrations/000015_fix_scheduled_in_effective_status.up.sql.
pub mod Reads
pub mod Status
pub mod Writes
pub mod Archive
use incident_garden.Prelude.{
  ℕ, Bool, true, false, ◌&&◌, not, Option, none, some, List, [], ◌∷◌, ◌++◌, ◌==◌, ltb, leb, map,
  if◌then◌else◌, is_some, any, keep, find_first, update_where,
}
use incident_garden.Domain.{
  Uuid, Time, Service, ServiceGroup, EventService, ServiceStatus, operational, degraded,
  partial_outage, major_outage, ServiceStatusLogEntry, is_valid_status,
}
use incident_garden.Store.{
  service_not_found, Action, pure, ◌>>=◌, on_pool, Db, Reply, rows, no_rows, violation,
}
use incident_garden.Events.Repository.{event_is_active, logs_event}

abbrev pub is_service : Uuid → Service → Bool
is_service s row = row.id == s

-- the row of `GetServiceByID`, of which `GetServiceStatus` keeps the status
unfoldable pub select_service_status : Uuid → Db → Reply ServiceStatus
select_service_status s d = elim (find_first (is_service s) d.services) [
  | none ↦ no_rows service_not_found
  | some r ↦ rows r.status d
]

-- `UpdateServiceStatusTx`: CHECK check_status
unfoldable pub update_service_status : Uuid → ServiceStatus → Time → Db → Reply (Unit {0})
unfolding is_valid_status
update_service_status s st now d =
    if any (is_service s) d.services
    then if is_valid_status st
      then rows tt (record d {
        services =
            update_where (is_service s) (λ r. record r { status = st; updated_at = now })
              d.services;
      })
      else violation
    else no_rows service_not_found

-- CHECK check_old_status, check_new_status
unfoldable pub log_check : ServiceStatusLogEntry → Bool
unfolding is_valid_status
log_check entry =
    elim entry.old_status [ none ↦ true | some st ↦ is_valid_status st ]
    && is_valid_status entry.new_status

-- `CreateStatusLogEntryTx`
unfoldable pub insert_log : ServiceStatusLogEntry → Db → Reply (Unit {0})
unfolding log_check
insert_log entry d =
    if log_check entry
    then rows tt (record d { service_status_log = d.service_status_log ++ entry ∷ [] })
    else violation

-- `DeleteStatusLogByEventIDTx`
unfoldable pub delete_log : Uuid → Db → Reply (Unit {0})
delete_log e d =
    rows tt
      (record d { service_status_log = keep (λ l. not (logs_event e l)) d.service_status_log })

-- SELECT … EXCEPT: the identifiers that a test does not accept, each once
unfoldable pub except_ids : (Uuid → Bool) → List Uuid → List Uuid
except_ids p [] = []
except_ids p (i ∷ is) =
    let rest = except_ids p is in if p i then rest else i ∷ keep (λ j. not (j == i)) rest

abbrev pub live_service : Db → Uuid → Bool
live_service d s = any (λ r. r.id == s && not (is_some r.archived_at)) d.services

abbrev pub live_group : Db → Uuid → Bool
live_group d g = any (λ r. r.id == g && not (is_some r.archived_at)) d.service_groups

-- `FindMissingServiceIDs`, `FindMissingGroupIDs`
unfoldable pub select_missing_services : List Uuid → Db → Reply (List Uuid)
unfolding except_ids
select_missing_services ids d = rows (except_ids (live_service d) ids) d

unfoldable pub select_missing_groups : List Uuid → Db → Reply (List Uuid)
unfolding except_ids
select_missing_groups ids d = rows (except_ids (live_group d) ids) d

-- ORDER BY on identifiers
insert_id : Uuid → List Uuid → List Uuid
insert_id i [] = i ∷ []
insert_id i (j ∷ js) = if leb i j then i ∷ j ∷ js else j ∷ insert_id i js

unfoldable pub sort_ids : List Uuid → List Uuid
unfolding insert_id
sort_ids [] = []
sort_ids (i ∷ is) = insert_id i (sort_ids is)

-- `SELECT group_id FROM service_group_members WHERE service_id = $1 ORDER BY group_id`
unfoldable pub select_service_groups : Uuid → Db → Reply (List Uuid)
select_service_groups s d =
    rows (sort_ids (map (λ m. m.1) (keep (λ m. m.0 == s) d.service_group_members))) d

-- `GetServiceStatus` of catalog/service.go: `GetServiceByID`, which also reads the groups
unfoldable pub get_service_status : Uuid → Action ServiceStatus
unfolding select_service_status select_service_groups
get_service_status s = do
  status ← on_pool (select_service_status s)
  gids ← on_pool (select_service_groups s)
  pure status

-- `GetGroupServices`: the members of a group, archived services included
unfoldable pub group_members : Db → Uuid → List Uuid
unfolding sort_ids
group_members d g = sort_ids (map (λ m. m.0) (keep (λ m. m.1 == g) d.service_group_members))

unfoldable pub select_group_services : Uuid → Db → Reply (List Uuid)
unfolding group_members
select_group_services g d = rows (group_members d g) d

-- `service_status_priority`
unfoldable pub service_status_priority : ServiceStatus → ℕ
service_status_priority major_outage = 4
service_status_priority partial_outage = 3
service_status_priority degraded = 2
service_status_priority ServiceStatus.maintenance = 1
service_status_priority _ = 0

-- `es.service_id = s.id AND e.status NOT IN (…)` of the view
unfoldable pub affects : Db → Uuid → EventService → Bool
unfolding event_is_active
affects d s r = r.service_id == s && event_is_active d.events r.event_id

-- ORDER BY service_status_priority(es.status) DESC LIMIT 1, among the links that affect the service
unfoldable pub worst : List EventService → Option ServiceStatus
unfolding service_status_priority
worst [] = none
worst (r ∷ rs) = elim (worst rs) [
  | none ↦ some r.status
  | some st ↦
      if ltb (service_status_priority r.status) (service_status_priority st)
      then some st
      else some r.status
]

-- COALESCE
abbrev pub or_stored : ServiceStatus → Option ServiceStatus → ServiceStatus
or_stored stored none = stored
or_stored stored (some st) = st

-- `v_service_effective_status`, for a service with a stored status
unfoldable pub effective_status : Db → Uuid → ServiceStatus → ServiceStatus
unfolding worst affects
effective_status d s stored = or_stored stored (worst (keep (affects d s) d.event_services))

unfoldable pub has_active_events : Db → Uuid → Bool
unfolding affects
has_active_events d s = any (affects d s) d.event_services

-- `GetEffectiveStatus`
unfoldable pub get_effective_status : Uuid → Db → Reply (ServiceStatus × Bool)
unfolding effective_status has_active_events
get_effective_status s d = elim (find_first (is_service s) d.services) [
  | none ↦ no_rows service_not_found
  | some r ↦ rows (effective_status d s r.status, has_active_events d s) d
]
