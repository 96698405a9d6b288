-- ===== src/Catalog/Repository/Archive.antt =====
-- The statements of internal/catalog/postgres/repository.go that archive and restore, and the counts
-- that guard them.
use incident_garden.Prelude.{
  ℕ, Bool, ◌&&◌, not, Option, none, some, ◌==◌, if◌then◌else◌, is_some, any, count, update_where,
}
use incident_garden.Domain.{Uuid, Time, Service, ServiceGroup, is_active}
use incident_garden.Store.{
  Error, already_archived, not_archived, service_not_found, group_not_found, Db, Action, pure, fail,
  ◌>>=◌, Reply, rows, on_pool, read_clock,
}
use incident_garden.Events.Repository.{is_link}
use incident_garden.Catalog.Repository.{is_service}
use incident_garden.Catalog.Repository.Writes.{is_group, is_member, select_service, select_group}

-- the WHERE clauses of the updates
abbrev pub is_live_service : Uuid → Service → Bool
is_live_service s row = is_service s row && not (is_some row.archived_at)

abbrev pub is_archived_service : Uuid → Service → Bool
is_archived_service s row = is_service s row && is_some row.archived_at

abbrev pub is_live_group : Uuid → ServiceGroup → Bool
is_live_group g row = is_group g row && not (is_some row.archived_at)

abbrev pub is_archived_group : Uuid → ServiceGroup → Bool
is_archived_group g row = is_group g row && is_some row.archived_at

-- the columns that they set
abbrev pub with_archived_at : Option Time → Time → Service → Service
with_archived_at at now row = record row { archived_at = at; updated_at = now }

abbrev pub group_archived_at : Option Time → Time → ServiceGroup → ServiceGroup
group_archived_at at now row = record row { archived_at = at; updated_at = now }

-- The updates, with whether a row was affected.
unfoldable pub update_services : (Service → Bool) → (Service → Service) → Db → Reply Bool
update_services p f d =
    rows (any p d.services) (record d { services = update_where p f d.services })

unfoldable pub update_groups :
    (ServiceGroup → Bool) → (ServiceGroup → ServiceGroup) → Db → Reply Bool
update_groups p f d =
    rows (any p d.service_groups) (record d { service_groups = update_where p f d.service_groups })

-- where no row was affected: the second query says why
unfoldable pub why_service_kept : Uuid → (Option Time → Error) → Action (Unit {0})
unfolding select_service
why_service_kept s reason = do
  row ← on_pool (select_service (is_service s))
  fail (reason row.archived_at)

unfoldable pub why_group_kept : Uuid → (Option Time → Error) → Action (Unit {0})
unfolding select_group
why_group_kept g reason = do
  row ← on_pool (select_group (is_group g))
  fail (reason row.archived_at)

-- `ArchiveService`
unfoldable pub archive_service : Uuid → Action (Unit {0})
unfolding update_services why_service_kept
archive_service s = do
  now ← read_clock
  affected ← on_pool (update_services (is_live_service s) (with_archived_at (some now) now))
  if affected
      then pure tt
      else why_service_kept s (λ at. if is_some at then already_archived else service_not_found)

-- `RestoreService` of the repository
unfoldable pub restore_service : Uuid → Action (Unit {0})
unfolding update_services why_service_kept
restore_service s = do
  now ← read_clock
  affected ← on_pool (update_services (is_archived_service s) (with_archived_at none now))
  if affected
      then pure tt
      else why_service_kept s (λ at. if is_some at then service_not_found else not_archived)

-- `ArchiveGroup`
unfoldable pub archive_group : Uuid → Action (Unit {0})
unfolding update_groups why_group_kept
archive_group g = do
  now ← read_clock
  affected ← on_pool (update_groups (is_live_group g) (group_archived_at (some now) now))
  if affected
      then pure tt
      else why_group_kept g (λ at. if is_some at then already_archived else group_not_found)

-- `RestoreGroup` of the repository
unfoldable pub restore_group : Uuid → Action (Unit {0})
unfolding update_groups why_group_kept
restore_group g = do
  now ← read_clock
  affected ← on_pool (update_groups (is_archived_group g) (group_archived_at none now))
  if affected
      then pure tt
      else why_group_kept g (λ at. if is_some at then group_not_found else not_archived)

-- `GetActiveEventCountForService`: COUNT (DISTINCT e.id), and the identifier is the primary key
unfoldable pub count_service_events : Uuid → Db → Reply ℕ
unfolding is_active
count_service_events s d =
    rows (count (λ e. is_active e.status && any (is_link e.id s) d.event_services) d.events) d

-- `GetActiveEventCountForGroup`
unfoldable pub count_group_events : Uuid → Db → Reply ℕ
unfolding is_active
count_group_events g d =
    rows
      (count
        (λ e.
          is_active e.status
          && any (λ l. l.event_id == e.id && any (is_member l.service_id g) d.service_group_members)
              d.event_services)
        d.events)
      d

-- `GetNonArchivedServiceCountForGroup`
unfoldable pub count_group_services : Uuid → Db → Reply ℕ
count_group_services g d =
    rows (count (λ m. m.1 == g && any (is_live_service m.0) d.services) d.service_group_members) d
