-- ===== src/Catalog/Repository/Writes.antt =====
-- The statements of internal/catalog/postgres/repository.go that the catalog service runs, with the
-- constraints of migrations/000001 and 000006: UNIQUE (slug), CHECK check_status, and the keys of
-- service_group_members.
use incident_garden.Prelude.{
  String, Bool, ◌&&◌, not, Option, none, some, List, ◌∷◌, ◌==◌, str_eq, if◌then◌else◌, any, keep,
  find_first, update_where,
}
use incident_garden.Domain.{Uuid, Time, Service, ServiceGroup, is_valid_status}
use incident_garden.Store.{
  Error, service_not_found, group_not_found, Db, Action, pure, for_each, ◌>>=◌, ◌>>◌, Reply, rows,
  no_rows, violation, in_tx, on_pool,
}
use incident_garden.Catalog.Repository.{is_service, select_service_groups, select_group_services}

abbrev pub is_group : Uuid → ServiceGroup → Bool
is_group g row = row.id == g

abbrev pub is_member : Uuid → Uuid → Uuid × Uuid → Bool
is_member s g m = m.0 == s && m.1 == g

abbrev pub one_row : {A : Type 0} → Option A → Error → Db → Reply A
one_row none e d = no_rows e
one_row (some a) e d = rows a d

unfoldable pub select_service : (Service → Bool) → Db → Reply Service
select_service p d = one_row (find_first p d.services) service_not_found d

unfoldable pub select_group : (ServiceGroup → Bool) → Db → Reply ServiceGroup
select_group p d = one_row (find_first p d.service_groups) group_not_found d

-- `GetServiceByID`, `GetServiceBySlug`: the row, then its groups
unfoldable pub get_service : (Service → Bool) → Action (Service × List Uuid)
unfolding select_service select_service_groups
get_service p = do
  service ← on_pool (select_service p)
  gids ← on_pool (select_service_groups service.id)
  pure (service, gids)

-- `GetGroupByID`, `GetGroupBySlug`: the row, then its services
unfoldable pub get_group : (ServiceGroup → Bool) → Action (ServiceGroup × List Uuid)
unfolding select_group select_group_services
get_group p = do
  group ← on_pool (select_group p)
  sids ← on_pool (select_group_services group.id)
  pure (group, sids)

abbrev pub has_slug : String → Service → Bool
has_slug t row = str_eq row.slug t

-- `CreateService`: the row with the given identifier and time
unfoldable pub insert_service : Service → Db → Reply (Unit {0})
unfolding is_valid_status
insert_service row d =
    if not (any (has_slug row.slug) d.services) && is_valid_status row.status
    then rows tt (record d { services = row ∷ d.services })
    else violation

-- the columns that `UpdateServiceTx` sets
abbrev pub set_service : Service → Time → Service → Service
set_service service now row = record row {
  name = service.name;
  slug = service.slug;
  description = service.description;
  status = service.status;
  order = service.order;
  updated_at = now;
}

abbrev pub slug_taken : Service → List Service → Bool
slug_taken service = any λ r. not (r.id == service.id) && has_slug service.slug r

-- `UpdateServiceTx`
unfoldable pub update_service_tx : Service → Time → Db → Reply (Unit {0})
unfolding is_valid_status
update_service_tx service now d =
    if any (is_service service.id) d.services
    then if not (slug_taken service d.services) && is_valid_status service.status
      then rows tt (record d {
        services = update_where (is_service service.id) (set_service service now) d.services;
      })
      else violation
    else no_rows service_not_found

unfoldable pub delete_memberships : Uuid → Db → Reply (Unit {0})
delete_memberships s d =
    rows tt
      (record d { service_group_members = keep (λ m. not (m.0 == s)) d.service_group_members })

unfoldable pub insert_membership : Uuid → Uuid → Db → Reply (Unit {0})
insert_membership s g d =
    if any (is_service s) d.services
      && (any (is_group g) d.service_groups && not (any (is_member s g) d.service_group_members))
    then rows tt (record d { service_group_members = (s, g) ∷ d.service_group_members })
    else violation

-- `SetServiceGroupsTx`
unfoldable pub set_service_groups_tx : Uuid → List Uuid → Action (Unit {0})
unfolding delete_memberships insert_membership
set_service_groups_tx s gids = do
  in_tx (delete_memberships s)
  for_each (λ g. in_tx (insert_membership s g)) gids
