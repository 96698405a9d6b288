-- ===== src/Catalog/Groups.antt =====
-- `CreateGroup`, `UpdateGroup` and `UpdateGroupServices` of internal/catalog/service.go, with the
-- statements of internal/catalog/postgres/repository.go that only they run.
use incident_garden.Prelude.{
  String, Bool, true, false, ◌&&◌, not, none, List, ◌∷◌, ◌==◌, str_eq, if◌then◌else◌, any, keep,
  update_where,
}
use incident_garden.Domain.{Uuid, Time, ServiceGroup}
use incident_garden.Store.{
  Error, Result, ok, err, slug_exists, group_not_found, Db, Action, pure, fail, try, finally,
  for_each, ◌>>=◌, ◌>>◌, Reply, rows, no_rows, violation, in_tx, on_pool, begin_tx, commit,
  rollback, fresh_id, read_clock,
}
use incident_garden.Catalog.Slug.{validate_slug}
use incident_garden.Catalog.Repository.Writes.{is_group, get_group, insert_membership}
use incident_garden.Catalog.Service.{check}

abbrev group_has_slug : String → ServiceGroup → Bool
group_has_slug t row = str_eq row.slug t

-- `CreateGroup` of the repository: the row with the given identifier and time
unfoldable pub insert_service_group : ServiceGroup → Db → Reply (Unit {0})
insert_service_group row d =
    if any (group_has_slug row.slug) d.service_groups
    then violation
    else rows tt (record d { service_groups = row ∷ d.service_groups })

-- the columns that `UpdateGroup` sets
abbrev pub set_group : ServiceGroup → Time → ServiceGroup → ServiceGroup
set_group group now row = record row {
  name = group.name;
  slug = group.slug;
  description = group.description;
  order = group.order;
  updated_at = now;
}

-- `UpdateGroup` of the repository
unfoldable pub update_group_row : ServiceGroup → Time → Db → Reply (Unit {0})
update_group_row group now d =
    if any (is_group group.id) d.service_groups
    then if any (λ r. not (r.id == group.id) && group_has_slug group.slug r) d.service_groups
      then violation
      else rows tt (record d {
        service_groups = update_where (is_group group.id) (set_group group now) d.service_groups;
      })
    else no_rows group_not_found

-- `errors.Is(err, ErrGroupNotFound)`
is_group_not_found : Error → Bool
is_group_not_found group_not_found = true
is_group_not_found _ = false

-- the checks behind `GetGroupBySlug`
unfoldable pub check_group_free : Result (ServiceGroup × List Uuid) → Action (Unit {0})
unfolding pure fail is_group_not_found
check_group_free (ok found) = fail slug_exists
check_group_free (err e) = if is_group_not_found e then pure tt else fail e

unfoldable pub check_group_slug : String → Action (Unit {0})
unfolding get_group check_group_free
check_group_slug slug = do found ← try (get_group (group_has_slug slug)); check_group_free found

abbrev pub group_as_inserted : Uuid → Time → ServiceGroup → ServiceGroup
group_as_inserted i now group = record group {
  id = i;
  created_at = now;
  updated_at = now;
  archived_at = none;
}

-- `CreateGroup`, which returns the group that it was given, with its identifier
unfoldable pub create_group : ServiceGroup → Action ServiceGroup
unfolding validate_slug check_group_slug insert_service_group
create_group group = do
  check (validate_slug group.slug)
  check_group_slug group.slug
  i ← fresh_id
  now ← read_clock
  on_pool (insert_service_group (group_as_inserted i now group))
  pure (group_as_inserted i now group)

-- `UpdateGroup`
unfoldable pub update_group : ServiceGroup → Action (Unit {0})
unfolding validate_slug get_group check_group_slug update_group_row
update_group group = do
  check (validate_slug group.slug)
  (old, _) ← get_group (is_group group.id)
  if str_eq old.slug group.slug then pure tt else check_group_slug group.slug
  now ← read_clock
  on_pool (update_group_row group now)

unfoldable pub delete_group_memberships : Uuid → Db → Reply (Unit {0})
delete_group_memberships g d =
    rows tt
      (record d { service_group_members = keep (λ m. not (m.1 == g)) d.service_group_members })

-- the calls of the transaction of `SetGroupServices`
unfoldable pub set_group_body : Uuid → List Uuid → Action (Unit {0})
unfolding delete_group_memberships insert_membership
set_group_body g sids = do
  in_tx (delete_group_memberships g)
  for_each (λ s. in_tx (insert_membership s g)) sids
  commit

-- `UpdateGroupServices`, which is `SetGroupServices` of the repository
unfoldable pub update_group_services : Uuid → List Uuid → Action (Unit {0})
unfolding set_group_body
update_group_services g sids = do begin_tx; finally (set_group_body g sids) rollback
