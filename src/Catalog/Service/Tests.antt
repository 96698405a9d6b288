-- ===== src/Catalog/Service/Tests.antt =====
-- The catalog's operations on a small catalog, and the theorems there.
use incident_garden.Prelude.{◌≡◌, refl, none, some, List, [], ◌∷◌}
use incident_garden.Domain.{Service, Uuid, ServiceGroup, operational, degraded, status_eq}
use incident_garden.Store.{
  Db, World, ok, err, db_failure, slug_exists, in_tx, on_pool, begin_tx, commit, rollback, fresh_id,
  read_clock, pure, fail, fail_if, try, finally, for_each, ◌>>=◌,
}
use incident_garden.Events.Samples.{page, service_row, world}
use incident_garden.Store.Quiet.{Unseen}
use incident_garden.Catalog.Slug.{validate_slug, trim_space, IsSlug, validate_slug-IsSlug}
use incident_garden.Catalog.Repository.Archive.{restore_service}
use incident_garden.Catalog.Service.{
  UpdateServiceInput, or_operational, create_service, update_service, delete_service, delete_group,
}
use incident_garden.Catalog.Groups.{create_group, update_group_services}
use incident_garden.Catalog.Service.Atomic.{update_service-Atomic}
use incident_garden.Catalog.Service.Updated.{Updated, update_service-Updated}
use incident_garden.Catalog.Service.Archived.{Deleted, delete_service-Archives}
use incident_garden.Catalog.Service.Created.{Created, create_service-Created}
use incident_garden.Catalog.Service.Abandoned.{Abandons, create_service-Abandons}
use incident_garden.Catalog.Service.Restored.{delete_service-restore}
use incident_garden.Catalog.Service.Grouped.{GroupDeleted, delete_group-Archives}

validate_slug-IsSlug_example :
    (validate_slug " api-v2\n" ≡ ok tt → IsSlug (trim_space " api-v2\n"))
    × (IsSlug (trim_space " api-v2\n") → validate_slug " api-v2\n" ≡ ok tt)
validate_slug-IsSlug_example = validate_slug-IsSlug " api-v2\n"

accepted : validate_slug " api-v2\n" ≡ ok tt
unfolding validate_slug
accepted = refl

abbrev group_row : Uuid → ServiceGroup
group_row i = record {
  id = i;
  name = "group";
  slug = "group";
  description = "";
  order = 0;
  created_at = 1;
  updated_at = 1;
  archived_at = none;
}

-- Service 10 is in an incident and in group 5, 12 is live and idle, 13 is archived and in group 6.
abbrev shelf : Db
shelf = record page {
  services =
      service_row 10 degraded
      ∷ service_row 12 operational
      ∷ record (service_row 13 operational) { archived_at = some 9 }
      ∷ [];
  service_groups = group_row 5 ∷ group_row 6 ∷ [];
  service_group_members = (10, 5) ∷ (13, 6) ∷ [];
}

abbrev shop : World
shop = record (world []) { db = shelf; tx = shelf }

abbrev renamed : List Uuid → UpdateServiceInput
renamed gids = record {
  service = record (service_row 10 operational) { slug = "api" };
  group_ids = gids;
  updated_by = 90;
  reason = "fixed by hand";
}

abbrev after_update : World
after_update = (update_service (renamed (5 ∷ 6 ∷ [])) shop).1

update_returns : update_service (renamed (5 ∷ 6 ∷ [])) shop ≡ (ok tt, after_update)
unfolding update_service in_tx on_pool begin_tx commit rollback fresh_id read_clock pure fail try
    finally for_each ◌>>=◌ status_eq
update_returns = refl

update_service-Updated_example : Updated (renamed (5 ∷ 6 ∷ [])) shelf after_update.db
update_service-Updated_example =
    update_service-Updated (renamed (5 ∷ 6 ∷ [])) shop after_update tt update_returns

-- There is no group 7: the last statement violates a foreign key.
update_fails : (update_service (renamed (5 ∷ 7 ∷ [])) shop).0 ≡ err db_failure
unfolding update_service in_tx on_pool begin_tx commit rollback fresh_id read_clock pure fail try
    finally for_each ◌>>=◌ status_eq
update_fails = refl

update_service-Atomic_example : Unseen shop (update_service (renamed (5 ∷ 7 ∷ [])) shop).1
update_service-Atomic_example =
    update_service-Atomic (renamed (5 ∷ 7 ∷ [])) shop db_failure update_fails

abbrev new_row : Service
new_row = record (service_row 0 operational) { slug = "cdn" }

abbrev after_creation : World
after_creation = (create_service new_row (5 ∷ []) shop).1

abbrev created_row : Service
created_row = record new_row { id = 1000; created_at = 100; updated_at = 100 }

creation_returns : create_service new_row (5 ∷ []) shop ≡ (ok created_row, after_creation)
unfolding create_service in_tx on_pool begin_tx commit rollback fresh_id read_clock pure fail try
    finally for_each ◌>>=◌ or_operational
creation_returns = refl

create_service-Created_example : Created new_row (5 ∷ []) created_row shelf after_creation.db
create_service-Created_example =
    create_service-Created new_row (5 ∷ []) shop after_creation created_row creation_returns

-- There is no group 7: the service is there all the same.
creation_fails : (create_service new_row (7 ∷ []) shop).0 ≡ err db_failure
unfolding create_service in_tx on_pool begin_tx commit rollback fresh_id read_clock pure fail try
    finally for_each ◌>>=◌ or_operational
creation_fails = refl

left_behind : (create_service new_row (7 ∷ []) shop).1.db.services ≡ created_row ∷ shelf.services
unfolding create_service in_tx on_pool begin_tx commit rollback fresh_id read_clock pure fail try
    finally for_each ◌>>=◌ or_operational
left_behind = refl

create_service-Abandons_example : Abandons new_row shop (create_service new_row (7 ∷ []) shop).1
create_service-Abandons_example =
    create_service-Abandons new_row (7 ∷ []) shop db_failure creation_fails

abbrev after_archiving : World
after_archiving = (delete_service 12 shop).1

archiving_returns : delete_service 12 shop ≡ (ok tt, after_archiving)
unfolding delete_service on_pool read_clock pure fail_if ◌>>=◌
archiving_returns = refl

delete_service-Archives_example : Deleted 12 shelf after_archiving.db
delete_service-Archives_example =
    delete_service-Archives 12 shop after_archiving tt archiving_returns

delete_service-restore_example :
    restore_service 12 (record after_archiving { faults = []; now = 400 }) ≡ (
      ok tt,
      record after_archiving {
        faults = [];
        now = 400;
        db = record shelf {
          services =
              service_row 10 degraded
              ∷ record (service_row 12 operational) { updated_at = 400 }
              ∷ record (service_row 13 operational) { archived_at = some 9 }
              ∷ [];
        };
      },
    )
delete_service-restore_example =
    delete_service-restore 12 shop after_archiving tt 400 refl archiving_returns

abbrev without_group : World
without_group = (delete_group 6 shop).1

group_archiving_returns : delete_group 6 shop ≡ (ok tt, without_group)
unfolding delete_group on_pool read_clock pure fail_if ◌>>=◌
group_archiving_returns = refl

delete_group-Archives_example : GroupDeleted 6 shelf without_group.db
delete_group-Archives_example =
    delete_group-Archives 6 shop without_group tt group_archiving_returns

-- The slug of the groups 5 and 6 is not free, and no group is created.
group_slug_taken : create_group (group_row 9) shop ≡ (err slug_exists, shop)
unfolding create_group on_pool try fail ◌>>=◌
group_slug_taken = refl

abbrev regrouped : World
regrouped = (update_group_services 6 (10 ∷ 12 ∷ []) shop).1

-- The services of group 6 are replaced; the members of group 5 stay.
group_services_set : regrouped.db.service_group_members ≡ (12, 6) ∷ (10, 6) ∷ (10, 5) ∷ []
unfolding update_group_services in_tx begin_tx commit rollback pure finally for_each ◌>>=◌
group_services_set = refl
