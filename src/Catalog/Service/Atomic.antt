-- ===== src/Catalog/Service/Atomic.antt =====
-- `UpdateService` is all or nothing.
use incident_garden.Prelude.{◌≡◌, String, Bool, Option, none, some, List, arith, find_first}
use incident_garden.Domain.{Uuid, Service}
use incident_garden.Store.{Error, Result, ok, err, Db, World, rows}
use incident_garden.Store.Steps.{Step}
use incident_garden.Store.Quiet.{
  Unseen, Unseen-IsPreorder, quiet_rules, IsRead, Atomic, Atomic-finally, Atomic-bind,
  commit-Atomic,
}
use incident_garden.Catalog.Repository.Reads.{select_service_groups-IsRead}
use incident_garden.Catalog.Repository.Writes.{
  one_row, select_service, get_service, set_service_groups_tx,
}
use incident_garden.Catalog.Service.{
  UpdateServiceInput, check, check_slug_free, check_slug, log_change, update_service_body,
  update_service,
}

one_row-IsRead :
    {A : Type 0} (o : Option A) (e : Error) (d d' : Db) (a : A) → one_row o e d ≡ rows a d' → d' ≡ d
one_row-IsRead none e d d' a h = cc
one_row-IsRead (some b) e d d' a h = ground arith

pub select_service-IsRead : (p : Service → Bool) → IsRead (select_service p)
unfolding select_service
select_service-IsRead p = record {
  at = λ d d' a h. one_row-IsRead (find_first p d.services) _ d d' a h;
}

ruleset service_calls = (quiet_rules, select_service-IsRead, select_service_groups-IsRead)

pub get_service-Unseen : (p : Service → Bool) → Step Unseen (get_service p)
unfolding get_service
get_service-Unseen p = search service_calls depth 7

pub check-Unseen : (r : Result (Unit {0})) → Step Unseen (check r)
check-Unseen r = record { at = Unseen-IsPreorder.reflexive }

check_slug_free-Unseen : (r : Result (Service × List Uuid)) → Step Unseen (check_slug_free r)
unfolding check_slug_free
check_slug_free-Unseen (ok found) = search quiet_rules
check_slug_free-Unseen (err e) = search quiet_rules

pub check_slug-Unseen : (slug : String) → Step Unseen (check_slug slug)
unfolding check_slug
check_slug-Unseen slug = search (quiet_rules, get_service-Unseen, check_slug_free-Unseen) depth 7

log_change-Unseen :
    (input : UpdateServiceInput) (old : Service) → Step Unseen (log_change input old)
unfolding log_change
log_change-Unseen input old = search quiet_rules depth 9

pub set_service_groups_tx-Unseen :
    (s : Uuid) (gids : List Uuid) → Step Unseen (set_service_groups_tx s gids)
unfolding set_service_groups_tx
set_service_groups_tx-Unseen s gids = search quiet_rules depth 7

update_service_body-Atomic :
    (input : UpdateServiceInput) (old : Service) → Atomic (update_service_body input old)
unfolding update_service_body
update_service_body-Atomic input old =
    search
      (quiet_rules, log_change-Unseen, set_service_groups_tx-Unseen, Atomic-bind, commit-Atomic)
      depth 9

update_service-Atomic_lem : (input : UpdateServiceInput) → Atomic (update_service input)
unfolding update_service
update_service-Atomic_lem input =
    search
      (
        quiet_rules, check-Unseen, get_service-Unseen, check_slug-Unseen,
        update_service_body-Atomic, Atomic-finally, Atomic-bind,
      )
      depth 9

-- An UpdateService that fails, wherever it fails and whatever the database refused, leaves the
-- committed tables as they were and sends no notice.
pub update_service-Atomic :
    (input : UpdateServiceInput) (w : World) (e : Error)
    → (update_service input w).0 ≡ err e
    → Unseen w (update_service input w).1
update_service-Atomic input = (update_service-Atomic_lem input).at
