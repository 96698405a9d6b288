-- ===== src/Catalog/Repository/Reads.antt =====
-- The queries of the catalog leave the tables alone.
use incident_garden.Prelude.{arith}
use incident_garden.Domain.{Uuid}
use incident_garden.Store.{World, Db, Reply, on_pool}
use incident_garden.Store.Steps.{IsPreorder, Step, Step-bind, Step-pure}
use incident_garden.Store.Tables.{DbPreorder, OnTx, OnTx-IsPreorder, on_pool-OnTx}
use incident_garden.Store.Quiet.{Unseen, Unseen-IsPreorder, IsRead, on_pool-Unseen}
use incident_garden.Catalog.Repository.{
  select_service_status, select_service_groups, get_service_status, select_missing_services,
  select_missing_groups, select_group_services,
}
use incident_garden.Prelude.{List}

pub select_service_status-IsRead : (s : Uuid) → IsRead (select_service_status s)
unfolding select_service_status
select_service_status-IsRead s = record { at = λ d d' a h. ground arith }

pub select_missing_services-IsRead : (ids : List Uuid) → IsRead (select_missing_services ids)
unfolding select_missing_services
select_missing_services-IsRead ids = record { at = λ d d' a h. ground arith }

pub select_missing_groups-IsRead : (ids : List Uuid) → IsRead (select_missing_groups ids)
unfolding select_missing_groups
select_missing_groups-IsRead ids = record { at = λ d d' a h. ground arith }

pub select_group_services-IsRead : (g : Uuid) → IsRead (select_group_services g)
unfolding select_group_services
select_group_services-IsRead g = record { at = λ d d' a h. ground arith }

pub select_service_groups-IsRead : (s : Uuid) → IsRead (select_service_groups s)
unfolding select_service_groups
select_service_groups-IsRead s = record { at = λ d d' a h. ground arith }

-- What every query of the pool does to the state, `GetServiceStatus` does.
pub get_service_status-Step :
    {R : World → World → Type 0}
    → IsPreorder R
    → ((A : Type 0) (f : Db → Reply A) → IsRead f → Step R (on_pool f))
    → (s : Uuid) → Step R (get_service_status s)
unfolding get_service_status
get_service_status-Step p k s =
    Step-bind p _ _ (k _ _ (select_service_status-IsRead s))
      λ status. Step-bind p _ _ (k _ _ (select_service_groups-IsRead s)) λ gids. Step-pure p status

pub get_service_status-Unseen : (s : Uuid) → Step Unseen (get_service_status s)
get_service_status-Unseen s =
    get_service_status-Step Unseen-IsPreorder (λ A f read. on_pool-Unseen f read) s

pub get_service_status-OnTx :
    {R : Db → Db → Type 0} → DbPreorder R → (s : Uuid) → Step (OnTx R) (get_service_status s)
get_service_status-OnTx p s =
    get_service_status-Step (OnTx-IsPreorder p) (λ A f read. on_pool-OnTx p f) s

pub ruleset catalog_reads = (
  get_service_status-Unseen, select_missing_services-IsRead, select_missing_groups-IsRead,
  select_group_services-IsRead,
)
