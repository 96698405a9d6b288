-- ===== src/Catalog/Repository/Status.antt =====
-- What `GetServiceStatus` returns where the server refuses nothing.
use incident_garden.Prelude.{◌≡◌, refl}
use incident_garden.Domain.{Uuid, ServiceStatus}
use incident_garden.Store.{Error, err, World, rows, no_rows, pure, try, ◌>>=◌, on_pool}
use incident_garden.Store.Returns.{Calm, Returns}
use incident_garden.Catalog.Repository.{select_service_status, get_service_status}

-- A service that is there.
pub status-Returns :
    (s : Uuid) (w : World) (st : ServiceStatus)
    → Calm w
    → select_service_status s w.db ≡ rows st w.db
    → Returns (λ b u. (b ≡ st) × (u ≡ w)) (get_service_status s) w
unfolding get_service_status on_pool ◌>>=◌ pure
status-Returns s w st c found = record {
  value = st;
  after_it = w;
  runs = rw (c.served, found) refl;
  holds = (refl, refl);
}

-- One that is not: tried, the error is the value.
pub status_missing-Returns :
    (s : Uuid) (w : World) (e : Error)
    → Calm w
    → select_service_status s w.db ≡ no_rows e
    → Returns (λ r u. (r ≡ err e) × (u ≡ w)) (try (get_service_status s)) w
unfolding get_service_status try on_pool ◌>>=◌ pure
status_missing-Returns s w e c missing = record {
  value = err e;
  after_it = w;
  runs = rw (c.served, missing) refl;
  holds = (refl, refl);
}
