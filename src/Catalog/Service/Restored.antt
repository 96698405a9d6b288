-- ===== src/Catalog/Service/Restored.antt =====
-- `RestoreService` behind `DeleteService`.
use incident_garden.Prelude.{
  ◌≡◌, refl, ap, ◌∙◌, inl, inr, true, false, none, some, List, [], ◌∷◌, arith, ◌==◌, is_some, any,
  update_where, Bool-cases,
}
use incident_garden.Domain.{Uuid, Time, Service}
use incident_garden.Store.{Db, World, ok, pure, ◌>>=◌, on_pool, read_clock}
use incident_garden.Catalog.Repository.{is_service}
use incident_garden.Catalog.Repository.Archive.{
  is_live_service, is_archived_service, with_archived_at, update_services, restore_service,
}
use incident_garden.Catalog.Service.{delete_service}
use incident_garden.Catalog.Service.Archived.{delete_service-Archives}

archived_there :
    (s : Uuid) (now : Time) (rs : List Service)
    → any (is_live_service s) rs ≡ true
    → any
        (is_archived_service s)
        (update_where (is_live_service s) (with_archived_at (some now) now) rs)
      ≡ true
archived_there s now [] h = h
archived_there s now (r ∷ rs) h = elim (Bool-cases (is_live_service s r)) [
  | inl hit ↦ rw hit (ground (arith, hit))
  | inr miss ↦ rw miss (ground (arith, archived_there s now rs (ground (arith, miss, h))))
]

undone :
    (s : Uuid) (now later : Time) (rs : List Service)
    → any (is_archived_service s) rs ≡ false
    → update_where
        (is_archived_service s)
        (with_archived_at none later)
        (update_where (is_live_service s) (with_archived_at (some now) now) rs)
      ≡ update_where (is_service s) (with_archived_at none later) rs
undone s now later [] h = refl
undone s now later (r ∷ rs) h = elim (Bool-cases (is_live_service s r)) [
  | inl hit ↦
      let own : (r.id == s) ≡ true = ground (arith, hit) in
      rw (hit, own)
        (ap (λ rest. with_archived_at none later r ∷ rest)
          (undone s now later rs (ground (arith, own, h))))
  | inr miss ↦
      let other : (r.id == s) ≡ false =
        ground (arith, miss, h, Bool-cases (r.id == s), Bool-cases (is_some r.archived_at)) in
      rw (miss, other) (ap (λ rest. r ∷ rest) (undone s now later rs (ground (arith, other, h))))
]

restore_runs :
    (s : Uuid) (w : World) (later : Time)
    → any (is_archived_service s) w.db.services ≡ true
    → restore_service s (record w { faults = []; now = later }) ≡ (
      ok tt,
      record w {
        faults = [];
        now = later;
        db = record w.db {
          services =
              update_where (is_archived_service s) (with_archived_at none later) w.db.services;
        };
      },
    )
unfolding restore_service read_clock on_pool ◌>>=◌ pure update_services
restore_runs s w later h = rw h refl

-- Where no archived row has the identifier: after a DeleteService that returns, a RestoreService that
-- the server does not refuse returns, at any time, and the committed tables are those from before the
-- deletion, except that the service carries the time of the restoring.
pub delete_service-restore :
    (s : Uuid) (w w' : World) (t : Unit {0}) (later : Time)
    → any (is_archived_service s) w.db.services ≡ false
    → delete_service s w ≡ (ok t, w')
    → restore_service s (record w' { faults = []; now = later }) ≡ (
      ok tt,
      record w' {
        faults = [];
        now = later;
        db = record w.db {
          services = update_where (is_service s) (with_archived_at none later) w.db.services;
        };
      },
    )
delete_service-restore s w w' t later fresh h =
    let a = (delete_service-Archives s w w' t h).archives in
    let there : any (is_archived_service s) w'.db.services ≡ true =
      ap (λ d. any (is_archived_service s) d.services) a.archived
      ∙ archived_there s a.now w.db.services a.was_live in
    restore_runs s w' later there
    ∙ ap (λ d. (ok tt, record w' { faults = []; now = later; db = d }))
        (ap
            (λ (d : Db). record d {
              services =
                  update_where (is_archived_service s) (with_archived_at none later) d.services;
            })
            a.archived
          ∙ ap (λ rows. record w.db { services = rows }) (undone s a.now later w.db.services fresh))
