-- ===== src/Catalog/Service/Abandoned.antt =====
-- What a `CreateService` that fails leaves.
use incident_garden.Prelude.{
  ◌≡◌, ap, ◌∙◌, ◌⊎◌, inl, inr, List, ◌∷◌, if◌then◌else◌, is_empty, Bool-cases,
}
use incident_garden.Domain.{Uuid, Time, Service}
use incident_garden.Store.{Error, Result, Db, World, Action, ok, err, pure, after, ◌>>=◌, on_pool}
use incident_garden.Store.Steps.{Step}
use incident_garden.Store.Quiet.{
  Unseen, Unseen-IsPreorder, quiet_rules, Atomic, Atomic-finally, Atomic-bind, Atomic-quiet,
  Atomic-pure, commit-Atomic, fresh_id-Unseen, Settled, on_pool-Settled,
}
use incident_garden.Catalog.Slug.{validate_slug}
use incident_garden.Catalog.Repository.Writes.{insert_service}
use incident_garden.Catalog.Service.{as_inserted, set_service_groups, create_service}
use incident_garden.Catalog.Service.Atomic.{
  check-Unseen, check_slug-Unseen, set_service_groups_tx-Unseen,
}
use incident_garden.Catalog.Service.Created.{insert_service-eq}

-- What a creation that fails has done at most: the row is there, without its groups.
pub record Abandons (service : Service) (w w' : World) : Type 0 where
  pub same_notices : w'.notices ≡ w.notices
  pub left :
      (w'.db ≡ w.db)
      ⊎ ((i : Uuid) × (now : Time) × (w'.db
            ≡ record w.db { services = as_inserted i now service ∷ w.db.services }))

record Falls (service : Service) {A : Type 0} (m : Action A) : Type 0 where
  at : (w : World) (x : Error) → (m w).0 ≡ err x → Abandons service w (m w).1

Unseen-Abandons : (service : Service) (w u : World) → Unseen w u → Abandons service w u
Unseen-Abandons service w u s = record { same_notices = s.same_notices; left = inl s.same_db }

Abandons-after :
    (service : Service) (u v w : World) → Unseen u v → Abandons service v w → Abandons service u w
Abandons-after service u v w s a = record {
  same_notices = a.same_notices ∙ s.same_notices;
  left = elim a.left [
    | inl same ↦ inl (same ∙ s.same_db)
    | inr (i, now, eq) ↦ inr (
      i,
      now,
      eq
          ∙ ap (λ (d : Db). record d { services = as_inserted i now service ∷ d.services })
              s.same_db,
    )
  ];
}

module _ (service : Service) {A B : Type 0} where
  after-Falls :
      (r : Result A) (f : A → Action B)
      → ((a : A) → Falls service (f a))
      → Falls service (after r f)
  unfolding after
  after-Falls (ok a) f h = record { at = (h a).at }
  after-Falls (err x) f h = record {
    at = λ w e p. Unseen-Abandons service w w (Unseen-IsPreorder.reflexive w);
  }

  bind-Falls :
      (m : Action A) (f : A → Action B)
      → Step Unseen m
      → ((a : A) → Falls service (f a))
      → Falls service (m >>= f)
  unfolding ◌>>=◌
  bind-Falls m f sm sf = record {
    at = λ w e h.
        let (r, w') = m w in
        Abandons-after service w w' (after r f w').1 (sm.at w) ((after-Falls r f sf).at w' e h);
  }

set_service_groups-Atomic : (s : Uuid) (gids : List Uuid) → Atomic (set_service_groups s gids)
unfolding set_service_groups
set_service_groups-Atomic s gids =
    search (quiet_rules, set_service_groups_tx-Unseen, Atomic-finally, Atomic-bind, commit-Atomic)
      depth 9

-- The insertion, which has answered, and what follows.
inserted-Abandons :
    (service : Service) (i : Uuid) (now : Time) {A : Type 0} (tail : Action A) (w u : World)
    (r : Result (Unit {0})) (x : Error)
    → Atomic tail
    → Settled (insert_service (as_inserted i now service)) w (r, u)
    → (after r (λ _. tail) u).0 ≡ err x
    → Abandons service w (after r (λ _. tail) u).1
unfolding after
inserted-Abandons service i now tail w u (err e) x rest (inl (_, _, same)) h =
    Unseen-Abandons service w u same
inserted-Abandons service i now tail w u (err e) x rest (inr (_, returned, _, _)) h = cc
inserted-Abandons service i now tail w u (ok t) x rest (inl (_, failed, _)) h = cc
inserted-Abandons service i now tail w u (ok t) x rest (inr (t', _, eq, silent)) h =
    let kept = rest.at u x h in
    record {
      same_notices = kept.same_notices ∙ silent;
      left = inr (
        i,
        now,
        kept.same_db ∙ (insert_service-eq (as_inserted i now service) w.db u.db t' eq).2,
      );
    }

insert-Falls :
    (service : Service) (i : Uuid) (now : Time) {A : Type 0} (tail : Action A)
    → Atomic tail
    → Falls service (on_pool (insert_service (as_inserted i now service)) >>= λ _. tail)
unfolding ◌>>=◌
insert-Falls service i now tail rest = record {
  at = λ w x h.
      let answer = on_pool (insert_service (as_inserted i now service)) w in
      inserted-Abandons service i now tail w answer.1 answer.0 x rest
        (on_pool-Settled (insert_service (as_inserted i now service)) w) h;
}

grouping-Atomic :
    (service : Service) (i : Uuid) (gids : List Uuid)
    → Atomic ((if is_empty gids then pure tt else set_service_groups i gids) >>= λ _. pure service)
grouping-Atomic service i gids = elim (Bool-cases (is_empty gids)) [
  | inl empty ↦ rw empty (Atomic-quiet _ (search quiet_rules))
  | inr given ↦
      rw given (Atomic-pure (set_service_groups i gids) service (set_service_groups-Atomic i gids))
]

create_service-Falls :
    (service : Service) (gids : List Uuid) → Falls service (create_service service gids)
unfolding create_service
create_service-Falls service gids =
    bind-Falls service _ _ (check-Unseen (validate_slug service.slug)) λ _.
      bind-Falls service _ _ (check_slug-Unseen service.slug) λ _.
        bind-Falls service _ _ fresh_id-Unseen λ i.
          bind-Falls service _ _ (search quiet_rules)
            λ now. insert-Falls service i now _ (grouping-Atomic (as_inserted i now service) i gids)

-- A CreateService that fails sends no notice and leaves the committed tables as they were, or with
-- the new service and without its groups: its two transactions are not one.
pub create_service-Abandons :
    (service : Service) (gids : List Uuid) (w : World) (x : Error)
    → (create_service service gids w).0 ≡ err x
    → Abandons service w (create_service service gids w).1
create_service-Abandons service gids = (create_service-Falls service gids).at
