-- ===== src/Catalog/Service/Created.antt =====
-- What a `CreateService` that returns has done.
use mathlib.Core.Path.{subst}
use incident_garden.Prelude.{
  ◌≡◌, refl, sym, ap, ◌∙◌, ◌⊎◌, inl, inr, true, false, List, ◌∷◌, arith, any, is_empty,
}
use incident_garden.Domain.{Uuid, Time, Service, is_valid_status}
use incident_garden.Store.{Db, World, ok, rows, ◌>>=◌, commit, fresh_id}
use incident_garden.Store.Quiet.{fresh_id-Unseen}
use incident_garden.Store.Tables.{
  Ends, Ends-bind, Ends-pure, Ends-weaken, Ends-if, Ends-begin_tx, Ends-finally, Ends-on_pool,
  Ends-commit, Ends-Step, Ends-read_clock,
}
use incident_garden.Catalog.Slug.{validate_slug, trim_space, IsSlug, validate_slug-IsSlug}
use incident_garden.Catalog.Repository.Writes.{has_slug, insert_service, set_service_groups_tx}
use incident_garden.Catalog.Service.{
  as_inserted, or_operational, set_service_groups, create_service,
}
use incident_garden.Catalog.Service.Atomic.{check_slug-Unseen}
use incident_garden.Catalog.Service.Regrouped.{Regroups, Replaces, replace_all}
use incident_garden.Catalog.Service.Updated.{Ends-check}

set_service_groups-Replaces :
    (s : Uuid) (gids : List Uuid) (w : World)
    → Ends (λ _ u. Replaces s gids w.db u.db) (set_service_groups s gids) w
unfolding set_service_groups
set_service_groups-Replaces s gids w = Ends-bind _ _ w (Ends-begin_tx w) λ t u begun.
    Ends-finally (λ _ d. Replaces s gids w.db d) (set_service_groups_tx s gids >>= λ _. commit) u
      (Ends-bind _ _ u (replace_all s gids u) λ t' v replaced.
        Ends-weaken (Ends-commit v) λ t'' x done.
          subst (λ d. Replaces s gids d x.db) begun
            (subst (Replaces s gids u.tx) (sym done) replaced))

pub insert_service-eq :
    (row : Service) (d d' : Db) (t : Unit {0})
    → insert_service row d ≡ rows t d'
    → (any (has_slug row.slug) d.services ≡ false)
      × (is_valid_status row.status ≡ true)
      × (d' ≡ record d { services = row ∷ d.services })
unfolding insert_service
insert_service-eq row d d' t h = (ground (arith, h), ground (arith, h), ground (arith, h))

-- The row before the others, and what the groups of the service are then.
pub record Created (service : Service) (gids : List Uuid) (created : Service) (d d' : Db)
    : Type 0 where
  pub slug : IsSlug (trim_space service.slug)
  pub unused : any (has_slug service.slug) d.services ≡ false
  pub valid : is_valid_status created.status ≡ true
  pub given :
      (created.name ≡ service.name)
      × (created.slug ≡ service.slug)
      × (created.description ≡ service.description)
      × (created.status ≡ or_operational service.status)
      × (created.order ≡ service.order)
  pub services : d'.services ≡ created ∷ d.services
  pub groups :
      ((d'.service_group_members ≡ d.service_group_members) × (is_empty gids ≡ true))
      ⊎ Regroups created.id gids d d'
  pub others :
      d' ≡ record d { services = d'.services; service_group_members = d'.service_group_members }

-- What setting the groups, where some are given, has done.
abbrev Grouped : Uuid → List Uuid → Db → Db → Type 0
Grouped i gids d d' = ((d' ≡ d) × (is_empty gids ≡ true)) ⊎ Replaces i gids d d'

Created-of :
    (service : Service) (gids : List Uuid) (i : Uuid) (now : Time) (d d₁ d₂ : Db)
    → IsSlug (trim_space service.slug)
    → any (has_slug service.slug) d.services ≡ false
    → is_valid_status (or_operational service.status) ≡ true
    → d₁ ≡ record d { services = as_inserted i now service ∷ d.services }
    → Grouped i gids d₁ d₂
    → Created service gids (as_inserted i now service) d d₂
Created-of service gids i now d d₁ d₂ slug unused valid e g = record {
  slug = slug;
  unused = unused;
  valid = valid;
  given = (refl, refl, refl, refl, refl);
  services = elim g [
    | inl (same, _) ↦ ap (λ (z : Db). z.services) (same ∙ e)
    | inr r ↦ ap (λ (z : Db). z.services) r.others ∙ ap (λ (z : Db). z.services) e
  ];
  groups = elim g [
    | inl (same, empty) ↦ inl (ap (λ (z : Db). z.service_group_members) (same ∙ e), empty)
    | inr r ↦ inr (subst (λ z. Regroups i gids z d₂) e r.groups)
  ];
  others = elim g [ inl (same, _) ↦ ground (arith, same, e) | inr r ↦ ground (arith, r.others, e) ];
}

create_service-Ends :
    (service : Service) (gids : List Uuid) (w : World)
    → Ends (λ created u. Created service gids created w.db u.db) (create_service service gids) w
unfolding create_service
create_service-Ends service gids w =
    Ends-bind _ _ w (Ends-check (validate_slug service.slug) w) λ t₁ w₁ valid.
      Ends-bind _ _ w₁ (Ends-Step _ w₁ (check_slug-Unseen service.slug)) λ t₂ w₂ free.
        Ends-bind _ _ w₂ (Ends-Step fresh_id w₂ fresh_id-Unseen) λ i w₃ drawn.
          Ends-bind _ _ w₃ (Ends-read_clock w₃) λ now w₄ read.
            Ends-bind _ _ w₄ (Ends-on_pool (insert_service (as_inserted i now service)) w₄)
              λ t₅ w₅ inserted.
                let base : w₄.db ≡ w.db =
                  ap (λ (z : World). z.db) read
                  ∙ drawn.same_db
                  ∙ free.same_db
                  ∙ ap (λ (z : World). z.db) valid.1 in
                let (unused, status, eq) =
                  insert_service-eq (as_inserted i now service) w.db w₅.db t₅
                    (ap (insert_service (as_inserted i now service)) (sym base) ∙ inserted) in
                Ends-bind {P = λ _ u. Grouped i gids w₅.db u.db} _ _ w₅
                  (Ends-if (is_empty gids) _ _ w₅
                    (λ none_given. Ends-pure tt w₅ (inl (refl, none_given)))
                    (λ given. Ends-weaken (set_service_groups-Replaces i gids w₅) λ t u r. inr r))
                  λ t₆ w₆ grouped. Ends-pure (as_inserted i now service) w₆ (
                    Created-of service gids i now w.db w₅.db w₆.db
                      ((validate_slug-IsSlug service.slug).0 valid.0) unused status eq grouped)

-- A CreateService that returns was given a valid slug that no service had; it has put a service with
-- the given columns, operational where no status is given, before the others, with the given groups,
-- and has changed nothing else.
pub create_service-Created :
    (service : Service) (gids : List Uuid) (w w' : World) (created : Service)
    → create_service service gids w ≡ (ok created, w')
    → Created service gids created w.db w'.db
create_service-Created service gids w w' created h =
    (create_service-Ends service gids w).at created w' h
