-- ===== src/Catalog/Service/Updated.antt =====
-- What an `UpdateService` that returns has done.
use mathlib.Core.Path.{subst}
use incident_garden.Prelude.{
  ◌≡◌, refl, sym, ap, ◌∙◌, Bool, Option, none, some, arith, str_eq, find_first,
}
use incident_garden.Domain.{Service}
use incident_garden.Store.{Error, Db, World, Result, ok, rows}
use incident_garden.Store.Tables.{
  Ends, Ends-bind, Ends-pure, Ends-weaken, Ends-if, Ends-begin_tx, Ends-finally, Ends-on_pool,
  Ends-Step,
}
use incident_garden.Catalog.Slug.{validate_slug, trim_space, IsSlug, validate_slug-IsSlug}
use incident_garden.Catalog.Repository.{is_service, select_service_groups}
use incident_garden.Catalog.Repository.Writes.{one_row, select_service, get_service}
use incident_garden.Catalog.Service.Atomic.{check_slug-Unseen}
use incident_garden.Catalog.Service.{UpdateServiceInput, check, update_service_body, update_service}
use incident_garden.Catalog.Service.Written.{Written, update_service_body-Written}

one_row-eq-rows :
    {A : Type 0} (o : Option A) (x : Error) (d d' : Db) (a : A)
    → one_row o x d ≡ rows a d'
    → (o ≡ some a) × (d' ≡ d)
one_row-eq-rows none x d d' a h = cc
one_row-eq-rows (some b) x d d' a h = (ground arith, ground arith)

get_service-Finds :
    (p : Service → Bool) (w : World)
    → Ends (λ a u. (find_first p w.db.services ≡ some a.0) × (u.db ≡ w.db)) (get_service p) w
unfolding get_service select_service select_service_groups
get_service-Finds p w = Ends-bind _ _ w (Ends-on_pool (select_service p) w) λ row u s.
    let (found, same) = one_row-eq-rows (find_first p w.db.services) _ w.db u.db row s in
    Ends-bind _ _ u (Ends-on_pool (select_service_groups row.id) u)
      λ gids v s'. Ends-pure (row, gids) v (found, ground (arith, s') ∙ same)

pub Ends-check :
    (r : Result (Unit {0})) (w : World) → Ends (λ _ u. (r ≡ ok tt) × (u ≡ w)) (check r) w
Ends-check r w = record { at = λ a u e. (ground (arith, e), ground (arith, e)) }

-- The service was there before, and its new slug is one.
pub record Updated (input : UpdateServiceInput) (d d' : Db) : Type 0 where
  pub slug : IsSlug (trim_space input.service.slug)
  pub old : Service
  pub found : find_first (is_service input.service.id) d.services ≡ some old
  pub written : Written input old d d'

update_service-Ends :
    (input : UpdateServiceInput) (w : World)
    → Ends (λ _ u. Updated input w.db u.db) (update_service input) w
unfolding update_service
update_service-Ends input w =
    Ends-bind _ _ w (Ends-check (validate_slug input.service.slug) w) λ t₁ w₁ valid.
      Ends-bind _ _ w₁ (get_service-Finds (is_service input.service.id) w₁) λ (old, gids) w₂ there.
        Ends-bind {P = λ _ w₃. w₃.db ≡ w₂.db} _ _ w₂
          (Ends-if (str_eq old.slug input.service.slug) _ _ w₂ (λ same. Ends-pure tt w₂ refl)
            (λ new.
              Ends-weaken (Ends-Step _ w₂ (check_slug-Unseen input.service.slug))
                λ t u k. k.same_db))
          λ t₃ w₃ free. Ends-bind _ _ w₃ (Ends-begin_tx w₃) λ t₄ w₄ begun.
            let same : w₄.tx ≡ w.db = begun ∙ free ∙ there.1 ∙ ap (λ (z : World). z.db) valid.1 in
            Ends-finally (λ _ d. Updated input w.db d) (update_service_body input old) w₄
              (Ends-weaken (update_service_body-Written input old w₄) λ t₅ w₅ written. record {
                slug = (validate_slug-IsSlug input.service.slug).0 valid.0;
                old = old;
                found =
                    ap (λ (z : World). find_first (is_service input.service.id) z.db.services)
                      (sym valid.1)
                    ∙ there.0;
                written = subst (λ d. Written input old d w₅.db) same written;
              })

-- An UpdateService that returns was given a valid slug and a service that is there; it has set the
-- columns of that service and of no other, has made the given groups its groups and left every other
-- membership, and has added an entry with the old and the new status to the log exactly where they
-- differ. It has changed nothing else.
pub update_service-Updated :
    (input : UpdateServiceInput) (w w' : World) (t : Unit {0})
    → update_service input w ≡ (ok t, w')
    → Updated input w.db w'.db
update_service-Updated input w w' t h = (update_service-Ends input w).at t w' h
