-- ===== src/Events/Update/Returns.antt =====
-- When `AddUpdate` returns: the recalculation of the stored statuses.
use mathlib.Core.Path.{subst}
use incident_garden.Prelude.{
  String, ◌⊎◌, ◌≡◌, refl, sym, ap, ◌∙◌, inl, inr, Bool, true, Option, none, some, List, [], ◌∷◌,
  ◌++◌, arith, any, find_first, update_where, All, Bool-cases, Option-cases,
}
use incident_garden.Domain.{
  Uuid, Time, Service, ServiceStatus, operational, ServiceStatusLogEntry, is_valid_status,
}
use incident_garden.Store.{Db, World, rows, no_rows, service_not_found, for_each, try}
use incident_garden.Store.Returns.{
  Calm, Returns, Returns-bind, Returns-pure, Returns-weaken, Returns-in_tx, Returns-try,
  Returns-fresh_id, Returns-read_clock, Returns-if,
}
use incident_garden.Catalog.Repository.Status.{status-Returns, status_missing-Returns}
use incident_garden.Catalog.Repository.{
  is_service, select_service_status, get_service_status, update_service_status, log_check,
  insert_log,
}
use incident_garden.Events.Repository.{other_active}
use incident_garden.Events.Compose.{log_status}
use incident_garden.Events.Update.{
  known, set_operational, recalculate_one, recalculate_services_stored_status,
}

-- A calm world that has the same pool and the same services as another.
pub record Still (w u : World) : Type 0 where
  pub calm : Calm u
  pub same_db : u.db ≡ w.db
  pub same_rows : (t : Uuid) → any (is_service t) u.tx.services ≡ any (is_service t) w.tx.services

Still-trans : (w u v : World) → Still w u → Still u v → Still w v
Still-trans w u v h k = record {
  calm = k.calm;
  same_db = k.same_db ∙ h.same_db;
  same_rows = λ t. k.same_rows t ∙ h.same_rows t;
}

Still-refl : (w : World) → Calm w → Still w w
Still-refl w c = record { calm = c; same_db = refl; same_rows = λ t. refl }

Still-set :
    (w u : World) (d : Db)
    → Calm w
    → u ≡ record w { tx = d }
    → ((t : Uuid) → any (is_service t) d.services ≡ any (is_service t) w.tx.services)
    → Still w u
Still-set w u d c e h =
    subst (Still w) (sym e) (record {
      calm = record { served = c.served; alive = c.alive };
      same_db = refl;
      same_rows = h;
    })

Still-eq : (w u : World) → Calm w → u ≡ w → Still w u
Still-eq w u c e = subst (Still w) (sym e) (Still-refl w c)

abbrev pub AllValid : List Service → Type 0
AllValid = All λ row. is_valid_status row.status ≡ true

abbrev pub old_is_valid : Option ServiceStatus → Bool
old_is_valid none = true
old_is_valid (some st) = is_valid_status st

insert_log-eq-rows :
    (l : ServiceStatusLogEntry) (d : Db)
    → log_check l ≡ true
    → insert_log l d ≡ rows tt (record d { service_status_log = d.service_status_log ++ l ∷ [] })
unfolding insert_log
insert_log-eq-rows l d h = ground (arith, h)

log_check-new :
    (l : ServiceStatusLogEntry)
    → old_is_valid l.old_status ≡ true
    → is_valid_status l.new_status ≡ true
    → log_check l ≡ true
unfolding log_check
log_check-new l h k = elim (Option-cases l.old_status) [
  | inl missing ↦ ground (arith, missing, k)
  | inr (st, there) ↦ ground (arith, there, h, k)
]

log_status-Returns :
    (s : Uuid) (old : Option ServiceStatus) (new : ServiceStatus) (e : Uuid) (reason : String)
    (by : Uuid) (w : World)
    → Calm w
    → old_is_valid old ≡ true
    → is_valid_status new ≡ true
    → Returns (λ _ u. Still w u) (log_status s old new e reason by) w
unfolding log_status
log_status-Returns s old new e reason by w c h k =
    Returns-bind _ _ w (Returns-fresh_id w c) λ i u₀ s₀.
      Returns-bind _ _ u₀ (Returns-read_clock u₀) λ now u₁ s₁.
        let still : Still w u₁ = subst (Still w) (sym s₁) (record {
          calm = s₀.0;
          same_db = s₀.2;
          same_rows = λ t. ap (λ (d : Db). any (is_service t) d.services) s₀.1;
        }) in
        Returns-weaken
          (Returns-in_tx _ u₁ tt _ still.calm (insert_log-eq-rows _ u₁.tx (log_check-new _ h k)))
          λ t u₂ s₂. Still-trans w u₁ u₂ still (Still-set u₁ u₂ _ still.calm s₂.1 (λ t'. refl))

find-Valid :
    (s : Uuid) (xs : List Service) (row : Service)
    → AllValid xs
    → find_first (is_service s) xs ≡ some row
    → is_valid_status row.status ≡ true
find-Valid s [] row v h = cc
find-Valid s (x ∷ xs) row (v, vs) h = elim (Bool-cases (is_service s x)) [
  | inl hit ↦ ground (arith, hit, h, v)
  | inr miss ↦ find-Valid s xs row vs (ground (arith, h, miss))
]

select-cases :
    (s : Uuid) (d : Db)
    → AllValid d.services
    → (select_service_status s d ≡ no_rows service_not_found)
      ⊎ ((st : ServiceStatus) × (select_service_status s d ≡ rows st d)
          × (is_valid_status st ≡ true))
unfolding select_service_status
select-cases s d v = elim (Option-cases (find_first (is_service s) d.services)) [
  | inl missing ↦ inl (ground (arith, missing))
  | inr (row, found) ↦ inr (row.status, ground (arith, found), find-Valid s d.services row v found)
]

-- The old status that is logged, where there is one, is a valid one.
try_status-Returns :
    (s : Uuid) (w : World)
    → Calm w
    → AllValid w.db.services
    → Returns (λ old u. (old_is_valid (known old) ≡ true) × (u ≡ w)) (try (get_service_status s)) w
try_status-Returns s w c v = elim (select-cases s w.db v) [
  | inl missing ↦
      Returns-weaken (status_missing-Returns s w service_not_found c missing)
        λ old u h. (ap (λ r. old_is_valid (known r)) h.0, h.1)
  | inr (st, found, valid) ↦
      Returns-weaken (Returns-try _ w (status-Returns s w st c found))
        λ old u (a, returned, (same, kept)).
          (ap (λ r. old_is_valid (known r)) returned ∙ ap is_valid_status same ∙ valid, kept)
]

any_service-update :
    (s t : Uuid) (st : ServiceStatus) (now : Time) (xs : List Service)
    → any
        (is_service t)
        (update_where (is_service s) (λ r. record r { status = st; updated_at = now }) xs)
      ≡ any (is_service t) xs
any_service-update s t st now [] = refl
any_service-update s t st now (x ∷ xs) =
    ground (arith, any_service-update s t st now xs, Bool-cases (is_service s x))

update_service_status-eq-rows :
    (s : Uuid) (st : ServiceStatus) (now : Time) (d : Db)
    → any (is_service s) d.services ≡ true
    → is_valid_status st ≡ true
    → update_service_status s st now d
      ≡ rows tt (record d {
        services =
            update_where
              (is_service s)
              (λ r. record r { status = st; updated_at = now })
              d.services;
      })
unfolding update_service_status
update_service_status-eq-rows s st now d h k = ground (arith, h, k)

operational-valid : is_valid_status operational ≡ true
unfolding is_valid_status
operational-valid = refl

set_operational-Returns :
    (s e by : Uuid) (w : World)
    → Calm w
    → AllValid w.db.services
    → any (is_service s) w.tx.services ≡ true
    → Returns (λ _ u. Still w u) (set_operational s e by) w
unfolding set_operational
set_operational-Returns s e by w c v there =
    Returns-bind _ _ w (try_status-Returns s w c v) λ old u₀ s₀.
      Returns-bind _ _ u₀ (Returns-read_clock u₀) λ now u₁ s₁.
        let first = Still-eq w u₁ c (s₁ ∙ s₀.1) in
        Returns-bind _ _ u₁
          (Returns-in_tx (update_service_status s operational now) u₁ tt _ first.calm (
            update_service_status-eq-rows s operational now u₁.tx (first.same_rows s ∙ there)
              (unfold is_valid_status in refl)))
          λ t u₂ s₂.
            let second =
              Still-set u₁ u₂ _ first.calm s₂.1
                (λ t'. any_service-update s t' operational now u₁.tx.services) in
            Returns-weaken
              (log_status-Returns s (known old) operational e
                "Event resolved, no other active events" by u₂ second.calm s₀.0 operational-valid)
              λ t' u₃ third. Still-trans w u₁ u₃ first (Still-trans u₁ u₂ u₃ second third)

recalculate_one-Returns :
    (e by s : Uuid) (w : World)
    → Calm w
    → AllValid w.db.services
    → any (is_service s) w.tx.services ≡ true
    → Returns (λ _ u. Still w u) (recalculate_one e by s) w
unfolding recalculate_one
recalculate_one-Returns e by s w c v there =
    Returns-bind _ _ w
      (Returns-in_tx (λ d. rows (other_active s e d) d) w (other_active s e w.tx) w.tx c refl)
      λ has_other u₀ s₀.
        let first = Still-set w u₀ w.tx c s₀.1 (λ t. refl) in
        Returns-if has_other _ _ u₀ (λ hit. Returns-pure tt u₀ first)
          (λ miss.
            Returns-weaken
              (set_operational-Returns s e by u₀ first.calm
                (subst (λ (d : Db). AllValid d.services) (sym first.same_db) v)
                (first.same_rows s ∙ there))
              λ t u₁ second. Still-trans w u₀ u₁ first second)

-- The services that a list names are there.
abbrev pub Present : Db → List Uuid → Type 0
Present d = All λ s. any (is_service s) d.services ≡ true

pub Present-Still : (w u : World) (ss : List Uuid) → Still w u → Present w.tx ss → Present u.tx ss
Present-Still w u [] h p = tt
Present-Still w u (s ∷ ss) h (p, ps) = (h.same_rows s ∙ p, Present-Still w u ss h ps)

pub recalculate-Returns :
    (ss : List Uuid) (e by : Uuid) (w : World)
    → Calm w
    → AllValid w.db.services
    → Present w.tx ss
    → Returns (λ _ u. Still w u) (recalculate_services_stored_status ss e by) w
unfolding recalculate_services_stored_status for_each
recalculate-Returns [] e by w c v p = Returns-pure tt w (Still-refl w c)
recalculate-Returns (s ∷ ss) e by w c v (p, ps) =
    Returns-bind _ _ w (recalculate_one-Returns e by s w c v p) λ t u first.
      Returns-weaken
        (recalculate-Returns ss e by u first.calm
          (subst (λ (d : Db). AllValid d.services) (sym first.same_db) v)
          (Present-Still w u ss first ps))
        λ t' u' rest. Still-trans w u u' first rest
