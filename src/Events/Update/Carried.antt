-- ===== src/Events/Update/Carried.antt =====
-- The statements of `AddUpdate` before the resolution: when they return, and what they keep.
use mathlib.Core.Path.{subst}
use incident_garden.Prelude.{
  ◌≡◌, refl, sym, ap, ◌∙◌, true, some, [], ◌∷◌, ◌++◌, arith, any, find_first, update_where,
}
use incident_garden.Domain.{Uuid, Time, Event, EventUpdate}
use incident_garden.Inputs.{CreateEventUpdateInput}
use incident_garden.Store.{Db, World, rows}
use incident_garden.Store.Returns.{
  Calm, Returns, Returns-bind, Returns-pure, Returns-in_tx, Returns-on_pool, Returns-fresh_id,
  Returns-read_clock,
}
use incident_garden.Catalog.Repository.{is_service}
use incident_garden.Events.Repository.{
  is_event, set_event, severity_check, select_event, select_service_ids, select_group_ids,
  get_event, insert_update, update_event_row,
}
use incident_garden.Events.Update.{create_update_tx, update_event_tx}
use incident_garden.Events.Update.Returns.{Still}

-- The event as `GetEvent` returns it.
abbrev pub loaded : Uuid → Event → Db → Event
loaded e row d = record row {
  service_ids = select_service_ids e d.event_services;
  group_ids = select_group_ids e d.event_groups;
}

select_event-eq-rows :
    (e : Uuid) (d : Db) (row : Event)
    → find_first (is_event e) d.events ≡ some row
    → select_event e d ≡ rows row d
unfolding select_event
select_event-eq-rows e d row h = ground (arith, h)

pub get_event-Returns :
    (e : Uuid) (w : World) (row : Event)
    → Calm w
    → find_first (is_event e) w.db.events ≡ some row
    → Returns (λ event u. (event ≡ loaded e row w.db) × (u ≡ w)) (get_event e) w
unfolding get_event
get_event-Returns e w row c found =
    Returns-bind {P = λ a u. (a ≡ row) × (u ≡ w)} _ _ w
      (Returns-on_pool (select_event e) w row c (select_event-eq-rows e w.db row found))
      λ a u₀ s₀.
        let c₀ = subst Calm (sym s₀.1) c in
        Returns-bind _ _ u₀
          (Returns-on_pool (λ d. rows (select_service_ids e d.event_services) d) u₀ _ c₀ refl)
          λ sids u₁ s₁.
            let c₁ = subst Calm (sym s₁.1) c₀ in
            Returns-bind _ _ u₁
              (Returns-on_pool (λ d. rows (select_group_ids e d.event_groups) d) u₁ _ c₁ refl)
              λ gids u₂ s₂.
                Returns-pure _ u₂
                  (ground (arith, s₀.0, s₀.1, s₁.0, s₁.1, s₂.0, s₂.1), s₂.1 ∙ s₁.1 ∙ s₀.1)

-- What the transaction has kept so far.
pub record Carries (w u : World) : Type 0 where
  pub still : Still w u
  pub links : u.tx.event_services ≡ w.tx.event_services

pub record CarriesEvents (w u : World) : Type 0 where
  pub carries : Carries w u
  pub events : u.tx.events ≡ w.tx.events

pub Carries-trans : (w u v : World) → Carries w u → Carries u v → Carries w v
Carries-trans w u v h k = record {
  still = record {
    calm = k.still.calm;
    same_db = k.still.same_db ∙ h.still.same_db;
    same_rows = λ t. k.still.same_rows t ∙ h.still.same_rows t;
  };
  links = k.links ∙ h.links;
}

insert_update-eq-rows :
    (u : EventUpdate) (d : Db)
    → insert_update u d ≡ rows tt (record d { event_updates = d.event_updates ++ u ∷ [] })
unfolding insert_update
insert_update-eq-rows u d = refl

CarriesEvents-begin : (w u : World) → Calm u → u.tx ≡ w.tx → u.db ≡ w.db → CarriesEvents w u
CarriesEvents-begin w u c e f = record {
  carries = record {
    still = record {
      calm = c;
      same_db = f;
      same_rows = λ t. ap (λ (d : Db). any (is_service t) d.services) e;
    };
    links = ap (λ (d : Db). d.event_services) e;
  };
  events = ap (λ (d : Db). d.events) e;
}

pub create_update_tx-Returns :
    (input : CreateEventUpdateInput) (by : Uuid) (w : World)
    → Calm w
    → Returns (λ _ u. CarriesEvents w u) (create_update_tx input by) w
unfolding create_update_tx
create_update_tx-Returns input by w c = Returns-bind _ _ w (Returns-fresh_id w c) λ i u₀ s₀.
    Returns-bind _ _ u₀ (Returns-read_clock u₀) λ now u₁ s₁.
      let first = subst (CarriesEvents w) (sym s₁) (CarriesEvents-begin w u₀ s₀.0 s₀.1 s₀.2) in
      Returns-bind _ _ u₁
        (Returns-in_tx _ u₁ tt _ first.carries.still.calm (insert_update-eq-rows _ u₁.tx))
        λ t u₂ s₂. Returns-pure _ u₂ (
          subst (CarriesEvents w) (sym s₂.1) (record {
            carries = record {
              still = record {
                calm = record {
                  served = first.carries.still.calm.served;
                  alive = first.carries.still.calm.alive;
                };
                same_db = first.carries.still.same_db;
                same_rows = first.carries.still.same_rows;
              };
              links = first.carries.links;
            };
            events = first.events;
          }))

update_event_row-eq-rows :
    (event : Event) (now : Time) (d : Db)
    → any (is_event event.id) d.events ≡ true
    → severity_check event.severity ≡ true
    → update_event_row event now d
      ≡ rows tt
          (record d { events = update_where (is_event event.id) (set_event event now) d.events })
unfolding update_event_row
update_event_row-eq-rows event now d h k = ground (arith, h, k)

pub update_event_tx-Returns :
    (event : Event) (w : World)
    → Calm w
    → any (is_event event.id) w.tx.events ≡ true
    → severity_check event.severity ≡ true
    → Returns (λ _ u. Carries w u) (update_event_tx event) w
unfolding update_event_tx
update_event_tx-Returns event w c there checked =
    Returns-bind _ _ w (Returns-read_clock w) λ now u₀ s₀.
      let first =
        CarriesEvents-begin w u₀ (subst Calm (sym s₀) c) (ap (λ (x : World). x.tx) s₀)
          (ap (λ (x : World). x.db) s₀) in
      Returns-bind _ _ u₀
        (Returns-in_tx (update_event_row event now) u₀ tt _ first.carries.still.calm (
          update_event_row-eq-rows event now u₀.tx
            (ap (any (is_event event.id)) first.events ∙ there) checked))
        λ t u₁ s₁. Returns-pure _ u₁ (
          subst (Carries w) (sym s₁.1) (record {
            still = record {
              calm = record {
                served = first.carries.still.calm.served;
                alive = first.carries.still.calm.alive;
              };
              same_db = first.carries.still.same_db;
              same_rows = first.carries.still.same_rows;
            };
            links = first.carries.links;
          }))
