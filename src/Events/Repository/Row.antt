-- ===== src/Events/Repository/Row.antt =====
-- What `GetEvent` returns.
use incident_garden.Prelude.{◌≡◌, ◌∙◌, some, arith, find_first}
use incident_garden.Domain.{Uuid, Event}
use incident_garden.Store.{Db, World, Reply, rows}
use incident_garden.Store.Tables.{Ends, Ends-bind, Ends-pure, Ends-on_pool}
use incident_garden.Events.Repository.{
  is_event, select_event, select_service_ids, select_group_ids, get_event,
}

-- The event that is read is the committed row with the lists of its links.
pub record IsRow (e : Uuid) (event : Event) (d : Db) : Type 0 where
  pub row : Event
  pub found : find_first (is_event e) d.events ≡ some row
  pub read : event ≡ record row {
    service_ids = select_service_ids e d.event_services;
    group_ids = select_group_ids e d.event_groups;
  }

select_event-eq-rows :
    (e : Uuid) (d : Db) {event : Event} {d' : Db}
    → select_event e d ≡ rows event d'
    → (find_first (is_event e) d.events ≡ some event) × (d' ≡ d)
unfolding select_event
select_event-eq-rows e d h = (ground arith, ground arith)

rows-eq :
    {A : Type 0} (f : Db → A) (d : Db) {a : A} {d' : Db}
    → ◌≡◌ {A = Reply A} (rows (f d) d) (rows a d')
    → (a ≡ f d) × (d' ≡ d)
rows-eq f d h = (ground arith, ground arith)

pub get_event-IsRow :
    (e : Uuid) (w : World) → Ends (λ event w'. IsRow e event w.db × (w'.db ≡ w.db)) (get_event e) w
unfolding get_event
get_event-IsRow e w = Ends-bind _ _ w (Ends-on_pool (select_event e) w) λ row u₁ s₁.
    Ends-bind _ _ u₁ (Ends-on_pool (λ d. rows (select_service_ids e d.event_services) d) u₁)
      λ sids u₂ s₂.
        Ends-bind _ _ u₂ (Ends-on_pool (λ d. rows (select_group_ids e d.event_groups) d) u₂)
          λ gids u₃ s₃.
            let r₁ = select_event-eq-rows e w.db s₁ in
            let r₂ = rows-eq (λ d. select_service_ids e d.event_services) u₁.db s₂ in
            let r₃ = rows-eq (λ d. select_group_ids e d.event_groups) u₂.db s₃ in
            Ends-pure _ u₃ (
              record { row = row; found = r₁.0; read = ground (arith, r₁.1, r₂.0, r₂.1, r₃.0) },
              r₃.1 ∙ r₂.1 ∙ r₁.1,
            )
