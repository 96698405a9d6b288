-- ===== src/Events/Create/Row.antt =====
-- What `CreateEvent` does to the events' table.
use mathlib.Core.Path.{subst}
use incident_garden.Catalog.Repository.Reads.{get_service_status-OnTx}
use incident_garden.Prelude.{
  ℕ, String, ◌≤◌, ◌<◌, ◌≡◌, refl, sym, ap, ◌∙◌, Bool, true, ◌&&◌, List, [], ◌∷◌, arith,
}
use incident_garden.Domain.{
  Uuid, Event, ServiceStatus, AffectedService, AffectedGroup, is_valid_for_type,
}
use incident_garden.Inputs.{CreateEventInput}
use incident_garden.Store.{Db, World, rows}
use incident_garden.Store.Steps.{Step, step_rules}
use incident_garden.Store.Ids.{NextUp, id_rules}
use incident_garden.Events.Create.Ids.{
  associate_all-NextUp, associate_groups-NextUp, record_initial-NextUp,
}
use incident_garden.Store.Tables.{
  Ends-fresh_id, Ends-read_clock, DbStep, OnTx, OnTx-IsPreorder, in_tx-OnTx, on_pool-OnTx,
  fresh_id-OnTx, Ends, Ends-bind, Ends-Step, Ends-pure, Ends-weaken, Ends-if, Ends-in_tx,
  Ends-commit, Ends-notify,
}
use incident_garden.Events.Repository.{insert_event, insert_group, delete_groups}
use incident_garden.Events.Compose.Frame.{KeepsRows, KeepsRows-DbPreorder, KeepsRows-ChangeRules}
use incident_garden.Events.Compose.Steps.{log_status-Step, record_change-Step, associate_tx-Step}
use incident_garden.Events.Create.{
  Statuses, new_event, create_event_tx, associate_one, associate_all, insert_one_group,
  associate_groups, record_service, record_group, record_all, record_initial_changes_tx,
  create_body,
}

insert_group-KeepsRows : (p : Uuid × Uuid) → DbStep KeepsRows (insert_group p)
unfolding insert_group
insert_group-KeepsRows p = record { at = λ d d' a h. ground arith }

delete_groups-KeepsRows : (e : Uuid) → DbStep KeepsRows (delete_groups e)
unfolding delete_groups
delete_groups-KeepsRows e = record { at = λ d d' a h. ground arith }

ruleset row_calls = (
  step_rules, OnTx-IsPreorder, KeepsRows-DbPreorder, KeepsRows-ChangeRules, in_tx-OnTx,
  get_service_status-OnTx, on_pool-OnTx, insert_group-KeepsRows, delete_groups-KeepsRows,
  log_status-Step, record_change-Step, associate_tx-Step,
)

associate_one-KeepsRows :
    (e : Uuid) (title : String) (by : Uuid) (sids : List Uuid) (p : Uuid × ServiceStatus)
    → Step (OnTx KeepsRows) (associate_one e title by sids p)
unfolding associate_one
associate_one-KeepsRows e title by sids p = search row_calls depth 8

associate_all-KeepsRows :
    (e : Uuid) (title : String) (by : Uuid) (m : Statuses)
    → Step (OnTx KeepsRows) (associate_all e title by m)
unfolding associate_all
associate_all-KeepsRows e title by m = search (row_calls, associate_one-KeepsRows)

insert_one_group-KeepsRows :
    (e : Uuid) (g : AffectedGroup) → Step (OnTx KeepsRows) (insert_one_group e g)
unfolding insert_one_group
insert_one_group-KeepsRows e g = search row_calls

associate_groups-KeepsRows :
    (e : Uuid) (groups : List AffectedGroup) → Step (OnTx KeepsRows) (associate_groups e groups)
unfolding associate_groups
associate_groups-KeepsRows e groups = search (row_calls, insert_one_group-KeepsRows) depth 7

record_service-KeepsRows :
    (e batch by : Uuid) (a : AffectedService) → Step (OnTx KeepsRows) (record_service e batch by a)
unfolding record_service
record_service-KeepsRows e batch by a = search row_calls

record_group-KeepsRows :
    (e batch by : Uuid) (g : AffectedGroup) → Step (OnTx KeepsRows) (record_group e batch by g)
unfolding record_group
record_group-KeepsRows e batch by g = search row_calls

record_initial-KeepsRows :
    (e : Uuid) (services : List AffectedService) (groups : List AffectedGroup) (by : Uuid)
    → Step (OnTx KeepsRows) (record_initial_changes_tx e services groups by)
unfolding record_initial_changes_tx record_all
record_initial-KeepsRows e services groups by =
    search (row_calls, fresh_id-OnTx, record_service-KeepsRows, record_group-KeepsRows) depth 8

-- A row is added before the others.
pub record Inserts (input : CreateEventInput) (i : Uuid) (d d' : Db) : Type 0 where
  pub row : Event
  pub added : d'.events ≡ row ∷ d.events
  pub id : row.id ≡ i
  pub type : row.type ≡ input.type
  pub status : row.status ≡ input.status
  pub same_services : d'.services ≡ d.services

insert_event-Inserts :
    (input : CreateEventInput) (event : Event) (d d' : Db) (t : Unit {0})
    → insert_event event d ≡ rows t d'
    → event.type ≡ input.type
    → event.status ≡ input.status
    → Inserts input event.id d d'
unfolding insert_event
insert_event-Inserts input event d d' t h type status = record {
  row = record event { service_ids = []; group_ids = [] };
  added = ground arith;
  id = refl;
  type = type;
  status = status;
  same_services = ground arith;
}

create_event_tx-Inserts :
    (input : CreateEventInput) (by : Uuid) (w : World)
    → Ends
        (λ event w'. Inserts input event.id w.tx w'.tx × (event.id ≡ w.next_id))
        (create_event_tx input by)
        w
unfolding create_event_tx new_event
create_event_tx-Inserts input by w = Ends-bind _ _ w (Ends-fresh_id w) λ i u₀ s₀.
    Ends-bind _ _ u₀ (Ends-read_clock u₀) λ now u₁ s₁. Ends-bind _ _ u₁ (Ends-in_tx _ u₁) λ t u₂ s₂.
      let inserted =
        insert_event-Inserts input (new_event input by i now) u₁.tx u₂.tx t s₂ refl refl in
      let same : u₁.tx ≡ w.tx = ap (λ (x : World). x.tx) s₁ ∙ s₀.1 in
      Ends-pure _ u₂ (subst (λ d. Inserts input i d u₂.tx) same inserted, s₀.0)

Inserts-Keeps :
    (input : CreateEventInput) (i : Uuid) (a b c : Db)
    → Inserts input i a b
    → KeepsRows b c
    → Inserts input i a c
Inserts-Keeps input i a b c h k = record {
  row = h.row;
  added = k.same_events ∙ h.added;
  id = h.id;
  type = h.type;
  status = h.status;
  same_services = k.same_services ∙ h.same_services;
}

pub create_body-Inserts :
    (b : Bool) (range : Statuses → Statuses) (input : CreateEventInput) (m : Statuses) (by : Uuid)
    (w : World)
    → Ends
        (λ event w'. Inserts input event.id w.tx w'.db × (event.id ≡ w.next_id))
        (create_body b range input m by)
        w
unfolding create_body
create_body-Inserts b range input m by w =
    Ends-bind _ _ w (create_event_tx-Inserts input by w) λ event u₀ s₀.
      Ends-bind _ _ u₀ (Ends-Step _ u₀ (associate_all-KeepsRows event.id input.title by (range m)))
        λ sids u₁ s₁.
          Ends-bind _ _ u₁
            (Ends-Step _ u₁ (associate_groups-KeepsRows event.id input.affected_groups))
            λ t₂ u₂ s₂.
              Ends-bind _ _ u₂
                (Ends-Step _ u₂ (
                  record_initial-KeepsRows event.id input.affected_services input.affected_groups
                    by))
                λ t₃ u₃ s₃. Ends-bind _ _ u₃ (Ends-commit u₃) λ t₄ u₄ s₄.
                  Ends-bind {P = λ _ u₅. u₅.db ≡ u₄.db} _ _ u₄
                    (Ends-if (b && event.notify_subscribers) _ _ u₄ (λ hit. Ends-notify _ u₄)
                      (λ miss. Ends-pure tt u₄ refl))
                    λ t₅ u₅ s₅.
                      let kept =
                        KeepsRows-DbPreorder.transitive u₀.tx u₁.tx u₃.tx s₁.related (
                          KeepsRows-DbPreorder.transitive u₁.tx u₂.tx u₃.tx s₂.related
                            s₃.related) in
                      Ends-pure _ u₅ (
                        subst (Inserts input event.id w.tx) (sym (s₅ ∙ s₄))
                            (Inserts-Keeps input event.id w.tx u₀.tx u₃.tx s₀.0 kept),
                        s₀.1,
                      )

create_event_tx-next :
    (input : CreateEventInput) (by : Uuid) (w : World)
    → Ends (λ _ w'. w.next_id < w'.next_id) (create_event_tx input by) w
unfolding create_event_tx
create_event_tx-next input by w = Ends-bind _ _ w (Ends-fresh_id w) λ i u₀ s₀.
    Ends-weaken (Ends-Step {R = NextUp} _ u₀ (search id_rules depth 6))
      λ event u₁ s₁. omega (arith, s₁.at_most, s₀.2)

pub create_body-next :
    (b : Bool) (range : Statuses → Statuses) (input : CreateEventInput) (m : Statuses) (by : Uuid)
    (w : World)
    → Ends (λ _ w'. w.next_id < w'.next_id) (create_body b range input m by) w
unfolding create_body
create_body-next b range input m by w =
    Ends-bind _ _ w (create_event_tx-next input by w) λ event u₀ s₀.
      Ends-weaken
        (Ends-Step {R = NextUp} _ u₀ (
          search (id_rules, associate_all-NextUp, associate_groups-NextUp, record_initial-NextUp)
            depth 11))
        λ created u₁ s₁. omega (arith, s₁.at_most, s₀)

-- What a creation that returns has done to the events: a row of the given type and status, which fit
-- each other, stands before the others, under an identifier that none of them had.
pub record Created (input : CreateEventInput) (event : Event) (w w' : World) : Type 0 where
  pub row : Event
  pub added : w'.db.events ≡ row ∷ w.db.events
  pub id : row.id ≡ event.id
  pub type : row.type ≡ input.type
  pub status : row.status ≡ input.status
  pub fits : is_valid_for_type row.status row.type ≡ true
  pub same_services : w'.db.services ≡ w.db.services
  pub not_before : w.next_id ≤ row.id
  pub before : row.id < w'.next_id

pub Created-of :
    (input : CreateEventInput) (event : Event) (w w' : World) (next : ℕ)
    → Inserts input event.id w.db w'.db
    → event.id ≡ next
    → w.next_id ≤ next
    → next < w'.next_id
    → is_valid_for_type input.status input.type ≡ true
    → Created input event w w'
Created-of input event w w' next h i low high fits = record {
  row = h.row;
  added = h.added;
  id = h.id;
  type = h.type;
  status = h.status;
  fits = rw (h.status, h.type) fits;
  same_services = h.same_services;
  not_before = rw (h.id, i) low;
  before = rw (h.id, i) high;
}
