-- ===== src/Events/History/Rows.antt =====
-- What one operation does to the rows of the events, whatever its result.
use incident_garden.Prelude.{
  ◌≤◌, ◌<◌, ◌≡◌, refl, ap, ◌⊎◌, inl, inr, Bool, false, not, some, ◌∷◌, find_first, keep,
  update_where,
}
use incident_garden.Domain.{Uuid, Event, is_resolved}
use incident_garden.Inputs.{CreateEventInput, CreateEventUpdateInput}
use incident_garden.Store.{Error, Result, ok, err, Db, World}
use incident_garden.Events.Repository.{is_event}
use incident_garden.Events.Create.{Statuses, create_event}
use incident_garden.Events.Create.Atomic.{create_event-Atomic}
use incident_garden.Events.Create.Ids.{create_event-NextUp}
use incident_garden.Events.Create.Created.{create_event-Created}
use incident_garden.Events.Update.{add_update}
use incident_garden.Events.Update.Atomic.{add_update-Atomic}
use incident_garden.Events.Update.Ids.{add_update-NextUp}
use incident_garden.Events.Update.Resolution.{add_update-Updated}
use incident_garden.Events.Delete.{delete_event}
use incident_garden.Events.Delete.Ids.{delete_event-NextUp}
use incident_garden.Events.Delete.Gone.{delete_event-DeletedBy}
use incident_garden.Events.Delete.Failure.{delete_event-Announced}
use incident_garden.Events.History.{Operation, create, update, delete, perform}

-- The ways in which the rows change.
pub data RowChange (w w' : World) : Type 0 where
  kept : w'.db.events ≡ w.db.events → RowChange w w'
  added :
      (row : Event)
      → w'.db.events ≡ row ∷ w.db.events
      → w.next_id ≤ row.id
      → row.id < w'.next_id
      → RowChange w w'
  replaced :
      (e : Uuid) (new : Event → Event) (row : Event)
      → w'.db.events ≡ update_where (is_event e) new w.db.events
      → ((r : Event) → (new r).id ≡ r.id)
      → find_first (is_event e) w.db.events ≡ some row
      → is_resolved row.status ≡ false
      → RowChange w w'
  removed : (e : Uuid) → w'.db.events ≡ keep (λ r. not (is_event e r)) w.db.events → RowChange w w'

pub record Changes (w w' : World) : Type 0 where
  pub rows : RowChange w w'
  pub next : w.next_id ≤ w'.next_id

Result-cases : {A : Type 0} (r : Result A) → ((a : A) × (r ≡ ok a)) ⊎ ((e : Error) × (r ≡ err e))
Result-cases (ok a) = inl (a, refl)
Result-cases (err e) = inr (e, refl)

create-Changes :
    (b : Bool) (range : Statuses → Statuses) (input : CreateEventInput) (by : Uuid) (w : World)
    → Changes w (create_event b range input by w).1
create-Changes b range input by w = record {
  rows = elim (Result-cases (create_event b range input by w).0) [
    | inl (event, returned) ↦
        let c =
          create_event-Created b range input by w (create_event b range input by w).1 event
            (ap (λ r. (r, (create_event b range input by w).1)) returned) in
        added c.row c.added c.not_before c.before
    | inr (e, failed) ↦
        kept (ap (λ (d : Db). d.events) (create_event-Atomic b range input by w e failed).same_db)
  ];
  next = ((create_event-NextUp b range input by).at w).at_most;
}

update-Changes :
    (b : Bool) (input : CreateEventUpdateInput) (by : Uuid) (w : World)
    → Changes w (add_update b input by w).1
update-Changes b input by w = record {
  rows = elim (Result-cases (add_update b input by w).0) [
    | inl (u, returned) ↦
        let c =
          add_update-Updated b input by w (add_update b input by w).1 u
            (ap (λ r. (r, (add_update b input by w).1)) returned) in
        replaced input.event_id c.overwrite c.row c.overwritten c.same_ids c.found c.was_open
    | inr (e, failed) ↦
        kept (ap (λ (d : Db). d.events) (add_update-Atomic b input by w e failed).same_db)
  ];
  next = ((add_update-NextUp b input by).at w).at_most;
}

delete-Changes : (b : Bool) (e : Uuid) (w : World) → Changes w (delete_event b e w).1
delete-Changes b e w = record {
  rows = elim (Result-cases (delete_event b e w).0) [
    | inl (t, returned) ↦
        let c =
          (delete_event-DeletedBy b e w).at t (delete_event b e w).1
            (ap (λ r. (r, (delete_event b e w).1)) returned) in
        removed e c.events
    | inr (x, failed) ↦
        kept (ap (λ (d : Db). d.events) (delete_event-Announced b e w x failed).same_db)
  ];
  next = ((delete_event-NextUp b e).at w).at_most;
}

-- Every operation, whatever its result.
pub perform-Changes :
    (b : Bool) (range : Statuses → Statuses) (op : Operation) (w : World)
    → Changes w (perform b range op w)
perform-Changes b range (create input by) w = create-Changes b range input by w
perform-Changes b range (update input by) w = update-Changes b input by w
perform-Changes b range (delete e) w = delete-Changes b e w
