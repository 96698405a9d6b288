-- ===== src/Events/Update/Resolution.antt =====
-- The contract of `AddUpdate`.
use mathlib.Core.Path.{subst}
use incident_garden.Prelude.{
  ◌≡◌, refl, sym, ap, ◌∙◌, inl, inr, Bool, Bool-cases, true, false, ◌&&◌, not, Option, none, some,
  List, [], ◌∷◌, arith, ◌==◌, if◌then◌else◌, any, find_first, update_where, ==_iff, is_some,
}
use incident_garden.Domain.{
  Uuid, Time, Event, EventUpdate, is_resolved, is_active, is_valid_for_type,
}
use incident_garden.Inputs.{CreateEventUpdateInput}
use incident_garden.Store.{Db, World, ok}
use incident_garden.Store.Tables.{
  Ends, Ends-bind, Ends-Step, Ends-weaken, Ends-fail_if, Ends-begin_tx, Ends-finally,
}
use incident_garden.Events.Repository.{is_event, set_event, event_is_active}
use incident_garden.Events.Repository.Row.{IsRow, get_event-IsRow}
use incident_garden.Events.Compose.Quiet.{Unseen-ChangeRules}
use incident_garden.Events.Compose.Steps.{validate-Step}
use incident_garden.Events.Update.{apply_status, update_body, add_update}
use incident_garden.Events.Update.Effect.{StoredBy, Applies, update_body-Applies}

-- What an update that returns has done: the event was there and open, and the status fits its type;
-- afterwards the event's row has the new status, and a time of resolution where that status is one
-- of resolution and there was none; it affects services exactly if that status is an active one; the
-- other events' rows are as they were; and the stored statuses are as `StoredBy`
-- says.
pub record Updated (input : CreateEventUpdateInput) (d d' : Db) : Type 0 where
  pub row : Event
  pub found : find_first (is_event input.event_id) d.events ≡ some row
  pub was_open : is_resolved row.status ≡ false
  pub fits : is_valid_for_type input.status row.type ≡ true
  pub new_row : Event
  pub replaced :
      (t : Uuid)
      → find_first (is_event t) d'.events
        ≡ (if t == input.event_id then some new_row else find_first (is_event t) d.events)
  pub status_set : (new_row.status ≡ input.status) × (new_row.type ≡ row.type)
  pub decided : Time
  pub resolution_set : new_row.resolved_at ≡ (
      if is_resolved input.status && not (is_some row.resolved_at)
      then some decided
      else row.resolved_at)
  pub activity :
      (t : Uuid)
      → event_is_active d'.events t
        ≡ (if t == input.event_id then is_active input.status else event_is_active d.events t)
  pub stored : StoredBy input d d'
  pub overwrite : Event → Event
  pub overwritten : d'.events ≡ update_where (is_event input.event_id) overwrite d.events
  pub same_ids : (r : Event) → (overwrite r).id ≡ r.id

abbrev rewritten : Event → Time → Option Event → Option Event
rewritten event now none = none
rewritten event now (some row) = some (set_event event now row)

find_first-set_event :
    (t e : Uuid) (event : Event) (now : Time) (xs : List Event)
    → find_first (is_event t) (update_where (is_event e) (set_event event now) xs) ≡ (
        if t == e
        then rewritten event now (find_first (is_event t) xs)
        else find_first (is_event t) xs)
unfolding set_event
find_first-set_event t e event now [] = ground arith
find_first-set_event t e event now (x ∷ xs) = ground (arith, find_first-set_event t e event now xs)

set_event_fields :
    (event : Event) (now : Time) (row : Event)
    → ((set_event event now row).id ≡ row.id) × ((set_event event now row).status ≡ event.status)
unfolding set_event
set_event_fields event now row = (refl, refl)

event_is_active-set_event :
    (t e : Uuid) (event : Event) (now : Time) (xs : List Event)
    → event_is_active (update_where (is_event e) (set_event event now) xs) t
      ≡ (if t == e then any (is_event e) xs && is_active event.status else event_is_active xs t)
unfolding event_is_active
event_is_active-set_event t e event now [] = ground arith
event_is_active-set_event t e event now (x ∷ xs) = elim (Bool-cases (x.id == e)) [
  | inl hit ↦
      rw hit
        (ground (arith, event_is_active-set_event t e event now xs, set_event_fields event now x))
  | inr miss ↦ rw miss (ground (arith, event_is_active-set_event t e event now xs))
]

any_of_found :
    (e : Uuid) (xs : List Event) {row : Event}
    → find_first (is_event e) xs ≡ some row
    → any (is_event e) xs ≡ true
any_of_found e [] h = cc
any_of_found e (x ∷ xs) {row} h = ground (arith, any_of_found e xs {row = row})

find_first_id :
    (e : Uuid) (xs : List Event) {row : Event} → find_first (is_event e) xs ≡ some row → row.id ≡ e
find_first_id e [] h = cc
find_first_id e (x ∷ xs) {row} h = ground (arith, find_first_id e xs {row = row})

IsRow-Updated :
    (input : CreateEventUpdateInput) (event : Event) (d d' : Db)
    → IsRow input.event_id event d
    → is_valid_for_type input.status event.type ≡ true
    → is_resolved event.status ≡ false
    → Applies event input d d'
    → Updated input d d'
unfolding set_event apply_status
IsRow-Updated input event d d' r fits unresolved a =
    let e = input.event_id in
    let resolved_event = apply_status input.status a.decided event in
    let new = set_event resolved_event a.written r.row in
    let id_eq : event.id ≡ e = ap (λ (x : Event). x.id) r.read ∙ find_first_id e d.events r.found in
    let events_eq : d'.events
        ≡ update_where (is_event e) (set_event resolved_event a.written) d.events =
      subst
        (λ i. d'.events ≡ update_where (is_event i) (set_event resolved_event a.written) d.events)
        id_eq a.events in
    record {
      row = r.row;
      found = r.found;
      was_open = ap (λ (x : Event). is_resolved x.status) (sym r.read) ∙ unresolved;
      fits = ap (λ (x : Event). is_valid_for_type input.status x.type) (sym r.read) ∙ fits;
      new_row = new;
      replaced = λ t. rw events_eq (
          find_first-set_event t e resolved_event a.written d.events
          ∙ ground (arith, r.found, ==_iff t e));
      status_set = (refl, refl);
      decided = a.decided;
      resolution_set = ground (arith, r.read);
      activity = λ t. rw events_eq (
          event_is_active-set_event t e resolved_event a.written d.events
          ∙ ground (arith, any_of_found e d.events r.found));
      stored = a.stored;
      overwrite = set_event resolved_event a.written;
      overwritten = events_eq;
      same_ids = λ r. refl;
    }

not-eq-false : (b : Bool) → not b ≡ false → b ≡ true
not-eq-false true h = refl
not-eq-false false h = cc

add_update-Ends :
    (b : Bool) (input : CreateEventUpdateInput) (by : Uuid) (w : World)
    → Ends (λ _ w'. Updated input w.db w'.db) (add_update b input by) w
unfolding add_update
add_update-Ends b input by w = Ends-bind _ _ w (get_event-IsRow input.event_id w) λ event u₀ s₀.
    Ends-bind _ _ u₀ (Ends-fail_if (not (is_valid_for_type input.status event.type)) _ u₀)
      λ t₁ u₁ s₁. Ends-bind _ _ u₁ (Ends-fail_if (is_resolved event.status) _ u₁) λ t₂ u₂ s₂.
        Ends-bind _ _ u₂
          (Ends-Step _ u₂ (validate-Step Unseen-ChangeRules input.add_services input.add_groups))
          λ t₃ u₃ s₃. Ends-bind _ _ u₃ (Ends-begin_tx u₃) λ t₄ u₄ s₄.
            let same : u₄.tx ≡ w.db =
              s₄ ∙ s₃.same_db ∙ ap (λ (x : World). x.db) (s₂.1 ∙ s₁.1) ∙ s₀.1 in
            Ends-finally (λ _ d. Updated input w.db d) (update_body b event input by) u₄
              (Ends-weaken (update_body-Applies b event input by u₄) λ t₅ u₅ s₅.
                IsRow-Updated input event w.db u₅.db s₀.0
                  (not-eq-false (is_valid_for_type input.status event.type) s₁.0) s₂.0
                  (subst (λ d. Applies event input d u₅.db) same s₅))

-- An update that returns has taken an open event to the given status, which fits its type, has set
-- the time of a resolution, has left every other event's row alone, and has made operational the
-- stored status of exactly those services that the resolved event has and no other active event
-- affects.
pub add_update-Updated :
    (has_notifier : Bool) (input : CreateEventUpdateInput) (by : Uuid) (w w' : World)
    (u : EventUpdate)
    → add_update has_notifier input by w ≡ (ok u, w')
    → Updated input w.db w'.db
add_update-Updated b input by w w' u e = (add_update-Ends b input by w).at u w' e
