-- ===== src/Events/Update/Refusal.antt =====
-- The errors of `AddUpdate` before its transaction.
use incident_garden.Prelude.{
  ◌≡◌, sym, ap, ◌∙◌, inl, inr, Bool, true, false, not, Option, none, some, arith, if◌then◌else◌,
  find_first, Bool-cases, Option-cases,
}
use incident_garden.Domain.{Uuid, Event, EventUpdate, EventStatus, is_resolved, is_valid_for_type}
use incident_garden.Inputs.{CreateEventUpdateInput}
use incident_garden.Store.{
  Error, event_not_found, invalid_status, event_already_resolved, Db, no_rows, Result, err, World,
}
use incident_garden.Store.Returns.{Calm, Returns-fail_if}
use incident_garden.Store.Fails.{fail-bind, fail-after, fail_if-true, fail-on_pool}
use incident_garden.Events.Repository.{is_event, select_event, get_event}
use incident_garden.Events.Update.{add_update}
use incident_garden.Events.Update.Carried.{get_event-Returns}

-- Which error an update to a status meets, from the event's row.
abbrev pub refusal : Option Event → EventStatus → Option Error
refusal none st = some event_not_found
refusal (some row) st =
    if not (is_valid_for_type st row.type)
    then some invalid_status
    else if is_resolved row.status
    then some event_already_resolved
    else none

select_event-missing :
    (e : Uuid) (d : Db)
    → find_first (is_event e) d.events ≡ none
    → select_event e d ≡ no_rows event_not_found
unfolding select_event
select_event-missing e d h = ground (arith, h)

get_event-missing :
    (e : Uuid) (w : World)
    → Calm w
    → find_first (is_event e) w.db.events ≡ none
    → get_event e w ≡ (err event_not_found, w)
unfolding get_event
get_event-missing e w c h =
    fail-bind _ _
      (fail-on_pool (select_event e) w event_not_found c (select_event-missing e w.db h))

err_eq :
    (x y : Error) (w : World)
    → ◌≡◌ {A = Option Error} (some x) (some y)
    → ◌≡◌ {A = Result EventUpdate × World} (err x, w) (err y, w)
err_eq x y w h = ground arith

refused_unfit :
    (b : Bool) (input : CreateEventUpdateInput) (by : Uuid) (w : World) (row : Event)
    → Calm w
    → find_first (is_event input.event_id) w.db.events ≡ some row
    → not (is_valid_for_type input.status row.type) ≡ true
    → add_update b input by w ≡ (err invalid_status, w)
unfolding add_update
refused_unfit b input by w row c found unfit =
    let r = get_event-Returns input.event_id w row c found in
    fail-after _ _ r (
      fail-bind _ _ (
        fail_if-true _ invalid_status r.after_it
          (ap (λ (x : Event). not (is_valid_for_type input.status x.type)) r.holds.0 ∙ unfit))
      ∙ ap (λ u. (err invalid_status, u)) r.holds.1)

refused_closed :
    (b : Bool) (input : CreateEventUpdateInput) (by : Uuid) (w : World) (row : Event)
    → Calm w
    → find_first (is_event input.event_id) w.db.events ≡ some row
    → not (is_valid_for_type input.status row.type) ≡ false
    → is_resolved row.status ≡ true
    → add_update b input by w ≡ (err event_already_resolved, w)
unfolding add_update
refused_closed b input by w row c found fits closed =
    let r = get_event-Returns input.event_id w row c found in
    let fit =
      Returns-fail_if (not (is_valid_for_type input.status r.value.type)) invalid_status r.after_it
        (ap (λ (x : Event). not (is_valid_for_type input.status x.type)) r.holds.0 ∙ fits) in
    fail-after _ _ r (
      fail-after _ _ fit (
        fail-bind _ _ (
          fail_if-true _ event_already_resolved fit.after_it
            (ap (λ (x : Event). is_resolved x.status) r.holds.0 ∙ closed)))
      ∙ ap (λ u. (err event_already_resolved, u)) (fit.holds ∙ r.holds.1))

refuses_row :
    (b : Bool) (input : CreateEventUpdateInput) (by : Uuid) (w : World) (row : Event) (x : Error)
    → Calm w
    → find_first (is_event input.event_id) w.db.events ≡ some row
    → refusal (some row) input.status ≡ some x
    → add_update b input by w ≡ (err x, w)
refuses_row b input by w row x c found h =
    elim (Bool-cases (not (is_valid_for_type input.status row.type))) [
      | inl unfit ↦
          refused_unfit b input by w row c found unfit
          ∙ err_eq invalid_status x w (ground (arith, h, unfit))
      | inr fits ↦ elim (Bool-cases (is_resolved row.status)) [
        | inl closed ↦
            refused_closed b input by w row c found fits closed
            ∙ err_eq event_already_resolved x w (ground (arith, h, fits, closed))
        | inr still_open ↦ ground (arith, h, fits, still_open)
      ]
    ]

-- Where the server refuses nothing, an update fails before its transaction with the error that the
-- event's row and the new status call for: the event is not there, the status does not fit its
-- type, or it is closed already. Nothing at all has changed then.
pub add_update-refuses :
    (has_notifier : Bool) (input : CreateEventUpdateInput) (by : Uuid) (w : World) (x : Error)
    → Calm w
    → refusal (find_first (is_event input.event_id) w.db.events) input.status ≡ some x
    → add_update has_notifier input by w ≡ (err x, w)
unfolding add_update
add_update-refuses b input by w x c h =
    elim (Option-cases (find_first (is_event input.event_id) w.db.events)) [
      | inl missing ↦
          fail-bind _ _ (get_event-missing input.event_id w c missing)
          ∙ err_eq event_not_found x w (ap (λ o. refusal o input.status) (sym missing) ∙ h)
      | inr (row, found) ↦
          refuses_row b input by w row x c found (ap (λ o. refusal o input.status) (sym found) ∙ h)
    ]
