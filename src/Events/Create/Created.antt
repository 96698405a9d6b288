-- ===== src/Events/Create/Created.antt =====
-- The contract of `CreateEvent` for the events' table.
use mathlib.Core.Path.{subst}
use incident_garden.Prelude.{◌≤◌, ◌≡◌, refl, ap, ◌∙◌, Bool, true, false, not, List, arith}
use incident_garden.Domain.{Uuid, Event, AffectedGroup, is_valid_type, is_valid_for_type}
use incident_garden.Inputs.{CreateEventInput}
use incident_garden.Store.{World, ok, Action, finally, rollback, begin_tx}
use incident_garden.Store.Steps.{Step}
use incident_garden.Store.Quiet.{Unseen, quiet_rules}
use incident_garden.Store.Ids.{NextUp, begin_tx-NextUp}
use incident_garden.Store.Tables.{
  Ends, Ends-bind, Ends-Step, Ends-both, Ends-weaken, Ends-fail_if, Ends-begin_tx,
  Ends-finally_kept,
}
use incident_garden.Events.Compose.Steps.{validate-Step}
use incident_garden.Events.Compose.Quiet.{Unseen-ChangeRules}
use incident_garden.Events.Compose.Ids.{NextUp-ChangeRules}
use incident_garden.Events.Create.{Statuses, collect_groups, override, create_body, create_event}
use incident_garden.Events.Create.Atomic.{check_severity-Unseen, add_group_members-Unseen}
use incident_garden.Events.Create.Ids.{check_severity-NextUp, collect_groups-NextUp}
use incident_garden.Events.Create.Row.{
  Inserts, create_body-Inserts, create_body-next, Created, Created-of,
}

pub collect_groups-Unseen : (groups : List AffectedGroup) → Step Unseen (collect_groups groups)
unfolding collect_groups
collect_groups-Unseen groups = search (quiet_rules, add_group_members-Unseen)

reads :
    {A : Type 0} (m : Action A) (w : World)
    → Step Unseen m
    → Step NextUp m
    → Ends (λ _ w'. (w'.db ≡ w.db) × (w.next_id ≤ w'.next_id)) m w
reads m w s n =
    Ends-weaken (Ends-both (Ends-Step m w s) (Ends-Step m w n)) λ a w' h. (h.0.same_db, h.1.at_most)

-- What is known before the transaction.
record Begun (w u : World) : Type 0 where
  tx : u.tx ≡ w.db
  next : w.next_id ≤ u.next_id

body-Created :
    (b : Bool) (range : Statuses → Statuses) (input : CreateEventInput) (m : Statuses) (by : Uuid)
    (w u : World)
    → Begun w u
    → is_valid_for_type input.status input.type ≡ true
    → Ends
        (λ event w'. Created input event w w')
        (finally (create_body b range input m by) rollback)
        u
unfolding rollback
body-Created b range input m by w u h fits =
    Ends-finally_kept (λ event w'. Created input event w w') (create_body b range input m by) u
      (Ends-weaken
        (Ends-both (create_body-Inserts b range input m by u)
          (create_body-next b range input m by u))
        λ event v s.
          Created-of input event w v u.next_id
            (subst (λ d. Inserts input event.id d v.db) h.tx s.0.0) s.0.1 h.next s.1 fits)
      λ event v c. record {
        row = c.row;
        added = c.added;
        id = c.id;
        type = c.type;
        status = c.status;
        fits = c.fits;
        same_services = c.same_services;
        not_before = c.not_before;
        before = c.before;
      }

not-eq-false : (b : Bool) → not b ≡ false → b ≡ true
not-eq-false true h = refl
not-eq-false false h = cc

create_event-Ends :
    (b : Bool) (range : Statuses → Statuses) (input : CreateEventInput) (by : Uuid) (w : World)
    → Ends (λ event w'. Created input event w w') (create_event b range input by) w
unfolding create_event
create_event-Ends b range input by w =
    Ends-bind _ _ w (Ends-fail_if (not (is_valid_type input.type)) _ w) λ t₀ u₀ s₀.
      Ends-bind _ _ u₀ (Ends-fail_if (not (is_valid_for_type input.status input.type)) _ u₀)
        λ t₁ u₁ s₁.
          Ends-bind _ _ u₁
            (reads _ u₁ (check_severity-Unseen input.type input.severity)
              (check_severity-NextUp input.type input.severity))
            λ t₂ u₂ s₂.
              Ends-bind _ _ u₂
                (reads _ u₂
                  (validate-Step Unseen-ChangeRules input.affected_services input.affected_groups)
                  (validate-Step NextUp-ChangeRules input.affected_services input.affected_groups))
                λ t₃ u₃ s₃.
                  Ends-bind _ _ u₃
                    (reads _ u₃ (collect_groups-Unseen input.affected_groups)
                      (collect_groups-NextUp input.affected_groups))
                    λ m u₄ s₄.
                      Ends-bind _ _ u₄
                        (Ends-both (Ends-begin_tx u₄) (Ends-Step begin_tx u₄ begin_tx-NextUp))
                        λ t₅ u₅ s₅.
                          body-Created b range input (override input.affected_services m) by w u₅
                            (record {
                              tx =
                                  s₅.0
                                  ∙ s₄.0
                                  ∙ s₃.0
                                  ∙ s₂.0
                                  ∙ ap (λ (x : World). x.db) (s₁.1 ∙ s₀.1);
                              next = ground (arith, s₅.1.at_most, s₄.1, s₃.1, s₂.1, s₁.1, s₀.1);
                            })
                            (not-eq-false (is_valid_for_type input.status input.type) s₁.0)

-- A creation that returns adds one row before the others, of the given type and status, which fit
-- each other, under an identifier that the counter had not reached and has passed afterwards; the
-- other events and the services are as they were.
pub create_event-Created :
    (has_notifier : Bool) (range : Statuses → Statuses) (input : CreateEventInput) (by : Uuid)
    (w w' : World) (event : Event)
    → create_event has_notifier range input by w ≡ (ok event, w')
    → Created input event w w'
create_event-Created b range input by w w' event e =
    (create_event-Ends b range input by w).at event w' e
