-- ===== src/Events/Create/Given.antt =====
-- The contract of `CreateEvent` for the services that the event affects.
use mathlib.Core.Path.{subst}
use incident_garden.Prelude.{◌≡◌, ap, ◌∙◌, Bool, true, not, ◌==◌, if◌then◌else◌, distinct}
use incident_garden.Domain.{Uuid, Event, is_valid_type, is_valid_for_type}
use incident_garden.Inputs.{CreateEventInput}
use incident_garden.Store.{Db, World, ok}
use incident_garden.Store.Tables.{
  Ends, Ends-bind, Ends-Step, Ends-both, Ends-weaken, Ends-fail_if, Ends-begin_tx, Ends-finally,
}
use incident_garden.Catalog.Repository.{group_members}
use incident_garden.Events.Compose.Steps.{validate-Step}
use incident_garden.Events.Compose.Quiet.{Unseen-ChangeRules}
use incident_garden.Events.Create.{Statuses, override, create_body, create_event}
use incident_garden.Events.Create.Atomic.{check_severity-Unseen}
use incident_garden.Events.Create.Created.{collect_groups-Unseen}
use incident_garden.Events.Create.Merge.{lookup, or_else, keys, intended, statuses-Intended}
use incident_garden.Events.Create.LinkStatus.{link_status}
use incident_garden.Events.Create.Links.{Links, create_body-Links}

-- The links of the event are those that the input means, and the other links are as they were.
pub record Gives (input : CreateEventInput) (event : Event) (d d' : Db) : Type 0 where
  pub links :
      (t s : Uuid)
      → link_status t s d'.event_services ≡ (
          if t == event.id
          then or_else
              (intended (group_members d) input.affected_services input.affected_groups s)
              (link_status t s d.event_services)
          else link_status t s d.event_services)

module _ (range : Statuses → Statuses)
    (same_lookup : (m : Statuses) (s : Uuid) → lookup s (range m) ≡ lookup s m)
    (each_once : (m : Statuses) → distinct (keys m) ≡ true → distinct (keys (range m)) ≡ true) where
  Links-Gives :
      (input : CreateEventInput) (event : Event) (m : Statuses) (d d' : Db)
      → ((s : Uuid)
          → lookup s m ≡ intended (group_members d) input.affected_services input.affected_groups s)
      → Links event.id (range m) d d'
      → Gives input event d d'
  Links-Gives input event m d d' means l = record {
    links = λ t s.
        l.gives t s
        ∙ ap
            (λ o.
              if t == event.id
              then or_else o (link_status t s d.event_services)
              else link_status t s d.event_services)
            (same_lookup m s ∙ means s);
  }

  create_event-Ends-Gives :
      (b : Bool) (input : CreateEventInput) (by : Uuid) (w : World)
      → Ends (λ event w'. Gives input event w.db w'.db) (create_event b range input by) w
  unfolding create_event
  create_event-Ends-Gives b input by w =
      Ends-bind _ _ w (Ends-fail_if (not (is_valid_type input.type)) _ w) λ t₀ u₀ s₀.
        Ends-bind _ _ u₀ (Ends-fail_if (not (is_valid_for_type input.status input.type)) _ u₀)
          λ t₁ u₁ s₁.
            Ends-bind _ _ u₁ (Ends-Step _ u₁ (check_severity-Unseen input.type input.severity))
              λ t₂ u₂ s₂.
                Ends-bind _ _ u₂
                  (Ends-Step _ u₂ (
                    validate-Step Unseen-ChangeRules input.affected_services input.affected_groups))
                  λ t₃ u₃ s₃.
                    let before : u₃.db ≡ w.db =
                      s₃.same_db ∙ s₂.same_db ∙ ap (λ (x : World). x.db) (s₁.1 ∙ s₀.1) in
                    Ends-bind _ _ u₃
                      (Ends-both
                        (statuses-Intended input.affected_services input.affected_groups u₃)
                        (Ends-Step _ u₃ (collect_groups-Unseen input.affected_groups)))
                      λ m u₄ s₄. Ends-bind _ _ u₄ (Ends-begin_tx u₄) λ t₅ u₅ s₅.
                        let m' = override input.affected_services m in
                        let same : u₅.tx ≡ w.db = s₅ ∙ s₄.1.same_db ∙ before in
                        Ends-finally (λ event d. Gives input event w.db d)
                          (create_body b range input m' by) u₅
                          (Ends-weaken
                            (create_body-Links b range input m' by u₅ (each_once m' s₄.0.1))
                            λ event u₆ s₆.
                              Links-Gives input event m' w.db u₆.db
                                (λ s.
                                  s₄.0.0 s
                                  ∙ ap
                                      (λ (d : Db).
                                        intended (group_members d) input.affected_services
                                          input.affected_groups s)
                                      before)
                                (subst (λ d. Links event.id (range m') d u₆.db) same s₆))

-- Where a run over a map meets each key once, with its value, a creation that returns gives to each
-- service the last status that the input gives it, else that of the first affected group that has
-- it as a member, and leaves every other link as it was.
pub create_event-Gives :
    (has_notifier : Bool) (range : Statuses → Statuses) (input : CreateEventInput) (by : Uuid)
    (w w' : World) (event : Event)
    → ((m : Statuses) (s : Uuid) → lookup s (range m) ≡ lookup s m)
    → ((m : Statuses) → distinct (keys m) ≡ true → distinct (keys (range m)) ≡ true)
    → create_event has_notifier range input by w ≡ (ok event, w')
    → Gives input event w.db w'.db
create_event-Gives b range input by w w' event same_lookup each_once e =
    (create_event-Ends-Gives range same_lookup each_once b input by w).at event w' e
