-- ===== src/Events/Create/Ids.antt =====
-- `CreateEvent` does not take the counter of identifiers back.
use incident_garden.Prelude.{Bool, Option, none, some, String, List}
use incident_garden.Domain.{
  Uuid, EventType, Severity, ServiceStatus, AffectedService, AffectedGroup,
}
use incident_garden.Inputs.{CreateEventInput}
use incident_garden.Store.Steps.{Step}
use incident_garden.Store.Ids.{NextUp, id_rules}
use incident_garden.Events.Compose.Ids.{NextUp-ChangeRules}
use incident_garden.Events.Compose.Steps.{
  by_status_of, validate-Step, log_status-Step, record_change-Step, associate_tx-Step,
}
use incident_garden.Events.Create.{
  Statuses, check_severity, create_event_tx, add_group_members, collect_groups, associate_one,
  associate_all, insert_one_group, associate_groups, record_service, record_group, record_all,
  record_initial_changes_tx, create_body, create_event,
}

ruleset id_calls = (
  id_rules, NextUp-ChangeRules, by_status_of, log_status-Step, record_change-Step,
  associate_tx-Step,
)

pub check_severity-NextUp : (t : EventType) (s : Option Severity) → Step NextUp (check_severity t s)
unfolding check_severity
check_severity-NextUp EventType.incident none = search id_rules
check_severity-NextUp EventType.incident (some s) = search id_rules
check_severity-NextUp _ s = search id_rules

add_group_members-NextUp : (m : Statuses) (g : AffectedGroup) → Step NextUp (add_group_members m g)
unfolding add_group_members
add_group_members-NextUp m g = search id_rules

pub collect_groups-NextUp : (groups : List AffectedGroup) → Step NextUp (collect_groups groups)
unfolding collect_groups
collect_groups-NextUp groups = search (id_rules, add_group_members-NextUp)

pub create_event_tx-NextUp :
    (input : CreateEventInput) (by : Uuid) → Step NextUp (create_event_tx input by)
unfolding create_event_tx
create_event_tx-NextUp input by = search id_rules depth 7

associate_one-NextUp :
    (e : Uuid) (title : String) (by : Uuid) (sids : List Uuid) (p : Uuid × ServiceStatus)
    → Step NextUp (associate_one e title by sids p)
unfolding associate_one
associate_one-NextUp e title by sids p = search id_calls depth 7

pub associate_all-NextUp :
    (e : Uuid) (title : String) (by : Uuid) (m : Statuses)
    → Step NextUp (associate_all e title by m)
unfolding associate_all
associate_all-NextUp e title by m = search (id_rules, associate_one-NextUp)

pub associate_groups-NextUp :
    (e : Uuid) (groups : List AffectedGroup) → Step NextUp (associate_groups e groups)
unfolding associate_groups insert_one_group
associate_groups-NextUp e groups = search id_rules depth 7

record_service-NextUp :
    (e batch by : Uuid) (a : AffectedService) → Step NextUp (record_service e batch by a)
unfolding record_service
record_service-NextUp e batch by a = search id_calls

record_group-NextUp :
    (e batch by : Uuid) (g : AffectedGroup) → Step NextUp (record_group e batch by g)
unfolding record_group
record_group-NextUp e batch by g = search id_calls

pub record_initial-NextUp :
    (e : Uuid) (services : List AffectedService) (groups : List AffectedGroup) (by : Uuid)
    → Step NextUp (record_initial_changes_tx e services groups by)
unfolding record_initial_changes_tx record_all
record_initial-NextUp e services groups by =
    search (id_rules, record_service-NextUp, record_group-NextUp) depth 8

create_body-NextUp :
    (b : Bool) (range : Statuses → Statuses) (input : CreateEventInput) (m : Statuses) (by : Uuid)
    → Step NextUp (create_body b range input m by)
unfolding create_body
create_body-NextUp b range input m by =
    search
      (
        id_rules, create_event_tx-NextUp, associate_all-NextUp, associate_groups-NextUp,
        record_initial-NextUp,
      )
      depth 11

pub create_event-NextUp :
    (b : Bool) (range : Statuses → Statuses) (input : CreateEventInput) (by : Uuid)
    → Step NextUp (create_event b range input by)
unfolding create_event
create_event-NextUp b range input by =
    search
      (
        id_rules, NextUp-ChangeRules, validate-Step, check_severity-NextUp, collect_groups-NextUp,
        create_body-NextUp,
      )
      depth 11
