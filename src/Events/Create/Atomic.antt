-- ===== src/Events/Create/Atomic.antt =====
-- `CreateEvent` is all or nothing.
use incident_garden.Prelude.{◌≡◌, Bool, Option, none, some, String, List}
use incident_garden.Domain.{
  Uuid, EventType, Severity, ServiceStatus, AffectedService, AffectedGroup,
}
use incident_garden.Inputs.{CreateEventInput}
use incident_garden.Store.{Error, err, World}
use incident_garden.Store.Steps.{Step}
use incident_garden.Store.Quiet.{
  Unseen, quiet_rules, Atomic, Atomic-finally, Atomic-bind, commit-notify-Atomic,
}
use incident_garden.Catalog.Repository.Reads.{catalog_reads}
use incident_garden.Events.Compose.Quiet.{Unseen-ChangeRules}
use incident_garden.Events.Compose.Steps.{
  validate-Step, log_status-Step, record_change-Step, associate_tx-Step,
}
use incident_garden.Events.Create.{
  Statuses, check_severity, create_event_tx, add_group_members, collect_groups, associate_one,
  associate_all, insert_one_group, associate_groups, record_service, record_group, record_all,
  record_initial_changes_tx, create_body, create_event,
}

ruleset quiet_calls = (
  quiet_rules, catalog_reads, Unseen-ChangeRules, log_status-Step, record_change-Step,
  associate_tx-Step,
)

pub check_severity-Unseen : (t : EventType) (s : Option Severity) → Step Unseen (check_severity t s)
unfolding check_severity
check_severity-Unseen EventType.incident none = search quiet_calls
check_severity-Unseen EventType.incident (some s) = search quiet_calls
check_severity-Unseen _ s = search quiet_calls

pub add_group_members-Unseen :
    (m : Statuses) (g : AffectedGroup) → Step Unseen (add_group_members m g)
unfolding add_group_members
add_group_members-Unseen m g = search quiet_calls

create_event_tx-Unseen :
    (input : CreateEventInput) (by : Uuid) → Step Unseen (create_event_tx input by)
unfolding create_event_tx
create_event_tx-Unseen input by = search quiet_calls depth 7

associate_one-Unseen :
    (e : Uuid) (title : String) (by : Uuid) (sids : List Uuid) (p : Uuid × ServiceStatus)
    → Step Unseen (associate_one e title by sids p)
unfolding associate_one
associate_one-Unseen e title by sids p = search quiet_calls depth 7

insert_one_group-Unseen : (e : Uuid) (g : AffectedGroup) → Step Unseen (insert_one_group e g)
unfolding insert_one_group
insert_one_group-Unseen e g = search quiet_calls

associate_groups-Unseen :
    (e : Uuid) (groups : List AffectedGroup) → Step Unseen (associate_groups e groups)
unfolding associate_groups
associate_groups-Unseen e groups = search quiet_calls depth 6

record_service-Unseen :
    (e batch by : Uuid) (a : AffectedService) → Step Unseen (record_service e batch by a)
unfolding record_service
record_service-Unseen e batch by a = search quiet_calls

record_group-Unseen :
    (e batch by : Uuid) (g : AffectedGroup) → Step Unseen (record_group e batch by g)
unfolding record_group
record_group-Unseen e batch by g = search quiet_calls

record_initial-Unseen :
    (e : Uuid) (services : List AffectedService) (groups : List AffectedGroup) (by : Uuid)
    → Step Unseen (record_initial_changes_tx e services groups by)
unfolding record_initial_changes_tx record_all
record_initial-Unseen e services groups by = search quiet_calls depth 8

create_body-Atomic :
    (b : Bool) (range : Statuses → Statuses) (input : CreateEventInput) (m : Statuses) (by : Uuid)
    → Atomic (create_body b range input m by)
unfolding create_body associate_all
create_body-Atomic b range input m by =
    search
      (
        quiet_calls, create_event_tx-Unseen, associate_one-Unseen, associate_groups-Unseen,
        record_initial-Unseen, Atomic-bind, commit-notify-Atomic,
      )
      depth 9

create_event-Atomic_lem :
    (b : Bool) (range : Statuses → Statuses) (input : CreateEventInput) (by : Uuid)
    → Atomic (create_event b range input by)
unfolding create_event collect_groups
create_event-Atomic_lem b range input by =
    search
      (
        quiet_calls, check_severity-Unseen, validate-Step, add_group_members-Unseen,
        create_body-Atomic, Atomic-finally, Atomic-bind,
      )
      depth 10

-- A creation that fails, wherever it fails and whatever the database refused, leaves the committed
-- tables as they were and sends no notice.
pub create_event-Atomic :
    (has_notifier : Bool) (range : Statuses → Statuses) (input : CreateEventInput) (by : Uuid)
    (w : World) (e : Error)
    → (create_event has_notifier range input by w).0 ≡ err e
    → Unseen w (create_event has_notifier range input by w).1
create_event-Atomic b range input by = (create_event-Atomic_lem b range input by).at
