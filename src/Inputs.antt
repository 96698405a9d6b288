-- ===== src/Inputs.antt =====
-- The inputs of the event service (internal/events/service.go).
use incident_garden.Prelude.{String, Bool, Option, List}
use incident_garden.Domain.{
  Uuid, Time, EventType, EventStatus, Severity, AffectedService, AffectedGroup,
}

pub record CreateEventInput : Type 0 where
  pub title : String
  pub type : EventType
  pub status : EventStatus
  pub severity : Option Severity
  pub description : String
  pub started_at : Option Time
  pub resolved_at : Option Time
  pub scheduled_start_at : Option Time
  pub scheduled_end_at : Option Time
  pub notify_subscribers : Bool
  pub template_id : Option Uuid
  pub affected_services : List AffectedService
  pub affected_groups : List AffectedGroup

pub record CreateEventUpdateInput : Type 0 where
  pub event_id : Uuid
  pub status : EventStatus
  pub message : String
  pub notify_subscribers : Bool
  pub service_updates : List AffectedService
  pub add_services : List AffectedService
  pub add_groups : List AffectedGroup
  pub remove_service_ids : List Uuid
  pub reason : String
