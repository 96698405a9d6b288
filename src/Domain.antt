-- ===== src/Domain.antt =====
-- The entities of internal/domain (event.go, service.go). Go's string types keep their named
-- values as constructors, and any other string is `other`. A UUID is only ever compared, and is
-- a number; a time is a number of nanoseconds; a pointer is an `Option`.
use incident_garden.Prelude.{
  ℕ, String, ◌≡◌, Bool, true, false, Option, none, some, List, arith, str_eq, str_eq_iff,
}

abbrev pub Uuid : Type 0
Uuid = ℕ

abbrev pub Time : Type 0
Time = ℕ

pub data EventType : Type 0 where
  incident maintenance : EventType
  other : String → EventType

pub data EventStatus : Type 0 where
  investigating identified monitoring resolved scheduled in_progress completed : EventStatus
  other : String → EventStatus

pub data Severity : Type 0 where
  minor major critical : Severity
  other : String → Severity

pub data ServiceStatus : Type 0 where
  operational degraded partial_outage major_outage maintenance : ServiceStatus
  other : String → ServiceStatus

pub data ChangeAction : Type 0 where
  added removed : ChangeAction

pub data SourceType : Type 0 where
  manual event webhook : SourceType

pub record Event : Type 0 where
  pub id : Uuid
  pub title : String
  pub type : EventType
  pub status : EventStatus
  pub severity : Option Severity
  pub description : String
  pub started_at : Option Time
  pub resolved_at : Option Time
  pub scheduled_start_at : Option Time
  pub scheduled_end_at : Option Time
  pub notify_subscribers : Bool
  pub template_id : Option Uuid
  pub created_by : Uuid
  pub created_at : Time
  pub updated_at : Time
  pub service_ids : List Uuid
  pub group_ids : List Uuid

pub record EventUpdate : Type 0 where
  pub id : Uuid
  pub event_id : Uuid
  pub status : EventStatus
  pub message : String
  pub notify_subscribers : Bool
  pub created_by : Uuid
  pub created_at : Time

pub record EventServiceChange : Type 0 where
  pub id : Uuid
  pub event_id : Uuid
  pub batch_id : Option Uuid
  pub action : ChangeAction
  pub service_id : Option Uuid
  pub group_id : Option Uuid
  pub reason : String
  pub created_by : Uuid
  pub created_at : Time

pub record EventService : Type 0 where
  pub event_id : Uuid
  pub service_id : Uuid
  pub status : ServiceStatus
  pub updated_at : Time

pub record AffectedService : Type 0 where
  pub service_id : Uuid
  pub status : ServiceStatus

pub record AffectedGroup : Type 0 where
  pub group_id : Uuid
  pub status : ServiceStatus

pub record Service : Type 0 where
  pub id : Uuid
  pub name : String
  pub slug : String
  pub description : String
  pub status : ServiceStatus
  pub order : ℕ
  pub created_at : Time
  pub updated_at : Time
  pub archived_at : Option Time

pub record ServiceGroup : Type 0 where
  pub id : Uuid
  pub name : String
  pub slug : String
  pub description : String
  pub order : ℕ
  pub created_at : Time
  pub updated_at : Time
  pub archived_at : Option Time

pub record ServiceStatusLogEntry : Type 0 where
  pub id : Uuid
  pub service_id : Uuid
  pub old_status : Option ServiceStatus
  pub new_status : ServiceStatus
  pub source_type : SourceType
  pub event_id : Option Uuid
  pub reason : String
  pub created_by : Uuid
  pub created_at : Time

-- `EventType.IsValid`
unfoldable pub is_valid_type : EventType → Bool
is_valid_type EventType.incident = true
is_valid_type EventType.maintenance = true
is_valid_type (EventType.other s) = false

-- `Severity.IsValid`
unfoldable pub is_valid_severity : Severity → Bool
is_valid_severity (Severity.other s) = false
is_valid_severity _ = true

-- `EventStatus.IsValidForType`
unfoldable pub is_valid_for_type : EventStatus → EventType → Bool
is_valid_for_type investigating EventType.incident = true
is_valid_for_type identified EventType.incident = true
is_valid_for_type monitoring EventType.incident = true
is_valid_for_type resolved EventType.incident = true
is_valid_for_type scheduled EventType.maintenance = true
is_valid_for_type in_progress EventType.maintenance = true
is_valid_for_type completed EventType.maintenance = true
is_valid_for_type _ _ = false

-- `EventStatus.IsResolved`
unfoldable pub is_resolved : EventStatus → Bool
is_resolved resolved = true
is_resolved completed = true
is_resolved _ = false

-- `EventStatus.IsActive`
unfoldable pub is_active : EventStatus → Bool
is_active resolved = false
is_active completed = false
is_active scheduled = false
is_active _ = true

unfoldable pub is_scheduled : EventStatus → Bool
is_scheduled scheduled = true
is_scheduled _ = false

unfoldable pub severity_to_service_status : EventType → Option Severity → ServiceStatus
severity_to_service_status EventType.maintenance _ = ServiceStatus.maintenance
severity_to_service_status _ none = degraded
severity_to_service_status _ (some critical) = major_outage
severity_to_service_status _ (some major) = partial_outage
severity_to_service_status _ (some minor) = degraded
severity_to_service_status _ (some (Severity.other s)) = degraded

-- `ServiceStatus.IsValid`
unfoldable pub is_valid_status : ServiceStatus → Bool
is_valid_status (ServiceStatus.other s) = false
is_valid_status _ = true

-- Go's `==` on two service statuses.
unfoldable pub status_eq : ServiceStatus → ServiceStatus → Bool
status_eq operational operational = true
status_eq degraded degraded = true
status_eq partial_outage partial_outage = true
status_eq major_outage major_outage = true
status_eq ServiceStatus.maintenance ServiceStatus.maintenance = true
status_eq (ServiceStatus.other s) (ServiceStatus.other t) = str_eq s t
status_eq _ _ = false

-- Equality of service statuses is decided.
pub status_eq_sound : (a b : ServiceStatus) → status_eq a b ≡ true → a ≡ b
unfolding status_eq
status_eq_sound (ServiceStatus.other s) (ServiceStatus.other t) h = ground (arith, str_eq_iff s t)
status_eq_sound operational b h = ground arith
status_eq_sound _ b h = ground arith
