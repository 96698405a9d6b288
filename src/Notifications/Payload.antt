-- ===== src/Notifications/Payload.antt =====
-- What a notification carries (internal/notifications/payload.go, sender.go) and where it goes
-- (internal/domain/notification.go). `time.Now()` is an argument of the constructors.
use incident_garden.Prelude.{String, Bool, Option, List}
use incident_garden.Domain.{Uuid, Time}

pub data ChannelType : Type 0 where
  email telegram mattermost : ChannelType
  other : String → ChannelType

pub record NotificationChannel : Type 0 where
  pub id : Uuid
  pub user_id : Uuid
  pub type : ChannelType
  pub target : String
  pub is_enabled : Bool
  pub is_verified : Bool
  pub is_default : Bool
  pub subscribe_to_all_services : Bool
  pub created_at : Time
  pub updated_at : Time

pub data MessageType : Type 0 where
  initial update resolved completed cancelled : MessageType

pub record ServiceInfo : Type 0 where
  pub id : Uuid
  pub name : String
  pub status : String

pub record GroupInfo : Type 0 where
  pub id : Uuid
  pub name : String

pub record EventData : Type 0 where
  pub id : Uuid
  pub title : String
  pub type : String
  pub status : String
  pub severity : String
  pub message : String
  pub services : List ServiceInfo
  pub groups : List GroupInfo
  pub created_at : Time
  pub started_at : Option Time
  pub scheduled_start : Option Time
  pub scheduled_end : Option Time

pub record ServiceStatusChange : Type 0 where
  pub id : Uuid
  pub name : String
  pub status_from : String
  pub status_to : String

pub record EventChanges : Type 0 where
  pub status_from : String
  pub status_to : String
  pub severity_from : String
  pub severity_to : String
  pub services_added : List ServiceInfo
  pub services_removed : List ServiceInfo
  pub services_updated : List ServiceStatusChange
  pub reason : String

pub record EventResolution : Type 0 where
  pub resolved_at : Time
  pub duration : Time
  pub message : String

pub record NotificationPayload : Type 0 where
  pub message_type : MessageType
  pub event : EventData
  pub changes : Option EventChanges
  pub resolution : Option EventResolution
  pub event_url : String
  pub generated_at : Time

pub record Notification : Type 0 where
  pub to : String
  pub subject : String
  pub body : String
