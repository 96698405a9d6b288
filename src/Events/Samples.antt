-- ===== src/Events/Samples.antt =====
-- A small status page, for the tests.
use incident_garden.Prelude.{Bool, true, false, none, some, List, [], ◌∷◌}
use incident_garden.Domain.{
  Uuid, Event, EventType, EventStatus, EventService, Service, ServiceStatus, investigating,
  monitoring, scheduled, degraded, major_outage, minor,
}
use incident_garden.Store.{Db, World}

abbrev pub incident_row : Uuid → EventStatus → Event
incident_row i st = record {
  id = i;
  title = "API errors";
  type = EventType.incident;
  status = st;
  severity = some minor;
  description = "";
  started_at = some 5;
  resolved_at = none;
  scheduled_start_at = none;
  scheduled_end_at = none;
  notify_subscribers = true;
  template_id = none;
  created_by = 90;
  created_at = 5;
  updated_at = 5;
  service_ids = [];
  group_ids = [];
}

abbrev pub service_row : Uuid → ServiceStatus → Service
service_row i st = record {
  id = i;
  name = "svc";
  slug = "svc";
  description = "";
  status = st;
  order = 0;
  created_at = 1;
  updated_at = 1;
  archived_at = none;
}

abbrev pub link : Uuid → Uuid → ServiceStatus → EventService
link e s st = record { event_id = e; service_id = s; status = st; updated_at = 5 }

-- Two incidents: the first on the services 10 and 11, the second on 11.
abbrev pub page : Db
page = record {
  events = incident_row 1 investigating ∷ incident_row 2 monitoring ∷ [];
  event_services = link 1 10 major_outage ∷ link 1 11 degraded ∷ link 2 11 degraded ∷ [];
  event_groups = [];
  event_updates = [];
  event_service_changes = [];
  services = service_row 10 degraded ∷ service_row 11 degraded ∷ [];
  service_groups = [];
  service_group_members = [];
  service_status_log = [];
  event_subscribers = (1, 50) ∷ (3, 50) ∷ [];
  notification_queue = (70, 3) ∷ (71, 2) ∷ [];
}

abbrev pub world : List Bool → World
world faults = record {
  db = page;
  tx = page;
  aborted = false;
  faults = faults;
  now = 100;
  next_id = 1000;
  notices = [];
}

-- The same page with a maintenance of service 10 that is still to come.
abbrev pub maintenance_row : Event
maintenance_row = record (incident_row 3 scheduled) {
  title = "Upgrade";
  type = EventType.maintenance;
  severity = none;
}

abbrev pub planned : Db
planned = record page {
  events = incident_row 1 investigating ∷ incident_row 2 monitoring ∷ maintenance_row ∷ [];
  event_services =
      link 1 10 major_outage
      ∷ link 1 11 degraded
      ∷ link 2 11 degraded
      ∷ link 3 10 ServiceStatus.maintenance
      ∷ [];
}

abbrev pub planned_world : List Bool → World
planned_world faults = record (world faults) { db = planned; tx = planned }
