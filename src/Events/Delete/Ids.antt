-- ===== src/Events/Delete/Ids.antt =====
-- `DeleteEvent` does not take the counter of identifiers back.
use incident_garden.Prelude.{Bool}
use incident_garden.Domain.{Uuid}
use incident_garden.Store.Steps.{Step}
use incident_garden.Store.Ids.{NextUp, id_rules}
use incident_garden.Events.Update.Ids.{get_event-NextUp}
use incident_garden.Events.Delete.{delete_body, delete_event}

pub delete_event-NextUp : (b : Bool) (e : Uuid) → Step NextUp (delete_event b e)
unfolding delete_event delete_body
delete_event-NextUp b e = search (id_rules, get_event-NextUp) depth 12
