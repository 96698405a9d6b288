-- ===== src/Events/Delete.antt =====
-- `DeleteEvent` of internal/events/service.go.
mod Tests
pub mod Gone
pub mod Shown
pub mod Failure
pub mod Ids
use incident_garden.Prelude.{Bool, ◌&&◌, not, if◌then◌else◌}
use incident_garden.Domain.{Uuid, is_resolved, is_scheduled}
use incident_garden.Store.{
  event_not_resolved, event_cancelled, Action, pure, fail_if, finally, ◌>>=◌, ◌>>◌, in_tx, begin_tx,
  commit, rollback, notify,
}
use incident_garden.Events.Repository.{get_event, delete_event_row}
use incident_garden.Catalog.Repository.{delete_log}

-- the calls of the transaction
delete_body : Uuid → Action (Unit {0})
unfolding delete_log delete_event_row
delete_body e = do in_tx (delete_log e); in_tx (delete_event_row e); commit

-- `DeleteEvent`: an error of the cancellation notice is only logged
unfoldable pub delete_event : Bool → Uuid → Action (Unit {0})
unfolding get_event delete_body
delete_event has_notifier e = do
  event ← get_event e
  fail_if (not (is_resolved event.status) && not (is_scheduled event.status)) event_not_resolved
  if is_scheduled event.status && has_notifier && event.notify_subscribers
      then notify (event_cancelled event)
      else pure tt
  begin_tx
  finally (delete_body e) rollback
