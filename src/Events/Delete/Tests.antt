-- ===== src/Events/Delete/Tests.antt =====
-- Deletions on the sample page, and the theorems there.
use incident_garden.Prelude.{◌≡◌, refl, true, false, [], ◌∷◌}
use incident_garden.Domain.{major_outage, is_resolved, is_scheduled}
use incident_garden.Store.{
  World, ok, err, db_failure, rows, in_tx, on_pool, begin_tx, commit, rollback, notify, ◌>>=◌, pure,
  fail_if, finally,
}
use incident_garden.Catalog.Repository.{get_effective_status}
use incident_garden.Events.Samples.{planned, planned_world}
use incident_garden.Events.Delete.{delete_event}
use incident_garden.Events.Delete.Gone.{Deleted, delete_event-Deleted}
use incident_garden.Events.Delete.Shown.{delete_event-shown}
use incident_garden.Events.Delete.Failure.{Announced, delete_event-Announced}

abbrev after_deletion : World
after_deletion = (delete_event true 3 (planned_world [])).1

delete_event_runs : delete_event true 3 (planned_world []) ≡ (ok tt, after_deletion)
unfolding delete_event in_tx on_pool begin_tx commit rollback notify ◌>>=◌ pure fail_if finally
    is_resolved is_scheduled
delete_event_runs = refl

delete_event-Deleted_example : Deleted 3 planned after_deletion.db
delete_event-Deleted_example =
    delete_event-Deleted true 3 (planned_world []) after_deletion tt delete_event_runs

shows_10 : get_effective_status 10 planned ≡ rows (major_outage, true) planned
unfolding get_effective_status
shows_10 = refl

delete_event-shown_example :
    get_effective_status 10 after_deletion.db ≡ rows (major_outage, true) after_deletion.db
delete_event-shown_example =
    delete_event-shown true 3 (planned_world []) after_deletion tt 10 (major_outage, true)
      delete_event_runs refl shows_10

-- The deletion of the log is refused, after the cancellation is announced.
abbrev log_refused : World
log_refused = planned_world (false ∷ false ∷ false ∷ false ∷ true ∷ [])

delete_event_refused : (delete_event true 3 log_refused).0 ≡ err db_failure
unfolding delete_event in_tx on_pool begin_tx commit rollback notify ◌>>=◌ pure fail_if finally
    is_resolved is_scheduled
delete_event_refused = refl

delete_event-Announced_example : Announced log_refused (delete_event true 3 log_refused).1
delete_event-Announced_example =
    delete_event-Announced true 3 log_refused db_failure delete_event_refused
