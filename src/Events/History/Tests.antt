-- ===== src/Events/History/Tests.antt =====
-- A history on the sample page, and the theorems there.
use incident_garden.Prelude.{◌≡◌, refl, ◌⊎◌, true, none, some, [], ◌∷◌, arith, find_first}
use incident_garden.Domain.{resolved, monitoring, is_resolved}
use incident_garden.Store.{World}
use incident_garden.Events.Repository.{is_event}
use incident_garden.Events.Samples.{incident_row, maintenance_row, planned, planned_world}
use incident_garden.Events.History.{delete, History, start, next, perform}
use incident_garden.Events.History.Invariant.{Sound}
use incident_garden.Events.History.Closed.{History-closed}

-- One incident is over.
abbrev archive : World
archive = record (planned_world []) {
  db = record planned {
    events = incident_row 1 resolved ∷ incident_row 2 monitoring ∷ maintenance_row ∷ [];
  };
}

archive_is_Sound : Sound archive
archive_is_Sound = record { keys = refl; below = (omega arith, (omega arith, (omega arith, tt))) }

abbrev later : World
later = perform true (λ m. m) (delete 1) (perform true (λ m. m) (delete 3) archive)

two_deletions : History true (λ m. m) archive later
two_deletions = next (delete 1) (next (delete 3) start)

resolved_is_resolved : is_resolved (incident_row 1 resolved).status ≡ true
unfolding is_resolved
resolved_is_resolved = refl

History-closed_example :
    (find_first (is_event 1) later.db.events ≡ some (incident_row 1 resolved))
    ⊎ (find_first (is_event 1) later.db.events ≡ none)
History-closed_example =
    History-closed true (λ m. m) archive later 1 (incident_row 1 resolved) archive_is_Sound refl
      resolved_is_resolved two_deletions
