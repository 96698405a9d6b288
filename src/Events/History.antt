-- ===== src/Events/History.antt =====
-- The event service over time: its operations in any order, returning or failing, with whatever
-- the database refuses and whatever time passes between them.
pub mod Rows
pub mod Invariant
pub mod Closed
mod Tests
use incident_garden.Prelude.{Bool, List}
use incident_garden.Domain.{Uuid, Time}
use incident_garden.Inputs.{CreateEventInput, CreateEventUpdateInput}
use incident_garden.Store.{World}
use incident_garden.Events.Create.{Statuses, create_event}
use incident_garden.Events.Update.{add_update}
use incident_garden.Events.Delete.{delete_event}

pub data Operation : Type 0 where
  create : CreateEventInput → Uuid → Operation
  update : CreateEventUpdateInput → Uuid → Operation
  delete : Uuid → Operation

abbrev pub perform : Bool → (Statuses → Statuses) → Operation → World → World
perform b range (create input by) w = (create_event b range input by w).1
perform b range (update input by) w = (add_update b input by w).1
perform b range (delete e) w = (delete_event b e w).1

-- What a service has come to from a world.
pub data History (b : Bool) (range : Statuses → Statuses) (w : World) : World → Type 0 where
  start : History b range w w
  pass :
      {w' : World} (faults : List Bool) (now : Time)
      → History b range w w'
      → History b range w (record w' { faults = faults; now = now })
  next :
      {w' : World} (op : Operation)
      → History b range w w'
      → History b range w (perform b range op w')
