-- ===== src/Events/Repository/Reads.antt =====
-- Reading an event is quiet.
use incident_garden.Prelude.{arith}
use incident_garden.Domain.{Uuid}
use incident_garden.Store.{Db, rows}
use incident_garden.Store.Steps.{Step}
use incident_garden.Store.Quiet.{IsRead, Unseen, quiet_rules}
use incident_garden.Events.Repository.{select_event, get_event}

select_event-IsRead : (e : Uuid) → IsRead (select_event e)
unfolding select_event
select_event-IsRead e = record { at = λ d d' a h. ground arith }

pub rows-IsRead : {A : Type 0} (f : Db → A) → IsRead (λ d. rows (f d) d)
rows-IsRead f = record { at = λ d d' a h. ground arith }

pub get_event-Unseen : (e : Uuid) → Step Unseen (get_event e)
unfolding get_event
get_event-Unseen e = search (quiet_rules, select_event-IsRead, rows-IsRead)
