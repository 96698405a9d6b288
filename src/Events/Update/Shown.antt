-- ===== src/Events/Update/Shown.antt =====
-- What the status page shows after an event is resolved.
use incident_garden.Prelude.{
  ◌≡◌, refl, sym, ap, ◌∙◌, Bool, true, false, ◌&&◌, not, Option, none, some, List, [], ◌∷◌, arith,
  ◌==◌, any, keep, find_first, contains, ==_iff,
}
use incident_garden.Domain.{
  Uuid, EventService, EventStatus, EventUpdate, Service, ServiceStatus, operational, is_resolved,
  is_active,
}
use incident_garden.Inputs.{CreateEventUpdateInput}
use incident_garden.Store.{Db, World, ok, rows}
use incident_garden.Catalog.Repository.{
  is_service, affects, worst, effective_status, has_active_events, get_effective_status,
}
use incident_garden.Events.Repository.{event_is_active, other_active, select_service_ids}
use incident_garden.Events.Update.{add_update}
use incident_garden.Events.Update.Recalculate.{stored_status, raise}
use incident_garden.Events.Update.Resolution.{Updated, add_update-Updated}

resolved-not_active : (st : EventStatus) → is_resolved st ≡ true → is_active st ≡ false
unfolding is_resolved is_active
resolved-not_active st h = ground arith

-- Where an event is not active, the links that affect a service are those of other events.
keep-affects-nil :
    (d : Db) (t e : Uuid) (rs : List EventService)
    → event_is_active d.events e ≡ false
    → any
        (λ r. r.service_id == t && not (r.event_id == e) && event_is_active d.events r.event_id)
        rs
      ≡ false
    → keep (affects d t) rs ≡ []
unfolding affects
keep-affects-nil d t e [] h k = refl
keep-affects-nil d t e (r ∷ rs) h k =
    ground (arith, keep-affects-nil d t e rs h, ==_iff r.event_id e)

any-affects-false :
    (d : Db) (t e : Uuid) (rs : List EventService)
    → keep (affects d t) rs ≡ []
    → any (affects d t) rs ≡ false
any-affects-false d t e [] h = refl
any-affects-false d t e (r ∷ rs) h = ground (arith, any-affects-false d t e rs)

worst_nil : worst [] ≡ none
unfolding worst
worst_nil = refl

-- A service that no active event affects is shown with its stored status.
shown_stored :
    (d : Db) (t e : Uuid) (row : Service)
    → event_is_active d.events e ≡ false
    → other_active t e d ≡ false
    → find_first (is_service t) d.services ≡ some row
    → get_effective_status t d ≡ rows (row.status, false) d
unfolding get_effective_status effective_status has_active_events other_active
shown_stored d t e row quiet others found =
    let none_left = keep-affects-nil d t e d.event_services quiet others in
    ground (arith, found, none_left, any-affects-false d t e d.event_services none_left, worst_nil)

raise-operational :
    (o : Option ServiceStatus) (st : ServiceStatus) → some st ≡ raise o → st ≡ operational
raise-operational none st h = cc
raise-operational (some x) st h = ground arith

stored-found :
    (d : Db) (t : Uuid) (row : Service)
    → find_first (is_service t) d.services ≡ some row
    → stored_status t d ≡ some row.status
unfolding stored_status
stored-found d t row found = ground (arith, found)

shown_raised :
    (d d' : Db) (t e : Uuid) (row : Service)
    → event_is_active d'.events e ≡ false
    → stored_status t d' ≡ raise (stored_status t d)
    → other_active t e d' ≡ false
    → find_first (is_service t) d'.services ≡ some row
    → get_effective_status t d' ≡ rows (operational, false) d'
shown_raised d d' t e row quiet raised others found =
    shown_stored d' t e row quiet others found
    ∙ ap (λ st. rows (st, false) d')
        (raise-operational (stored_status t d) row.status
          (sym (stored-found d' t row found) ∙ raised))

quiet_after :
    (w w' : World) (input : CreateEventUpdateInput) (t : Uuid)
    → is_resolved input.status ≡ true
    → Updated input w.db w'.db
    → event_is_active w'.db.events input.event_id ≡ false
quiet_after w w' input t done r =
    r.activity input.event_id
    ∙ ground (arith, ==_iff input.event_id input.event_id, resolved-not_active input.status done)

-- After an update that resolves an event, every service of the event that no other active event
-- affects is shown as operational and without active events.
pub add_update-shown :
    (has_notifier : Bool) (input : CreateEventUpdateInput) (by : Uuid) (w w' : World)
    (u : EventUpdate) (t : Uuid) (row : Service)
    → add_update has_notifier input by w ≡ (ok u, w')
    → is_resolved input.status ≡ true
    → contains t (select_service_ids input.event_id w'.db.event_services) ≡ true
    → other_active t input.event_id w'.db ≡ false
    → find_first (is_service t) w'.db.services ≡ some row
    → get_effective_status t w'.db ≡ rows (operational, false) w'.db
add_update-shown b input by w w' u t row run done member others found =
    let r = add_update-Updated b input by w w' u run in
    shown_raised w.db w'.db t input.event_id row (quiet_after w w' input t done r)
      (r.stored t ∙ ground (arith, done, member, others)) others found
