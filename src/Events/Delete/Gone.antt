-- ===== src/Events/Delete/Gone.antt =====
-- What `DeleteEvent` removes, and what it leaves.
use mathlib.Core.Path.{subst}
use incident_garden.Prelude.{
  ◌≡◌, refl, sym, ap, ◌∙◌, inl, inr, Bool, true, false, ◌&&◌, ◌||◌, not, none, some, List, [], ◌∷◌,
  arith, map, ◌==◌, if◌then◌else◌, any, keep, find_first, Bool-cases, ==_iff,
}
use incident_garden.Domain.{
  Uuid, Event, EventService, ServiceStatusLogEntry, is_resolved, is_scheduled,
}
use incident_garden.Store.{Db, World, ok, rows}
use incident_garden.Store.Tables.{
  Ends, Ends-bind, Ends-pure, Ends-weaken, Ends-if, Ends-fail_if, Ends-begin_tx, Ends-finally,
  Ends-in_tx, Ends-commit, Ends-notify,
}
use incident_garden.Catalog.Repository.{delete_log}
use incident_garden.Events.Repository.{
  is_event, is_link, of_event, logs_event, clear_event, delete_event_row,
}
use incident_garden.Events.Repository.Row.{IsRow, get_event-IsRow}
use incident_garden.Events.Delete.{delete_body, delete_event}

-- No table has a row of the event.
pub record Unmentioned (e : Uuid) (d : Db) : Type 0 where
  pub no_event : any (is_event e) d.events ≡ false
  pub no_link : any (of_event e) d.event_services ≡ false
  pub no_group : any (λ p. p.0 == e) d.event_groups ≡ false
  pub no_update : any (λ u. u.event_id == e) d.event_updates ≡ false
  pub no_change : any (λ c. c.event_id == e) d.event_service_changes ≡ false
  pub no_log : any (logs_event e) d.service_status_log ≡ false
  pub no_subscriber : any (λ p. p.0 == e) d.event_subscribers ≡ false
  pub no_notification : any (λ n. n.1 == e) d.notification_queue ≡ false

-- The other events, with their links, and the services are as they were.
pub record LeavesOthers (e : Uuid) (d d' : Db) : Type 0 where
  pub events :
      (t : Uuid)
      → find_first (is_event t) d'.events
        ≡ (if t == e then none else find_first (is_event t) d.events)
  pub links :
      (t s : Uuid)
      → find_first (is_link t s) d'.event_services
        ≡ (if t == e then none else find_first (is_link t s) d.event_services)
  pub services : d'.services ≡ d.services

any_dropped : {A : Type 0} (p : A → Bool) (xs : List A) → any p (keep (λ x. not (p x)) xs) ≡ false
any_dropped p [] = refl
any_dropped p (x ∷ xs) = ground (arith, any_dropped p xs, Bool-cases (p x))

any_dropped_log :
    (e : Uuid) (xs : List ServiceStatusLogEntry)
    → any (logs_event e) (map (clear_event e) (keep (λ x. not (logs_event e x)) xs)) ≡ false
unfolding clear_event
any_dropped_log e [] = refl
any_dropped_log e (x ∷ xs) = elim (Bool-cases (logs_event e x)) [
  | inl hit ↦ rw hit (any_dropped_log e xs)
  | inr miss ↦ rw (miss, miss, miss) (any_dropped_log e xs)
]

pub find_event_dropped :
    (e t : Uuid) (xs : List Event)
    → find_first (is_event t) (keep (λ r. not (is_event e r)) xs)
      ≡ (if t == e then none else find_first (is_event t) xs)
find_event_dropped e t [] = ground arith
find_event_dropped e t (x ∷ xs) =
    ground (arith, find_event_dropped e t xs, ==_iff x.id e, ==_iff x.id t, ==_iff t e)

find_link_dropped :
    (e t s : Uuid) (xs : List EventService)
    → find_first (is_link t s) (keep (λ r. not (of_event e r)) xs)
      ≡ (if t == e then none else find_first (is_link t s) xs)
find_link_dropped e t s [] = ground arith
find_link_dropped e t s (x ∷ xs) = ground (
  arith,
  find_link_dropped e t s xs,
  ==_iff x.event_id e,
  ==_iff x.event_id t,
  ==_iff t e,
  Bool-cases (x.service_id == s),
)

-- What the transaction does to the tables.
record Drops (e : Uuid) (d d' : Db) : Type 0 where
  unmentioned : Unmentioned e d'
  others : LeavesOthers e d d'

-- The rows that the two statements keep.
record Filters (e : Uuid) (a c : Db) : Type 0 where
  kept_events : c.events ≡ keep (λ r. not (is_event e r)) a.events
  kept_links : c.event_services ≡ keep (λ r. not (of_event e r)) a.event_services
  kept_groups : c.event_groups ≡ keep (λ p. not (p.0 == e)) a.event_groups
  kept_updates : c.event_updates ≡ keep (λ u. not (u.event_id == e)) a.event_updates
  kept_changes : c.event_service_changes ≡ keep (λ x. not (x.event_id == e)) a.event_service_changes
  kept_log :
      c.service_status_log
      ≡ map (clear_event e) (keep (λ l. not (logs_event e l)) a.service_status_log)
  kept_services : c.services ≡ a.services
  kept_subscribers : c.event_subscribers ≡ keep (λ p. not (p.0 == e)) a.event_subscribers
  kept_queue : c.notification_queue ≡ keep (λ n. not (n.1 == e)) a.notification_queue

delete_rows-Filters :
    (e : Uuid) (a b c : Db) (t u : Unit {0})
    → delete_log e a ≡ rows t b
    → delete_event_row e b ≡ rows u c
    → Filters e a c
unfolding delete_log delete_event_row
delete_rows-Filters e a b c t u h k = record {
  kept_events = ground arith;
  kept_links = ground arith;
  kept_groups = ground arith;
  kept_updates = ground arith;
  kept_changes = ground arith;
  kept_log = ground arith;
  kept_services = ground arith;
  kept_subscribers = ground arith;
  kept_queue = ground arith;
}

Filters-Drops : (e : Uuid) (a c : Db) → Filters e a c → Drops e a c
Filters-Drops e a c f = record {
  unmentioned = record {
    no_event = ap (any (is_event e)) f.kept_events ∙ any_dropped (is_event e) a.events;
    no_link = ap (any (of_event e)) f.kept_links ∙ any_dropped (of_event e) a.event_services;
    no_group = ap (any (λ p. p.0 == e)) f.kept_groups ∙ any_dropped (λ p. p.0 == e) a.event_groups;
    no_update =
        ap (any (λ u. u.event_id == e)) f.kept_updates
        ∙ any_dropped (λ u. u.event_id == e) a.event_updates;
    no_change =
        ap (any (λ x. x.event_id == e)) f.kept_changes
        ∙ any_dropped (λ x. x.event_id == e) a.event_service_changes;
    no_log = ap (any (logs_event e)) f.kept_log ∙ any_dropped_log e a.service_status_log;
    no_subscriber =
        ap (any (λ p. p.0 == e)) f.kept_subscribers
        ∙ any_dropped (λ p. p.0 == e) a.event_subscribers;
    no_notification =
        ap (any (λ n. n.1 == e)) f.kept_queue ∙ any_dropped (λ n. n.1 == e) a.notification_queue;
  };
  others = record {
    events = λ t. ap (find_first (is_event t)) f.kept_events ∙ find_event_dropped e t a.events;
    links = λ t s.
        ap (find_first (is_link t s)) f.kept_links ∙ find_link_dropped e t s a.event_services;
    services = f.kept_services;
  };
}

delete_body-Filters : (e : Uuid) (w : World) → Ends (λ _ w'. Filters e w.tx w'.db) (delete_body e) w
unfolding delete_body
delete_body-Filters e w = Ends-bind _ _ w (Ends-in_tx (delete_log e) w) λ t u first.
    Ends-bind _ _ u (Ends-in_tx (delete_event_row e) u) λ t' v second.
      Ends-weaken (Ends-commit v) λ t'' x done.
        subst (Filters e w.tx) (sym done) (delete_rows-Filters e w.tx u.tx v.tx t t' first second)

-- What a deletion that returns has done: the event was there, and was over or not yet begun; no
-- table mentions it any more, and the other events, their links and the services are as they were.
pub record Deleted (e : Uuid) (d d' : Db) : Type 0 where
  pub row : Event
  pub found : find_first (is_event e) d.events ≡ some row
  pub was_closed : (is_resolved row.status || is_scheduled row.status) ≡ true
  pub unmentioned : Unmentioned e d'
  pub others : LeavesOthers e d d'

closed_of : (a b : Bool) → (not a && not b) ≡ false → (a || b) ≡ true
closed_of true b h = refl
closed_of false b h = ground (arith, Bool-cases b)

-- The same, with the filters.
pub record DeletedBy (e : Uuid) (d d' : Db) : Type 0 where
  pub event : Event
  pub is_row : IsRow e event d
  pub closed : (is_resolved event.status || is_scheduled event.status) ≡ true
  pub events : d'.events ≡ keep (λ r. not (is_event e r)) d.events
  pub links : d'.event_services ≡ keep (λ r. not (of_event e r)) d.event_services
  pub deleted : Deleted e d d'

DeletedBy-of :
    (e : Uuid) (d d' : Db) (event : Event)
    → IsRow e event d
    → (is_resolved event.status || is_scheduled event.status) ≡ true
    → Filters e d d'
    → DeletedBy e d d'
DeletedBy-of e d d' event r closed f =
    let drops = Filters-Drops e d d' f in
    record {
      event = event;
      is_row = r;
      closed = closed;
      events = f.kept_events;
      links = f.kept_links;
      deleted = record {
        row = r.row;
        found = r.found;
        was_closed =
            ap (λ (x : Event). is_resolved x.status || is_scheduled x.status) (sym r.read) ∙ closed;
        unmentioned = drops.unmentioned;
        others = drops.others;
      };
    }

pub delete_event-DeletedBy :
    (b : Bool) (e : Uuid) (w : World) → Ends (λ _ w'. DeletedBy e w.db w'.db) (delete_event b e) w
unfolding delete_event
delete_event-DeletedBy b e w = Ends-bind _ _ w (get_event-IsRow e w) λ event u₀ s₀.
    Ends-bind _ _ u₀
      (Ends-fail_if (not (is_resolved event.status) && not (is_scheduled event.status)) _ u₀)
      λ t₁ u₁ s₁.
        Ends-bind {P = λ _ u₂. u₂.db ≡ u₁.db} _ _ u₁
          (Ends-if (is_scheduled event.status && b && event.notify_subscribers) _ _ u₁
            (λ hit. Ends-notify _ u₁) (λ miss. Ends-pure tt u₁ refl))
          λ t₂ u₂ s₂. Ends-bind _ _ u₂ (Ends-begin_tx u₂) λ t₃ u₃ s₃.
            let same : u₃.tx ≡ w.db = s₃ ∙ s₂ ∙ ap (λ (x : World). x.db) s₁.1 ∙ s₀.1 in
            Ends-finally (λ _ d. DeletedBy e w.db d) (delete_body e) u₃
              (Ends-weaken (delete_body-Filters e u₃) λ t₄ u₄ s₄.
                DeletedBy-of e w.db u₄.db event s₀.0
                  (closed_of (is_resolved event.status) (is_scheduled event.status) s₁.0)
                  (subst (λ d. Filters e d u₄.db) same s₄))

-- A deletion that returns has removed an event that was over or not yet begun, and every row that
-- mentions it; every other event, its links and the services are as they were.
pub delete_event-Deleted :
    (has_notifier : Bool) (e : Uuid) (w w' : World) (t : Unit {0})
    → delete_event has_notifier e w ≡ (ok t, w')
    → Deleted e w.db w'.db
delete_event-Deleted b e w w' t h = ((delete_event-DeletedBy b e w).at t w' h).deleted
