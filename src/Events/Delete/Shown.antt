-- ===== src/Events/Delete/Shown.antt =====
-- A deletion does not change what the status page shows.
use incident_garden.Prelude.{
  ◌≡◌, refl, sym, ap, ◌∙◌, inl, inr, Bool, true, false, ◌||◌, not, some, List, [], ◌∷◌, arith, map,
  ◌==◌, if◌then◌else◌, any, keep, find_first, contains, distinct, Option-cases, Bool-cases, ==_iff,
}
use incident_garden.Domain.{
  Uuid, Event, EventStatus, EventService, ServiceStatus, is_resolved, is_scheduled, is_active,
}
use incident_garden.Store.{Db, World, ok, rows}
use incident_garden.Catalog.Repository.{
  is_service, affects, worst, or_stored, effective_status, has_active_events, get_effective_status,
}
use incident_garden.Events.Repository.{is_event, of_event, event_is_active}
use incident_garden.Events.Delete.{delete_event}
use incident_garden.Events.Delete.Gone.{DeletedBy, delete_event-DeletedBy}

abbrev pub event_ids : List Event → List Uuid
event_ids = map λ event. event.id

absent-inactive :
    (e : Uuid) (xs : List Event) → contains e (event_ids xs) ≡ false → event_is_active xs e ≡ false
unfolding event_is_active
absent-inactive e [] h = refl
absent-inactive e (x ∷ xs) h = ground (arith, absent-inactive e xs, ==_iff x.id e, ==_iff e x.id)

closed-inactive :
    (st : EventStatus) → (is_resolved st || is_scheduled st) ≡ true → is_active st ≡ false
unfolding is_resolved is_scheduled is_active
closed-inactive st h = ground arith

row-inactive :
    (e : Uuid) (xs : List Event) (row : Event)
    → distinct (event_ids xs) ≡ true
    → find_first (is_event e) xs ≡ some row
    → is_active row.status ≡ false
    → event_is_active xs e ≡ false
unfolding event_is_active
row-inactive e [] row d f h = refl
row-inactive e (x ∷ xs) row d f h = elim (Bool-cases (x.id == e)) [
  | inl hit ↦ ground (arith, hit, f, absent-inactive e xs, ==_iff x.id e)
  | inr miss ↦ ground (arith, miss, row-inactive e xs row (ground (arith, d)))
]

active_dropped :
    (e t : Uuid) (xs : List Event)
    → event_is_active (keep (λ r. not (is_event e r)) xs) t
      ≡ (if t == e then false else event_is_active xs t)
unfolding event_is_active
active_dropped e t [] = ground arith
active_dropped e t (x ∷ xs) = ground (
  arith,
  active_dropped e t xs,
  ==_iff x.id e,
  ==_iff x.id t,
  ==_iff t e,
  Bool-cases (is_active x.status),
)

-- The links that affect a service are the same ones.
affects_dropped :
    (d d' : Db) (e s : Uuid) (rs : List EventService)
    → event_is_active d.events e ≡ false
    → d'.events ≡ keep (λ r. not (is_event e r)) d.events
    → keep (affects d' s) (keep (λ r. not (of_event e r)) rs) ≡ keep (affects d s) rs
unfolding affects
affects_dropped d d' e s [] quiet same = refl
affects_dropped d d' e s (r ∷ rs) quiet same =
    let active : event_is_active d'.events r.event_id
        ≡ (if r.event_id == e then false else event_is_active d.events r.event_id) =
      ap (λ xs. event_is_active xs r.event_id) same ∙ active_dropped e r.event_id d.events in
    elim (Bool-cases (r.event_id == e)) [
      | inl hit ↦
          ground (arith, hit, quiet, affects_dropped d d' e s rs quiet same, ==_iff r.event_id e)
      | inr miss ↦ ground (
        arith,
        miss,
        active,
        affects_dropped d d' e s rs quiet same,
        Bool-cases (r.service_id == s),
        Bool-cases (event_is_active d.events r.event_id),
      )
    ]

any-keep :
    (p : EventService → Bool) (xs : List EventService) → any p xs ≡ any (λ r. true) (keep p xs)
any-keep p [] = refl
any-keep p (x ∷ xs) = ground (arith, any-keep p xs, Bool-cases (p x))

module _ (d d' : Db) (s : Uuid) where
  effective_same :
      (st : ServiceStatus)
      → keep (affects d' s) d'.event_services ≡ keep (affects d s) d.event_services
      → effective_status d' s st ≡ effective_status d s st
  unfolding effective_status
  effective_same st same = ap (λ rs. or_stored st (worst rs)) same

  has_active_same :
      keep (affects d' s) d'.event_services ≡ keep (affects d s) d.event_services
      → has_active_events d' s ≡ has_active_events d s
  unfolding has_active_events
  has_active_same same =
      any-keep (affects d' s) d'.event_services
      ∙ ap (any (λ r. true)) same
      ∙ sym (any-keep (affects d s) d.event_services)

  shown_same :
      (shown : ServiceStatus × Bool)
      → keep (affects d' s) d'.event_services ≡ keep (affects d s) d.event_services
      → d'.services ≡ d.services
      → get_effective_status s d ≡ rows shown d
      → get_effective_status s d' ≡ rows shown d'
  unfolding get_effective_status
  shown_same shown same services h = elim (Option-cases (find_first (is_service s) d.services)) [
    | inl missing ↦ ground (arith, missing)
    | inr (row, found) ↦
        let first : find_first (is_service s) d'.services ≡ some row =
          ap (find_first (is_service s)) services ∙ found in
        let effective = effective_same row.status same in
        let active = has_active_same same in ground (arith, found, first, effective, active)
  ]

quiet_event :
    (e : Uuid) (d d' : Db)
    → distinct (event_ids d.events) ≡ true
    → DeletedBy e d d'
    → event_is_active d.events e ≡ false
quiet_event e d d' u x =
    row-inactive e d.events x.deleted.row u x.deleted.found
      (closed-inactive x.deleted.row.status x.deleted.was_closed)

-- Where the identifiers of the events are distinct, a deletion that returns does not change what any
-- service is shown as.
pub delete_event-shown :
    (has_notifier : Bool) (e : Uuid) (w w' : World) (t : Unit {0}) (s : Uuid)
    (shown : ServiceStatus × Bool)
    → delete_event has_notifier e w ≡ (ok t, w')
    → distinct (event_ids w.db.events) ≡ true
    → get_effective_status s w.db ≡ rows shown w.db
    → get_effective_status s w'.db ≡ rows shown w'.db
delete_event-shown b e w w' t s shown h u before =
    let x = (delete_event-DeletedBy b e w).at t w' h in
    let same : keep (affects w'.db s) w'.db.event_services
        ≡ keep (affects w.db s) w.db.event_services =
      ap (keep (affects w'.db s)) x.links
      ∙ affects_dropped w.db w'.db e s w.db.event_services (quiet_event e w.db w'.db u x)
          x.events in
    shown_same w.db w'.db s shown same x.deleted.others.services before
