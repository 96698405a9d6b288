-- ===== src/Catalog/Effective.antt =====
-- The effective status of a service is the worst status that an active event gives it, and the
-- stored one where no active event does.
use incident_garden.Prelude.{
  ◌≡◌, refl, ◌≤◌, ◌⊎◌, inl, inr, Bool, true, false, Option, none, some, List, [], ◌∷◌, arith, ltb,
  any, keep, find_first, All, Bool-cases,
}
use mathlib.Core.Path.{subst}
use native.Mathlib.Nat.{le_refl}
use incident_garden.Domain.{Uuid, EventService, Service, ServiceStatus}
use incident_garden.Store.{Db, rows}
use incident_garden.Catalog.Repository.{
  service_status_priority, is_service, get_effective_status, affects, worst, or_stored,
  effective_status, has_active_events,
}

-- No link in the list has a status of higher priority.
abbrev pub AtMost : ServiceStatus → List EventService → Type 0
AtMost st = All λ r. service_status_priority r.status ≤ service_status_priority st

-- Some link in the list has the status.
abbrev pub IsGiven : ServiceStatus → List EventService → Type 0
IsGiven st [] = ⊥
IsGiven st (r ∷ rs) = (r.status ≡ st) ⊎ IsGiven st rs

AtMost-mono :
    (st st' : ServiceStatus) (rs : List EventService)
    → AtMost st rs
    → service_status_priority st ≤ service_status_priority st'
    → AtMost st' rs
AtMost-mono st st' [] h le = tt
AtMost-mono st st' (r ∷ rs) h le = (omega arith, AtMost-mono st st' rs h.1 le)

-- What `worst` finds: nothing in an empty list, else a status that is there and no less than any.
abbrev pub Finds : List EventService → Option ServiceStatus → Type 0
Finds rs none = rs ≡ []
Finds rs (some st) = IsGiven st rs × AtMost st rs

Finds-cons :
    (r : EventService) (rs : List EventService) (o : Option ServiceStatus)
    → worst rs ≡ o
    → Finds rs o
    → Finds (r ∷ rs) (worst (r ∷ rs))
unfolding worst
Finds-cons r rs none e h = rw (e, h) (inl refl, ground arith)
Finds-cons r rs (some st) e h =
    elim (Bool-cases (ltb (service_status_priority r.status) (service_status_priority st))) [
      | inl lower ↦ rw (e, lower) (inr h.0, (ground arith, h.1))
      | inr higher ↦
          rw (e, higher) (inl refl, (le_refl _, AtMost-mono st r.status rs h.1 (ground arith)))
    ]

worst-Finds : (rs : List EventService) → Finds rs (worst rs)
worst-Finds [] = unfold worst in refl
worst-Finds (r ∷ rs) = Finds-cons r rs (worst rs) refl (worst-Finds rs)

-- What a status page shows, from the stored status and the links of the active events.
abbrev pub IsEffective : ServiceStatus → List EventService → ServiceStatus × Bool → Type 0
IsEffective stored [] (st, has_active) = (st ≡ stored) × (has_active ≡ false)
IsEffective stored (r ∷ rs) (st, has_active) =
    IsGiven st (r ∷ rs) × AtMost st (r ∷ rs) × (has_active ≡ true)

any-keep-cons :
    (p : EventService → Bool) (xs : List EventService) {r : EventService} {rs : List EventService}
    → keep p xs ≡ r ∷ rs
    → any p xs ≡ true
any-keep-cons p [] h = cc
any-keep-cons p (x ∷ xs) {r} {rs} h = ground (arith, any-keep-cons p xs {r = r} {rs = rs})

any-keep-nil :
    (p : EventService → Bool) (xs : List EventService) → keep p xs ≡ [] → any p xs ≡ false
any-keep-nil p [] h = refl
any-keep-nil p (x ∷ xs) h = ground (arith, any-keep-nil p xs)

or_stored-Finds :
    (stored : ServiceStatus) (r : EventService) (rs : List EventService) (o : Option ServiceStatus)
    → Finds (r ∷ rs) o
    → IsGiven (or_stored stored o) (r ∷ rs) × AtMost (or_stored stored o) (r ∷ rs)
or_stored-Finds stored r rs none h = cc
or_stored-Finds stored r rs (some st) h = h

IsEffective-of :
    (d : Db) (s : Uuid) (stored : ServiceStatus) (rs : List EventService)
    → keep (affects d s) d.event_services ≡ rs
    → IsEffective stored rs (or_stored stored (worst rs), has_active_events d s)
unfolding has_active_events
IsEffective-of d s stored [] e =
    (unfold worst in refl, any-keep-nil (affects d s) d.event_services e)
IsEffective-of d s stored (r ∷ rs) e =
    let found = or_stored-Finds stored r rs (worst (r ∷ rs)) (worst-Finds (r ∷ rs)) in
    (found.0, found.1, any-keep-cons (affects d s) d.event_services e)

shown_eq :
    (s : Uuid) (d d' : Db) (row : Service) (shown : ServiceStatus × Bool)
    → find_first (is_service s) d.services ≡ some row
    → get_effective_status s d ≡ rows shown d'
    → ◌≡◌ {A = ServiceStatus × Bool} (effective_status d s row.status, has_active_events d s) shown
unfolding get_effective_status
shown_eq s d d' row shown found h = ground arith

-- What the view shows of a service is the worst status that a link of an active event gives it:
-- one that some such link has, and that none passes in priority. Where there is no such link, it is
-- the stored status, and the service is shown as having no active event.
pub get_effective_status-IsEffective :
    (s : Uuid) (d d' : Db) (row : Service) (shown : ServiceStatus × Bool)
    → find_first (is_service s) d.services ≡ some row
    → get_effective_status s d ≡ rows shown d'
    → IsEffective row.status (keep (affects d s) d.event_services) shown
unfolding get_effective_status effective_status
get_effective_status-IsEffective s d d' row shown found h =
    subst (IsEffective row.status (keep (affects d s) d.event_services))
      (shown_eq s d d' row shown found h)
      (IsEffective-of d s row.status (keep (affects d s) d.event_services) refl)
