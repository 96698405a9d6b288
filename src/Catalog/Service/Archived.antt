-- ===== src/Catalog/Service/Archived.antt =====
-- What `DeleteService` archives.
use incident_garden.Prelude.{
  ℕ, ◌≡◌, refl, ap, ◌∙◌, inl, inr, Bool, true, false, ◌&&◌, Option, some, List, [], ◌∷◌, arith,
  ◌==◌, ltb, any, count, update_where, Bool-cases, ==_iff,
}
use mathlib.Core.Path.{subst}
use incident_garden.Domain.{Uuid, Time, Event, EventService, Service, is_active}
use incident_garden.Store.{Error, Db, World, ok, rows}
use incident_garden.Store.Tables.{
  Ends, Ends-bind, Ends-pure, Ends-fail, Ends-weaken, Ends-if, Ends-fail_if, Ends-on_pool,
  Ends-read_clock,
}
use incident_garden.Events.Repository.{is_link, event_is_active}
use incident_garden.Catalog.Repository.{affects, has_active_events}
use incident_garden.Catalog.Repository.Writes.{select_service}
use incident_garden.Catalog.Repository.Archive.{
  is_live_service, with_archived_at, update_services, why_service_kept, archive_service,
  count_service_events,
}
use incident_garden.Catalog.Service.{delete_service}

module _ {A : Type 0} where
  pub none_counted : (p : A → Bool) (xs : List A) → ltb 0 (count p xs) ≡ false → any p xs ≡ false
  none_counted p [] h = refl
  none_counted p (x ∷ xs) h = ground (arith, h, none_counted p xs, Bool-cases (p x))

  -- A row that a test accepts: another test that accepts it finds it.
  pub witness :
      (p : A → Bool) (xs : List A)
      → any p xs ≡ true
      → (x : A) × (p x ≡ true) × ((q : A → Bool) → q x ≡ true → any q xs ≡ true)
  witness p [] h = cc
  witness p (x ∷ xs) h = elim (Bool-cases (p x)) [
    | inl hit ↦ (x, hit, λ q e. ground (arith, e))
    | inr miss ↦
        let (y, hit, others) = witness p xs (ground (arith, miss, h)) in
        (y, hit, λ q e. ground (arith, others q e, Bool-cases (q x)))
  ]

-- A service that an active event affects: the event, and its link.
pub active_link :
    (s : Uuid) (d : Db)
    → has_active_events d s ≡ true
    → (l : EventService) × (e : Event) × (l.service_id ≡ s)
      × (l.event_id ≡ e.id)
      × (is_active e.status ≡ true)
      × ((q : EventService → Bool) → q l ≡ true → any q d.event_services ≡ true)
      × ((q : Event → Bool) → q e ≡ true → any q d.events ≡ true)
unfolding has_active_events affects event_is_active
active_link s d h =
    let (l, affected, links) = witness (affects d s) d.event_services h in
    let (e, active, events) =
      witness (λ row. row.id == l.event_id && is_active row.status) d.events
        (ground (arith, affected)) in
    (l, e, ground (arith, affected), ground (arith, active), ground (arith, active), links, events)

idle_of_count :
    (s : Uuid) (d d' : Db) (n : ℕ)
    → count_service_events s d ≡ rows n d'
    → ltb 0 n ≡ false
    → (has_active_events d s ≡ false) × (d' ≡ d)
unfolding count_service_events
idle_of_count s d d' n h zero = elim (Bool-cases (has_active_events d s)) [
  | inl busy ↦
      let (l, e, of_service, of_event, active, links, events) = active_link s d busy in
      let linked =
        links (is_link e.id s)
          (ground (arith, of_service, of_event, ==_iff l.event_id e.id, ==_iff l.service_id s)) in
      let p = λ (x : Event). is_active x.status && any (is_link x.id s) d.event_services in
      let uncounted = none_counted p d.events (ground (arith, h, zero)) in
      absurd (ground (arith, events p (ground (arith, active, linked)), uncounted))
  | inr idle ↦ (idle, ground (arith, h))
]

-- One row is archived at the time, and nothing else is touched.
pub record Archives (s : Uuid) (d d' : Db) : Type 0 where
  pub was_live : any (is_live_service s) d.services ≡ true
  pub now : Time
  pub archived : d' ≡ record d {
    services = update_where (is_live_service s) (with_archived_at (some now) now) d.services;
  }

update_services-eq :
    (p : Service → Bool) (f : Service → Service) (d d' : Db) (b : Bool)
    → update_services p f d ≡ rows b d'
    → (any p d.services ≡ b) × (d' ≡ record d { services = update_where p f d.services })
unfolding update_services
update_services-eq p f d d' b h = (ground (arith, h), ground (arith, h))

Ends-why_kept :
    {P : Unit {0} → World → Type 0} (s : Uuid) (reason : Option Time → Error) (w : World)
    → Ends P (why_service_kept s reason) w
unfolding why_service_kept
Ends-why_kept s reason w =
    Ends-bind _ _ w (Ends-on_pool (select_service _) w) λ row u _. Ends-fail _ u

archive_service-Archives :
    (s : Uuid) (w : World) → Ends (λ _ u. Archives s w.db u.db) (archive_service s) w
unfolding archive_service
archive_service-Archives s w = Ends-bind _ _ w (Ends-read_clock w) λ now w₁ same.
    Ends-bind _ _ w₁
      (Ends-on_pool (update_services (is_live_service s) (with_archived_at (some now) now)) w₁)
      λ affected w₂ done.
        let (hit, eq) = update_services-eq _ _ w₁.db w₂.db affected done in
        let base = ap (λ (z : World). z.db) same in
        Ends-if affected _ _ w₂
          (λ yes. Ends-pure tt w₂ (
            subst (λ d. Archives s d w₂.db) base
              (record { was_live = hit ∙ yes; now = now; archived = eq })))
          (λ no. Ends-why_kept s _ w₂)

-- A service without active events that was not archived, and its archiving.
pub record Deleted (s : Uuid) (d d' : Db) : Type 0 where
  pub idle : has_active_events d s ≡ false
  pub archives : Archives s d d'

delete_service-Ends :
    (s : Uuid) (w : World) → Ends (λ _ u. Deleted s w.db u.db) (delete_service s) w
unfolding delete_service
delete_service-Ends s w = Ends-bind _ _ w (Ends-on_pool (count_service_events s) w) λ n w₁ counted.
    Ends-bind _ _ w₁ (Ends-fail_if (ltb 0 n) _ w₁) λ _ w₂ zero.
      let (idle, same) = idle_of_count s w.db w₁.db n counted zero.0 in
      Ends-weaken (archive_service-Archives s w₂) λ t w₃ a. record {
        idle = idle;
        archives = subst (λ d. Archives s d w₃.db) (ap (λ (z : World). z.db) zero.1 ∙ same) a;
      }

-- A DeleteService that returns has archived a service that was not archived and has no active event,
-- and has changed nothing else.
pub delete_service-Archives :
    (s : Uuid) (w w' : World) (t : Unit {0})
    → delete_service s w ≡ (ok t, w')
    → Deleted s w.db w'.db
delete_service-Archives s w w' t h = (delete_service-Ends s w).at t w' h
