-- ===== src/Catalog/Service/Grouped.antt =====
-- What `DeleteGroup` archives.
use incident_garden.Prelude.{
  ℕ, ◌≡◌, sym, ap, ◌∙◌, inl, inr, Bool, true, false, ◌&&◌, Option, some, arith, ◌==◌, ltb, any,
  update_where, Bool-cases, ==_iff,
}
use mathlib.Core.Path.{subst}
use incident_garden.Domain.{Uuid, Time, Event, ServiceGroup, is_active}
use incident_garden.Store.{Error, Db, World, ok, rows}
use incident_garden.Store.Tables.{
  Ends, Ends-bind, Ends-pure, Ends-fail, Ends-weaken, Ends-if, Ends-fail_if, Ends-on_pool,
  Ends-read_clock,
}
use incident_garden.Catalog.Repository.{has_active_events}
use incident_garden.Catalog.Repository.Writes.{is_member, select_group}
use incident_garden.Catalog.Repository.Archive.{
  is_live_service, is_live_group, group_archived_at, update_groups, why_group_kept, archive_group,
  count_group_events, count_group_services,
}
use incident_garden.Catalog.Service.{delete_group}
use incident_garden.Catalog.Service.Archived.{none_counted, witness, active_link}

idle_of_count :
    (g s : Uuid) (d d' : Db) (n : ℕ)
    → count_group_events g d ≡ rows n d'
    → ltb 0 n ≡ false
    → any (is_member s g) d.service_group_members ≡ true
    → has_active_events d s ≡ false
unfolding count_group_events
idle_of_count g s d d' n h zero member = elim (Bool-cases (has_active_events d s)) [
  | inl busy ↦
      let (l, e, of_service, of_event, active, links, events) = active_link s d busy in
      let p = λ (x : Event).
        is_active x.status
        && any (λ k. k.event_id == x.id && any (is_member k.service_id g) d.service_group_members)
            d.event_services in
      let own : any (is_member l.service_id g) d.service_group_members ≡ true =
        ap (λ t. any (is_member t g) d.service_group_members) of_service ∙ member in
      let linked =
        links (λ k. k.event_id == e.id && any (is_member k.service_id g) d.service_group_members)
          (ground (arith, of_event, own, ==_iff l.event_id e.id)) in
      let uncounted = none_counted p d.events (ground (arith, h, zero)) in
      absurd (ground (arith, events p (ground (arith, active, linked)), uncounted))
  | inr idle ↦ idle
]

archived_of_count :
    (g s : Uuid) (d d' : Db) (n : ℕ)
    → count_group_services g d ≡ rows n d'
    → ltb 0 n ≡ false
    → any (is_member s g) d.service_group_members ≡ true
    → any (is_live_service s) d.services ≡ false
unfolding count_group_services
archived_of_count g s d d' n h zero member =
    elim (Bool-cases (any (is_live_service s) d.services)) [
      | inl live ↦
          let (m, own, members) = witness (is_member s g) d.service_group_members member in
          let same : s ≡ m.0 = ground (arith, own, ==_iff m.0 s) in
          let p = λ (x : Uuid × Uuid). x.1 == g && any (is_live_service x.0) d.services in
          let uncounted = none_counted p d.service_group_members (ground (arith, h, zero)) in
          let there = ap (λ t. any (is_live_service t) d.services) (sym same) ∙ live in
          absurd (ground (arith, members p (ground (arith, own, there)), uncounted))
      | inr none_live ↦ none_live
    ]

-- The group was not archived, none of its services was live or affected by an active event, and one
-- row is archived.
pub record GroupDeleted (g : Uuid) (d d' : Db) : Type 0 where
  pub idle :
      (s : Uuid)
      → any (is_member s g) d.service_group_members ≡ true
      → (any (is_live_service s) d.services ≡ false) × (has_active_events d s ≡ false)
  pub was_live : any (is_live_group g) d.service_groups ≡ true
  pub now : Time
  pub archived : d' ≡ record d {
    service_groups =
        update_where (is_live_group g) (group_archived_at (some now) now) d.service_groups;
  }

counts-eq :
    (g : Uuid) (d d' d'' : Db) (n m : ℕ)
    → count_group_events g d ≡ rows n d'
    → count_group_services g d' ≡ rows m d''
    → (d' ≡ d) × (d'' ≡ d)
unfolding count_group_events count_group_services
counts-eq g d d' d'' n m h k = (ground (arith, h), ground (arith, h, k))

update_groups-eq :
    (p : ServiceGroup → Bool) (f : ServiceGroup → ServiceGroup) (d d' : Db) (b : Bool)
    → update_groups p f d ≡ rows b d'
    → (any p d.service_groups ≡ b)
      × (d' ≡ record d { service_groups = update_where p f d.service_groups })
unfolding update_groups
update_groups-eq p f d d' b h = (ground (arith, h), ground (arith, h))

Ends-why_kept :
    {P : Unit {0} → World → Type 0} (g : Uuid) (reason : Option Time → Error) (w : World)
    → Ends P (why_group_kept g reason) w
unfolding why_group_kept
Ends-why_kept g reason w =
    Ends-bind _ _ w (Ends-on_pool (select_group _) w) λ row u _. Ends-fail _ u

archive_group-Archives :
    (g : Uuid) (w : World)
    → ((s : Uuid)
        → any (is_member s g) w.db.service_group_members ≡ true
        → (any (is_live_service s) w.db.services ≡ false) × (has_active_events w.db s ≡ false))
    → Ends (λ _ u. GroupDeleted g w.db u.db) (archive_group g) w
unfolding archive_group
archive_group-Archives g w idle = Ends-bind _ _ w (Ends-read_clock w) λ now w₁ same.
    Ends-bind _ _ w₁
      (Ends-on_pool (update_groups (is_live_group g) (group_archived_at (some now) now)) w₁)
      λ affected w₂ done.
        let (hit, eq) =
          update_groups-eq (is_live_group g) (group_archived_at (some now) now) w.db w₂.db affected
            (ap
                (λ (z : World).
                  update_groups (is_live_group g) (group_archived_at (some now) now) z.db)
                (sym same)
              ∙ done) in
        Ends-if affected _ _ w₂
          (λ yes.
            Ends-pure tt w₂
              (record { idle = idle; was_live = hit ∙ yes; now = now; archived = eq }))
          (λ no. Ends-why_kept g _ w₂)

delete_group-Ends :
    (g : Uuid) (w : World) → Ends (λ _ u. GroupDeleted g w.db u.db) (delete_group g) w
unfolding delete_group
delete_group-Ends g w = Ends-bind _ _ w (Ends-on_pool (count_group_events g) w) λ n w₁ events.
    Ends-bind _ _ w₁ (Ends-fail_if (ltb 0 n) _ w₁) λ _ w₂ no_events.
      Ends-bind _ _ w₂ (Ends-on_pool (count_group_services g) w₂) λ m w₃ services.
        Ends-bind _ _ w₃ (Ends-fail_if (ltb 0 m) _ w₃) λ _ w₄ no_services.
          let services' =
            ap (λ (z : World). count_group_services g z.db) (sym no_events.1) ∙ services in
          let (first, second) = counts-eq g w.db w₁.db w₃.db n m events services' in
          let same : w₄.db ≡ w.db = ap (λ (z : World). z.db) no_services.1 ∙ second in
          let counted = ap (count_group_services g) (sym first) ∙ services' in
          Ends-weaken
            (archive_group-Archives g w₄ (
              subst
                (λ d.
                  (s : Uuid)
                  → any (is_member s g) d.service_group_members ≡ true
                  → (any (is_live_service s) d.services ≡ false) × (has_active_events d s ≡ false))
                (sym same)
                λ s member. (
                  archived_of_count g s w.db w₃.db m counted no_services.0 member,
                  idle_of_count g s w.db w₁.db n events no_events.0 member,
                )))
            λ t w₅ a. subst (λ d. GroupDeleted g d w₅.db) same a

-- A DeleteGroup that returns has archived a group that was not archived, whose services are all
-- archived and without active events, and has changed nothing else.
pub delete_group-Archives :
    (g : Uuid) (w w' : World) (t : Unit {0})
    → delete_group g w ≡ (ok t, w')
    → GroupDeleted g w.db w'.db
delete_group-Archives g w w' t h = (delete_group-Ends g w).at t w' h
