-- ===== src/Events/Create/Links.antt =====
-- Which services a created event affects, and how.
use mathlib.Core.Path.{subst}
use incident_garden.Catalog.Repository.Reads.{get_service_status-OnTx}
use incident_garden.Prelude.{
  String, ◌≡◌, refl, sym, ap, ◌∙◌, inl, inr, Bool, true, false, ◌&&◌, Option, none, List, [], ◌∷◌,
  arith, ◌==◌, if◌then◌else◌, contains, distinct, Bool-cases, ==_iff,
}
use incident_garden.Domain.{
  Uuid, Event, EventService, EventServiceChange, ServiceStatus, ServiceStatusLogEntry,
  AffectedService, AffectedGroup, ChangeAction,
}
use incident_garden.Inputs.{CreateEventInput}
use incident_garden.Store.{Db, World, rows, fold_each, read_clock}
use incident_garden.Store.Steps.{Step, step_rules, Step-read_clock}
use incident_garden.Store.Tables.{
  DbPreorder, DbStep, OnTx, OnTx-IsPreorder, in_tx-OnTx, on_pool-OnTx, fresh_id-OnTx, Ends,
  Ends-bind, Ends-Step, Ends-pure, Ends-weaken, Ends-if, Ends-in_tx, Ends-commit, Ends-notify,
}
use incident_garden.Catalog.Repository.{insert_log}
use incident_garden.Events.Repository.{
  insert_event, upsert_link, associate_service, insert_group, delete_groups, insert_change,
}
use incident_garden.Events.Compose.{log_status, record_change, associate_tx}
use incident_garden.Events.Create.{
  Statuses, create_event_tx, associate_one, associate_all, insert_one_group, associate_groups,
  record_service, record_group, record_all, record_initial_changes_tx, create_body,
}
use incident_garden.Events.Create.Merge.{lookup, or_else, keys}
use incident_garden.Events.Create.LinkStatus.{link_status, link_status-upsert}

-- The links are as they were.
record SameLinks (d d' : Db) : Type 0 where
  links : d'.event_services ≡ d.event_services

SameLinks-DbPreorder : DbPreorder SameLinks
SameLinks-DbPreorder = record {
  reflexive = λ d. record { links = refl };
  transitive = λ c d e h k. record { links = k.links ∙ h.links };
}

insert_log-SameLinks : (l : ServiceStatusLogEntry) → DbStep SameLinks (insert_log l)
unfolding insert_log
insert_log-SameLinks l = record { at = λ d d' a h. record { links = ground arith } }

insert_change-SameLinks : (c : EventServiceChange) → DbStep SameLinks (insert_change c)
unfolding insert_change
insert_change-SameLinks c = record { at = λ d d' a h. record { links = ground arith } }

insert_event-SameLinks : (event : Event) → DbStep SameLinks (insert_event event)
unfolding insert_event
insert_event-SameLinks event = record { at = λ d d' a h. record { links = ground arith } }

insert_group-SameLinks : (p : Uuid × Uuid) → DbStep SameLinks (insert_group p)
unfolding insert_group
insert_group-SameLinks p = record { at = λ d d' a h. record { links = ground arith } }

delete_groups-SameLinks : (e : Uuid) → DbStep SameLinks (delete_groups e)
unfolding delete_groups
delete_groups-SameLinks e = record { at = λ d d' a h. record { links = ground arith } }

ruleset link_rules = (
  step_rules, OnTx-IsPreorder, SameLinks-DbPreorder, fresh_id-OnTx, in_tx-OnTx, on_pool-OnTx,
  insert_log-SameLinks, insert_change-SameLinks, insert_event-SameLinks, insert_group-SameLinks,
  delete_groups-SameLinks,
)

log_status-SameLinks :
    (s : Uuid) (old : Option ServiceStatus) (new : ServiceStatus) (e : Uuid) (reason : String)
    (by : Uuid)
    → Step (OnTx SameLinks) (log_status s old new e reason by)
unfolding log_status
log_status-SameLinks s old new e reason by = search link_rules depth 8

record_change-SameLinks :
    (e batch : Uuid) (action : ChangeAction) (s g : Option Uuid) (reason : String) (by : Uuid)
    → Step (OnTx SameLinks) (record_change e batch action s g reason by)
unfolding record_change
record_change-SameLinks e batch action s g reason by = search link_rules depth 8

create_event_tx-SameLinks :
    (input : CreateEventInput) (by : Uuid) → Step (OnTx SameLinks) (create_event_tx input by)
unfolding create_event_tx
create_event_tx-SameLinks input by = search link_rules depth 8

associate_groups-SameLinks :
    (e : Uuid) (groups : List AffectedGroup) → Step (OnTx SameLinks) (associate_groups e groups)
unfolding associate_groups insert_one_group
associate_groups-SameLinks e groups = search link_rules depth 8

record_initial-SameLinks :
    (e : Uuid) (services : List AffectedService) (groups : List AffectedGroup) (by : Uuid)
    → Step (OnTx SameLinks) (record_initial_changes_tx e services groups by)
unfolding record_initial_changes_tx record_all record_service record_group
record_initial-SameLinks e services groups by = search (link_rules, record_change-SameLinks) depth 9

-- The links of the event after a run over the statuses: one that is given, else as it was.
pub record Links (e : Uuid) (m : Statuses) (d d' : Db) : Type 0 where
  pub gives :
      (t s : Uuid)
      → link_status t s d'.event_services ≡ (
          if t == e
          then or_else (lookup s m) (link_status t s d.event_services)
          else link_status t s d.event_services)

associate_service-Links :
    (row : EventService) (d d' : Db) (t : Unit {0})
    → associate_service row d ≡ rows t d'
    → d'.event_services ≡ upsert_link row d.event_services
unfolding associate_service
associate_service-Links row d d' t h = ground arith

associate_tx-Links :
    (e s : Uuid) (st : ServiceStatus) (w : World)
    → Ends (λ _ u. Links e ((s, st) ∷ []) w.tx u.tx) (associate_tx e s st) w
unfolding associate_tx
associate_tx-Links e s st w =
    Ends-bind _ _ w
      (Ends-Step read_clock w (Step-read_clock (OnTx-IsPreorder SameLinks-DbPreorder)))
      λ now u₀ s₀.
        let row : EventService = record {
          event_id = e;
          service_id = s;
          status = st;
          updated_at = now;
        } in
        Ends-weaken (Ends-in_tx (associate_service row) u₀) λ t₁ u₁ s₁. record {
          gives = λ t k.
              ap (link_status t k) (associate_service-Links row u₀.tx u₁.tx t₁ s₁)
              ∙ link_status-upsert t k row u₀.tx.event_services
              ∙ ground (arith, s₀.related.links, ==_iff e t, ==_iff t e, Bool-cases (s == k));
        }

Links-around :
    (e : Uuid) (m : Statuses) (a b c d : Db)
    → SameLinks a b
    → Links e m b c
    → SameLinks c d
    → Links e m a d
Links-around e m a b c d h k l = record {
  gives = λ t s.
      ap (link_status t s) l.links
      ∙ k.gives t s
      ∙ ap (λ rs. if t == e then or_else (lookup s m) (link_status t s rs) else link_status t s rs)
          h.links;
}

associate_one-Links :
    (e : Uuid) (title : String) (by : Uuid) (sids : List Uuid) (p : Uuid × ServiceStatus)
    (w : World)
    → Ends (λ _ u. Links e (p ∷ []) w.tx u.tx) (associate_one e title by sids p) w
unfolding associate_one
associate_one-Links e title by sids p w =
    Ends-bind _ _ w (Ends-Step _ w (get_service_status-OnTx SameLinks-DbPreorder p.0))
      λ current u₀ s₀. Ends-bind _ _ u₀ (associate_tx-Links e p.0 p.1 u₀) λ t₁ u₁ s₁.
        Ends-bind _ _ u₁ (Ends-Step _ u₁ (log_status-SameLinks p.0 _ p.1 e _ by)) λ t₂ u₂ s₂.
          Ends-pure _ u₂ (Links-around e (p ∷ []) w.tx u₀.tx u₁.tx u₂.tx s₀.related s₁ s₂.related)

unlisted-lookup : (s : Uuid) (m : Statuses) → contains s (keys m) ≡ false → lookup s m ≡ none
unlisted-lookup s [] h = refl
unlisted-lookup s (p ∷ m) h = ground (arith, unlisted-lookup s m, ==_iff p.0 s, ==_iff s p.0)

eq_of : (a b : Uuid) → (a == b) ≡ true → a ≡ b
eq_of a b h = ground (arith, ==_iff a b)

later_first :
    (s : Uuid) (p : Uuid × ServiceStatus) (m : Statuses) (o : Option ServiceStatus)
    → contains p.0 (keys m) ≡ false
    → or_else (lookup s m) (or_else (lookup s (p ∷ [])) o) ≡ or_else (lookup s (p ∷ m)) o
later_first s p m o h = elim (Bool-cases (p.0 == s)) [
  | inl hit ↦ ground (arith, hit, ap (λ k. lookup k m) (eq_of p.0 s hit), unlisted-lookup p.0 m h)
  | inr miss ↦ ground (arith, miss)
]

Links-cons :
    (e : Uuid) (p : Uuid × ServiceStatus) (m : Statuses) (a b c : Db)
    → contains p.0 (keys m) ≡ false
    → Links e (p ∷ []) a b
    → Links e m b c
    → Links e (p ∷ m) a c
Links-cons e p m a b c h k l = record {
  gives = λ t s. elim (Bool-cases (t == e)) [
    | inl hit ↦ ground (
      arith,
      hit,
      l.gives t s,
      k.gives t s,
      later_first s p m (link_status t s a.event_services) h,
    )
    | inr miss ↦ ground (arith, miss, l.gives t s, k.gives t s)
  ];
}

fold-Links :
    (e : Uuid) (title : String) (by : Uuid) (m : Statuses) (sids : List Uuid) (w : World)
    → distinct (keys m) ≡ true
    → Ends (λ _ u. Links e m w.tx u.tx) (fold_each (associate_one e title by) m sids) w
unfolding fold_each
fold-Links e title by [] sids w d =
    Ends-pure sids w (record { gives = λ t s. ground (arith, Bool-cases (t == e)) })
fold-Links e title by (p ∷ m) sids w d =
    Ends-bind _ _ w (associate_one-Links e title by sids p w) λ sids₁ u s.
      Ends-weaken (fold-Links e title by m sids₁ u (ground (arith, d)))
        λ sids₂ v rest. Links-cons e p m w.tx u.tx v.tx (ground (arith, d)) s rest

pub create_body-Links :
    (b : Bool) (range : Statuses → Statuses) (input : CreateEventInput) (m : Statuses) (by : Uuid)
    (w : World)
    → distinct (keys (range m)) ≡ true
    → Ends (λ event u. Links event.id (range m) w.tx u.db) (create_body b range input m by) w
unfolding create_body associate_all
create_body-Links b range input m by w d =
    Ends-bind _ _ w (Ends-Step _ w (create_event_tx-SameLinks input by)) λ event u₀ s₀.
      Ends-bind _ _ u₀ (fold-Links event.id input.title by (range m) [] u₀ d) λ sids u₁ s₁.
        Ends-bind _ _ u₁
          (Ends-Step _ u₁ (associate_groups-SameLinks event.id input.affected_groups))
          λ t₂ u₂ s₂.
            Ends-bind _ _ u₂
              (Ends-Step _ u₂ (
                record_initial-SameLinks event.id input.affected_services input.affected_groups by))
              λ t₃ u₃ s₃. Ends-bind _ _ u₃ (Ends-commit u₃) λ t₄ u₄ s₄.
                Ends-bind {P = λ _ u₅. u₅.db ≡ u₄.db} _ _ u₄
                  (Ends-if (b && event.notify_subscribers) _ _ u₄ (λ hit. Ends-notify _ u₄)
                    (λ miss. Ends-pure tt u₄ refl))
                  λ t₅ u₅ s₅. Ends-pure _ u₅ (
                    subst (Links event.id (range m) w.tx) (sym (s₅ ∙ s₄)) (
                      Links-around event.id (range m) w.tx u₀.tx u₁.tx u₃.tx s₀.related s₁
                        (SameLinks-DbPreorder.transitive u₁.tx u₂.tx u₃.tx s₂.related s₃.related)))
