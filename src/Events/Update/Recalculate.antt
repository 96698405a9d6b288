-- ===== src/Events/Update/Recalculate.antt =====
-- What `recalculateServicesStoredStatus` does to the stored statuses.
use incident_garden.Catalog.Repository.Reads.{get_service_status-OnTx}
use incident_garden.Prelude.{
  String, ◌≡◌, refl, ◌∙◌, ◌&&◌, not, Option, none, some, List, [], ◌∷◌, arith, ◌==◌, if◌then◌else◌,
  find_first, update_where, contains, ==_iff,
}
use incident_garden.Domain.{Uuid, Time, Service, ServiceStatus, operational, ServiceStatusLogEntry}
use incident_garden.Store.{Db, World, rows, for_each, read_clock, try}
use incident_garden.Store.Steps.{Step, Step-try, Step-read_clock, step_rules}
use incident_garden.Store.Tables.{
  DbPreorder, DbStep, OnTx, OnTx-IsPreorder, in_tx-OnTx, fresh_id-OnTx, Ends, Ends-bind, Ends-Step,
  Ends-pure, Ends-weaken, Ends-in_tx, Ends-if,
}
use incident_garden.Catalog.Repository.{
  is_service, get_service_status, update_service_status, insert_log,
}
use incident_garden.Events.Repository.{other_active}
use incident_garden.Events.Compose.{log_status}
use incident_garden.Events.Update.{
  set_operational, recalculate_one, recalculate_services_stored_status,
}

-- The stored status of a service, where there is such a service.
unfoldable pub stored_status : Uuid → Db → Option ServiceStatus
stored_status s d = elim (find_first (is_service s) d.services) [
  | none ↦ none
  | some r ↦ some r.status
]

-- The tables of events and of their services are as they were.
pub record KeepsLinks (d d' : Db) : Type 0 where
  pub same_events : d'.events ≡ d.events
  pub same_links : d'.event_services ≡ d.event_services

pub KeepsLinks-DbPreorder : DbPreorder KeepsLinks
KeepsLinks-DbPreorder = record {
  reflexive = λ d. record { same_events = refl; same_links = refl };
  transitive = λ c d e h k. ground arith;
}

pub other_active-KeepsLinks :
    (s e : Uuid) (d d' : Db) → KeepsLinks d d' → other_active s e d' ≡ other_active s e d
unfolding other_active
other_active-KeepsLinks s e d d' k = rw (k.same_events, k.same_links)

-- The services' table is as it was too.
pub record KeepsServices (d d' : Db) : Type 0 where
  pub links : KeepsLinks d d'
  pub same_services : d'.services ≡ d.services

KeepsServices-DbPreorder : DbPreorder KeepsServices
KeepsServices-DbPreorder = record {
  reflexive = λ d. record { links = KeepsLinks-DbPreorder.reflexive d; same_services = refl };
  transitive = λ c d e h k. record {
    links = KeepsLinks-DbPreorder.transitive c d e h.links k.links;
    same_services = k.same_services ∙ h.same_services;
  };
}

insert_log-KeepsServices : (l : ServiceStatusLogEntry) → DbStep KeepsServices (insert_log l)
unfolding insert_log
insert_log-KeepsServices l = record { at = λ d d' a h. ground arith }

-- A stored status that is there becomes operational.
abbrev pub raise : Option ServiceStatus → Option ServiceStatus
raise none = none
raise (some st) = some operational

find_first-update_where :
    (s t : Uuid) (st : ServiceStatus) (now : Time) (xs : List Service)
    → find_first
        (is_service t)
        (update_where (is_service s) (λ r. record r { status = st; updated_at = now }) xs)
      ≡ (if t == s
          then elim (find_first (is_service t) xs) [
            | none ↦ none
            | some r ↦ some (record r { status = st; updated_at = now })
          ]
          else find_first (is_service t) xs)
find_first-update_where s t st now [] = ground arith
find_first-update_where s t st now (x ∷ xs) = ground (arith, find_first-update_where s t st now xs)

-- One service's stored status becomes operational.
record Raises (s : Uuid) (d d' : Db) : Type 0 where
  links : KeepsLinks d d'
  stored :
      (t : Uuid)
      → stored_status t d' ≡ (if t == s then raise (stored_status t d) else stored_status t d)

update_service_status-Raises :
    (s : Uuid) (now : Time) → DbStep (Raises s) (update_service_status s operational now)
unfolding update_service_status stored_status
update_service_status-Raises s now = record {
  at = λ d d' a h. record {
    links = ground arith;
    stored = λ t. ground (arith, find_first-update_where s t operational now d.services);
  };
}

stored-KeepsServices :
    (t : Uuid) (d d' : Db) → KeepsServices d d' → stored_status t d' ≡ stored_status t d
unfolding stored_status
stored-KeepsServices t d d' k = rw k.same_services

Raises-around :
    (s : Uuid) (a b c d : Db) → KeepsServices a b → Raises s b c → KeepsServices c d → Raises s a d
Raises-around s a b c d h m k = record {
  links =
      KeepsLinks-DbPreorder.transitive a c d
        (KeepsLinks-DbPreorder.transitive a b c h.links m.links) k.links;
  stored =
      λ t. ground (arith, m.stored t, stored-KeepsServices t a b h, stored-KeepsServices t c d k);
}

log_status-KeepsServices :
    (s : Uuid) (old : Option ServiceStatus) (new : ServiceStatus) (e : Uuid) (reason : String)
    (by : Uuid)
    → Step (OnTx KeepsServices) (log_status s old new e reason by)
unfolding log_status
log_status-KeepsServices s old new e reason by =
    search
      (
        step_rules, OnTx-IsPreorder, KeepsServices-DbPreorder, fresh_id-OnTx, in_tx-OnTx,
        insert_log-KeepsServices,
      )
      depth 8

set_operational-Raises :
    (s e by : Uuid) (w : World) → Ends (λ _ w'. Raises s w.tx w'.tx) (set_operational s e by) w
unfolding set_operational
set_operational-Raises s e by w =
    Ends-bind _ _ w
      (Ends-Step (try (get_service_status s)) w
        (Step-try _ (get_service_status-OnTx KeepsServices-DbPreorder s)))
      λ old u first.
        Ends-bind _ _ u
          (Ends-Step read_clock u (Step-read_clock (OnTx-IsPreorder KeepsServices-DbPreorder)))
          λ now v second.
            Ends-bind _ _ v (Ends-in_tx (update_service_status s operational now) v) λ t x done.
              Ends-weaken
                (Ends-Step _ x (
                  log_status-KeepsServices s _ operational e
                    "Event resolved, no other active events" by))
                λ t' y last.
                  Raises-around s w.tx v.tx x.tx y.tx
                    (KeepsServices-DbPreorder.transitive w.tx u.tx v.tx first.related
                      second.related)
                    ((update_service_status-Raises s now).at v.tx x.tx t done) last.related

-- What the loop over the services of event `e` does, said without the loop.
pub record Recalculates (ss : List Uuid) (e : Uuid) (d d' : Db) : Type 0 where
  pub links : KeepsLinks d d'
  pub stored :
      (t : Uuid)
      → stored_status t d' ≡ (
          if contains t ss && not (other_active t e d)
          then raise (stored_status t d)
          else stored_status t d)

recalculate_one-Recalculates :
    (e by s : Uuid) (w : World)
    → Ends (λ _ w'. Recalculates (s ∷ []) e w.tx w'.tx) (recalculate_one e by s) w
unfolding recalculate_one
recalculate_one-Recalculates e by s w =
    Ends-bind _ _ w (Ends-in_tx (λ d. rows (other_active s e d) d) w) λ has_other u first.
      Ends-if has_other _ _ u
        (λ hit. Ends-pure tt u (record {
          links = record { same_events = ground arith; same_links = ground arith };
          stored = λ t. ground (arith, ==_iff t s);
        }))
        (λ miss. Ends-weaken (set_operational-Raises s e by u) λ t v m. record {
          links = record {
            same_events = ground (arith, m.links.same_events);
            same_links = ground (arith, m.links.same_links);
          };
          stored = λ t'. ground (arith, m.stored t', ==_iff t' s);
        })

Recalculates-cons :
    (s : Uuid) (ss : List Uuid) (e : Uuid) (a b c : Db)
    → Recalculates (s ∷ []) e a b
    → Recalculates ss e b c
    → Recalculates (s ∷ ss) e a c
Recalculates-cons s ss e a b c h k = record {
  links = KeepsLinks-DbPreorder.transitive a b c h.links k.links;
  stored = λ t. ground (arith, h.stored t, k.stored t, other_active-KeepsLinks t e a b h.links);
}

-- After the loop, the stored status of a service is operational where the service is among those
-- given and no other event affects it, and as it was otherwise; no event and no link has changed.
pub recalculate-Recalculates :
    (ss : List Uuid) (e by : Uuid) (w : World)
    → Ends (λ _ w'. Recalculates ss e w.tx w'.tx) (recalculate_services_stored_status ss e by) w
unfolding recalculate_services_stored_status for_each
recalculate-Recalculates [] e by w =
    Ends-pure tt w (record { links = KeepsLinks-DbPreorder.reflexive w.tx; stored = λ t. refl })
recalculate-Recalculates (s ∷ ss) e by w =
    Ends-bind _ _ w (recalculate_one-Recalculates e by s w) λ t u first.
      Ends-weaken (recalculate-Recalculates ss e by u)
        λ t' v rest. Recalculates-cons s ss e w.tx u.tx v.tx first rest
