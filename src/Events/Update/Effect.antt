-- ===== src/Events/Update/Effect.antt =====
-- What an update that returns has done to the committed tables.
use mathlib.Core.Path.{subst}
use incident_garden.Prelude.{
  ◌≡◌, refl, sym, ap, ◌∙◌, Bool, true, ◌&&◌, not, List, arith, if◌then◌else◌, update_where,
  contains,
}
use incident_garden.Domain.{Uuid, Time, Event, EventUpdate, AffectedService, is_resolved}
use incident_garden.Inputs.{CreateEventUpdateInput}
use incident_garden.Store.{Db, World, rows, read_clock}
use incident_garden.Store.Steps.{Step, Step-read_clock, step_rules}
use incident_garden.Store.Tables.{
  DbStep, OnTx, OnTx-IsPreorder, in_tx-OnTx, fresh_id-OnTx, Ends, Ends-bind, Ends-Step, Ends-pure,
  Ends-weaken, Ends-in_tx, Ends-if, Ends-commit, Ends-notify,
}
use incident_garden.Events.Repository.{
  is_event, set_event, update_event_row, insert_update, select_service_ids, other_active,
}
use incident_garden.Events.Compose.Frame.{
  KeepsRows, KeepsRows-DbPreorder, KeepsRows-ChangeRules, select_link_status-KeepsRows,
}
use incident_garden.Events.Compose.Steps.{process_service_changes-Step}
use incident_garden.Events.Create.{Statuses}
use incident_garden.Events.Update.{
  create_update_tx, apply_status, update_event_tx, capture_one, capture_old_statuses,
  recalculate_event, handle_resolution, update_body,
}
use incident_garden.Events.Update.Recalculate.{
  stored_status, raise, KeepsLinks, KeepsLinks-DbPreorder, other_active-KeepsLinks,
  recalculate-Recalculates,
}

insert_update-KeepsRows : (u : EventUpdate) → DbStep KeepsRows (insert_update u)
unfolding insert_update
insert_update-KeepsRows u = record { at = λ d d' a h. ground arith }

ruleset row_rules = (
  step_rules, OnTx-IsPreorder, KeepsRows-DbPreorder, fresh_id-OnTx, in_tx-OnTx,
  insert_update-KeepsRows, select_link_status-KeepsRows,
)

create_update_tx-KeepsRows :
    (input : CreateEventUpdateInput) (by : Uuid) → Step (OnTx KeepsRows) (create_update_tx input by)
unfolding create_update_tx
create_update_tx-KeepsRows input by = search row_rules depth 8

capture_one-KeepsRows :
    (e : Uuid) (m : Statuses) (su : AffectedService) → Step (OnTx KeepsRows) (capture_one e m su)
unfolding capture_one
capture_one-KeepsRows e m su = search row_rules depth 7

capture-KeepsRows :
    (e : Uuid) (us : List AffectedService) → Step (OnTx KeepsRows) (capture_old_statuses e us)
unfolding capture_old_statuses
capture-KeepsRows e us = search (row_rules, capture_one-KeepsRows)

-- The rows of the events after `UpdateEventTx`, with the services' rows as they were.
record Rewrites (event : Event) (d d' : Db) : Type 0 where
  written : Time
  events : d'.events ≡ update_where (is_event event.id) (set_event event written) d.events
  same_services : d'.services ≡ d.services

update_event_row-Rewrites :
    (event : Event) (now : Time) (d d' : Db) (t : Unit {0})
    → update_event_row event now d ≡ rows t d'
    → Rewrites event d d'
unfolding update_event_row
update_event_row-Rewrites event now d d' t h = record {
  written = now;
  events = ground arith;
  same_services = ground arith;
}

update_event_tx-Rewrites :
    (event : Event) (w : World) → Ends (λ _ w'. Rewrites event w.tx w'.tx) (update_event_tx event) w
unfolding update_event_tx
update_event_tx-Rewrites event w =
    Ends-bind _ _ w
      (Ends-Step read_clock w (Step-read_clock (OnTx-IsPreorder KeepsRows-DbPreorder)))
      λ now u first. Ends-bind _ _ u (Ends-in_tx (update_event_row event now) u) λ t v done.
        let r = update_event_row-Rewrites event now u.tx v.tx t done in
        Ends-pure _ v (record {
          written = r.written;
          events = ground (arith, r.events, first.related.same_events);
          same_services = r.same_services ∙ first.related.same_services;
        })

-- The stored statuses after the update, from the tables before and the links after it: those of the
-- services that are in the event when it is resolved, and in no other active event, are operational.
abbrev pub StoredBy : CreateEventUpdateInput → Db → Db → Type 0
StoredBy input d d' =
    (t : Uuid)
    → stored_status t d' ≡ (
        if is_resolved input.status
          && contains t (select_service_ids input.event_id d'.event_services)
          && not (other_active t input.event_id d')
        then raise (stored_status t d)
        else stored_status t d)

record Resolves (input : CreateEventUpdateInput) (d d' : Db) : Type 0 where
  links : KeepsLinks d d'
  stored : StoredBy input d d'

resolved_links :
    (e : Uuid) (d d' : Db)
    → KeepsLinks d d'
    → select_service_ids e d'.event_services ≡ select_service_ids e d.event_services
resolved_links e d d' k = ap (select_service_ids e) k.same_links

recalculate_event-Resolves :
    (input : CreateEventUpdateInput) (by : Uuid) (w : World)
    → is_resolved input.status ≡ true
    → Ends (λ _ w'. Resolves input w.tx w'.tx) (recalculate_event input.event_id by) w
unfolding recalculate_event
recalculate_event-Resolves input by w hit =
    Ends-bind _ _ w
      (Ends-in_tx (λ d. rows (select_service_ids input.event_id d.event_services) d) w)
      λ sids u first. Ends-weaken (recalculate-Recalculates sids input.event_id by u) λ t v r.
        record {
          links = record {
            same_events = ground (arith, r.links.same_events);
            same_links = ground (arith, r.links.same_links);
          };
          stored = λ s. ground (
            arith,
            r.stored s,
            other_active-KeepsLinks s input.event_id u.tx v.tx r.links,
            resolved_links input.event_id u.tx v.tx r.links,
          );
        }

handle_resolution-Resolves :
    (input : CreateEventUpdateInput) (by : Uuid) (w : World)
    → Ends (λ _ w'. Resolves input w.tx w'.tx) (handle_resolution input by) w
unfolding handle_resolution
handle_resolution-Resolves input by w =
    Ends-if (is_resolved input.status) _ _ w (λ hit. recalculate_event-Resolves input by w hit)
      (λ miss.
        Ends-pure tt w
          (record { links = KeepsLinks-DbPreorder.reflexive w.tx; stored = λ s. ground arith }))

-- What the transaction of an update leaves, once committed.
pub record Applies (event : Event) (input : CreateEventUpdateInput) (d d' : Db) : Type 0 where
  pub decided : Time
  pub written : Time
  pub events :
      d'.events
      ≡ update_where
          (is_event event.id)
          (set_event (apply_status input.status decided event) written)
          d.events
  pub stored : StoredBy input d d'

stored-KeepsRows :
    (t : Uuid) (d d' : Db) → d'.services ≡ d.services → stored_status t d' ≡ stored_status t d
unfolding stored_status
stored-KeepsRows t d d' h = rw h

Applies-chain :
    (event : Event) (input : CreateEventUpdateInput) (decided : Time) (a b c d e f : Db)
    → KeepsRows a b
    → Rewrites (apply_status input.status decided event) b c
    → KeepsRows c d
    → KeepsRows d e
    → Resolves input e f
    → Applies event input a f
unfolding apply_status
Applies-chain event input decided a b c d e f h r k l m = record {
  decided = decided;
  written = r.written;
  events =
      ground (arith, m.links.same_events, l.same_events, k.same_events, r.events, h.same_events);
  stored = λ t. ground (
    arith,
    m.stored t,
    stored-KeepsRows t d e l.same_services,
    stored-KeepsRows t c d k.same_services,
    stored-KeepsRows t b c r.same_services,
    stored-KeepsRows t a b h.same_services,
  );
}

pub update_body-Applies :
    (b : Bool) (event : Event) (input : CreateEventUpdateInput) (by : Uuid) (w : World)
    → Ends (λ _ w'. Applies event input w.tx w'.db) (update_body b event input by) w
unfolding update_body
update_body-Applies b event input by w =
    Ends-bind _ _ w (Ends-Step _ w (create_update_tx-KeepsRows input by)) λ update u₀ s₀.
      Ends-bind _ _ u₀
        (Ends-Step read_clock u₀ (Step-read_clock (OnTx-IsPreorder KeepsRows-DbPreorder)))
        λ now u₁ s₁.
          Ends-bind _ _ u₁ (update_event_tx-Rewrites (apply_status input.status now event) u₁)
            λ changed u₂ s₂.
              Ends-bind _ _ u₂
                (Ends-Step _ u₂ (capture-KeepsRows input.event_id input.service_updates))
                λ old u₃ s₃.
                  Ends-bind _ _ u₃
                    (Ends-Step _ u₃ (process_service_changes-Step KeepsRows-ChangeRules input by))
                    λ t₄ u₄ s₄.
                      Ends-bind _ _ u₄ (handle_resolution-Resolves input by u₄) λ t₅ u₅ s₅.
                        Ends-bind _ _ u₅ (Ends-commit u₅) λ t₆ u₆ s₆.
                          Ends-bind {P = λ _ u₇. u₇.db ≡ u₆.db} _ _ u₆
                            (Ends-if (b && input.notify_subscribers) _ _ u₆
                              (λ hit. Ends-notify _ u₆) (λ miss. Ends-pure tt u₆ refl))
                            λ t₇ u₇ s₇. Ends-pure update u₇ (
                              subst (Applies event input w.tx) (sym (s₇ ∙ s₆)) (
                                Applies-chain event input now w.tx u₁.tx u₂.tx u₃.tx u₄.tx u₅.tx
                                  (KeepsRows-DbPreorder.transitive w.tx u₀.tx u₁.tx s₀.related
                                    s₁.related)
                                  s₂ s₃.related s₄.related s₅))
