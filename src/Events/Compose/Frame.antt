-- ===== src/Events/Compose/Frame.antt =====
-- Changing the services of an event touches neither an event's row nor a stored status.
use incident_garden.Catalog.Repository.Reads.{get_service_status-OnTx}
use incident_garden.Prelude.{◌≡◌, refl, ◌∙◌, arith}
use incident_garden.Domain.{Uuid, EventService, EventServiceChange, ServiceStatusLogEntry}
use incident_garden.Store.{Db}
use incident_garden.Store.Tables.{
  DbPreorder, DbStep, OnTx, OnTx-IsPreorder, in_tx-OnTx, on_pool-OnTx, fresh_id-OnTx,
}
use incident_garden.Catalog.Repository.{insert_log}
use incident_garden.Events.Repository.{
  associate_service, update_link_status, delete_link, select_in_event, select_link_status,
  add_group, insert_change,
}
use incident_garden.Events.Compose.Steps.{ChangeRules}

pub record KeepsRows (d d' : Db) : Type 0 where
  pub same_events : d'.events ≡ d.events
  pub same_services : d'.services ≡ d.services

pub KeepsRows-DbPreorder : DbPreorder KeepsRows
KeepsRows-DbPreorder = record {
  reflexive = λ d. record { same_events = refl; same_services = refl };
  transitive = λ c d e h k. record {
    same_events = k.same_events ∙ h.same_events;
    same_services = k.same_services ∙ h.same_services;
  };
}

insert_log-KeepsRows : (l : ServiceStatusLogEntry) → DbStep KeepsRows (insert_log l)
unfolding insert_log
insert_log-KeepsRows l = record { at = λ d d' a h. ground arith }

insert_change-KeepsRows : (c : EventServiceChange) → DbStep KeepsRows (insert_change c)
unfolding insert_change
insert_change-KeepsRows c = record { at = λ d d' a h. ground arith }

associate-KeepsRows : (r : EventService) → DbStep KeepsRows (associate_service r)
unfolding associate_service
associate-KeepsRows r = record { at = λ d d' a h. ground arith }

set_status-KeepsRows : (r : EventService) → DbStep KeepsRows (update_link_status r)
unfolding update_link_status
set_status-KeepsRows r = record { at = λ d d' a h. ground arith }

delete_link-KeepsRows : (e s : Uuid) → DbStep KeepsRows (delete_link e s)
unfolding delete_link
delete_link-KeepsRows e s = record { at = λ d d' a h. ground arith }

select_in_event-KeepsRows : (e s : Uuid) → DbStep KeepsRows (select_in_event e s)
unfolding select_in_event
select_in_event-KeepsRows e s = record { at = λ d d' a h. ground arith }

pub select_link_status-KeepsRows : (e s : Uuid) → DbStep KeepsRows (select_link_status e s)
unfolding select_link_status
select_link_status-KeepsRows e s = record { at = λ d d' a h. ground arith }

add_group-KeepsRows : (p : Uuid × Uuid) → DbStep KeepsRows (add_group p)
unfolding add_group
add_group-KeepsRows p = record { at = λ d d' a h. ground arith }

pub KeepsRows-ChangeRules : ChangeRules (OnTx KeepsRows)
KeepsRows-ChangeRules = record {
  preorder = OnTx-IsPreorder KeepsRows-DbPreorder;
  new_id = fresh_id-OnTx KeepsRows-DbPreorder;
  status_of = get_service_status-OnTx KeepsRows-DbPreorder;
  missing_services = λ ids. on_pool-OnTx KeepsRows-DbPreorder _;
  missing_groups = λ ids. on_pool-OnTx KeepsRows-DbPreorder _;
  members = λ g. on_pool-OnTx KeepsRows-DbPreorder _;
  log = λ l. in_tx-OnTx KeepsRows-DbPreorder _ (insert_log-KeepsRows l);
  change = λ x. in_tx-OnTx KeepsRows-DbPreorder _ (insert_change-KeepsRows x);
  associate = λ r. in_tx-OnTx KeepsRows-DbPreorder _ (associate-KeepsRows r);
  set_status = λ r. in_tx-OnTx KeepsRows-DbPreorder _ (set_status-KeepsRows r);
  remove = λ e s. in_tx-OnTx KeepsRows-DbPreorder _ (delete_link-KeepsRows e s);
  is_in = λ e s. in_tx-OnTx KeepsRows-DbPreorder _ (select_in_event-KeepsRows e s);
  link_status = λ e s. in_tx-OnTx KeepsRows-DbPreorder _ (select_link_status-KeepsRows e s);
  group = λ p. in_tx-OnTx KeepsRows-DbPreorder _ (add_group-KeepsRows p);
}
