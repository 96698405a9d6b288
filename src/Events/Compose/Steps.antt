-- ===== src/Events/Compose/Steps.antt =====
-- What the changes of an event's services do, for any relation that their statements respect: the
-- interface `ChangeRules` names the statements, and each function of events/service.go keeps it.
use incident_garden.Prelude.{List, String, Option}
use incident_garden.Domain.{
  Uuid, EventService, EventServiceChange, ServiceStatus, ServiceStatusLogEntry, AffectedService,
  AffectedGroup, ChangeAction,
}
use incident_garden.Inputs.{CreateEventUpdateInput}
use incident_garden.Store.{World, Result, ok, err, service_not_in_event, in_tx, on_pool, fresh_id}
use incident_garden.Store.Steps.{IsPreorder, Step, step_rules}
use incident_garden.Catalog.Repository.{
  get_service_status, insert_log, select_missing_services, select_missing_groups,
  select_group_services,
}
use incident_garden.Events.Repository.{
  associate_service, update_link_status, delete_link, select_in_event, select_link_status,
  add_group, insert_change,
}
use incident_garden.Events.Compose.{
  check_services, check_groups, validate_affected_entities, log_status, record_change, associate_tx,
  change_status, update_one, update_existing_service_statuses, associate_service_if_not_exists,
  associate_new, add_one, add_services_to_event, add_member, add_one_group, add_groups_to_event,
  after_delete, remove_one, remove_services_from_event, apply_changes, process_service_changes,
}

pub record ChangeRules (R : World → World → Type 0) : Type 0 where
  pub preorder : IsPreorder R
  pub new_id : Step R fresh_id
  pub status_of : (s : Uuid) → Step R (get_service_status s)
  pub missing_services : (ids : List Uuid) → Step R (on_pool (select_missing_services ids))
  pub missing_groups : (ids : List Uuid) → Step R (on_pool (select_missing_groups ids))
  pub members : (g : Uuid) → Step R (on_pool (select_group_services g))
  pub log : (l : ServiceStatusLogEntry) → Step R (in_tx (insert_log l))
  pub change : (x : EventServiceChange) → Step R (in_tx (insert_change x))
  pub associate : (r : EventService) → Step R (in_tx (associate_service r))
  pub set_status : (r : EventService) → Step R (in_tx (update_link_status r))
  pub remove : (e s : Uuid) → Step R (in_tx (delete_link e s))
  pub is_in : (e s : Uuid) → Step R (in_tx (select_in_event e s))
  pub link_status : (e s : Uuid) → Step R (in_tx (select_link_status e s))
  pub group : (p : Uuid × Uuid) → Step R (in_tx (add_group p))

module _ {R : World → World → Type 0} (c : ChangeRules R) where
  pub by_preorder : IsPreorder R
  by_preorder = c.preorder

  pub by_new_id : Step R fresh_id
  by_new_id = c.new_id

  pub by_status_of : (s : Uuid) → Step R (get_service_status s)
  by_status_of = c.status_of

  pub by_missing_services : (ids : List Uuid) → Step R (on_pool (select_missing_services ids))
  by_missing_services = c.missing_services

  pub by_missing_groups : (ids : List Uuid) → Step R (on_pool (select_missing_groups ids))
  by_missing_groups = c.missing_groups

  pub by_members : (g : Uuid) → Step R (on_pool (select_group_services g))
  by_members = c.members

  pub by_log : (l : ServiceStatusLogEntry) → Step R (in_tx (insert_log l))
  by_log = c.log

  pub by_change : (x : EventServiceChange) → Step R (in_tx (insert_change x))
  by_change = c.change

  pub by_associate : (r : EventService) → Step R (in_tx (associate_service r))
  by_associate = c.associate

  pub by_set_status : (r : EventService) → Step R (in_tx (update_link_status r))
  by_set_status = c.set_status

  pub by_remove : (e s : Uuid) → Step R (in_tx (delete_link e s))
  by_remove = c.remove

  pub by_is_in : (e s : Uuid) → Step R (in_tx (select_in_event e s))
  by_is_in = c.is_in

  pub by_link_status : (e s : Uuid) → Step R (in_tx (select_link_status e s))
  by_link_status = c.link_status

  pub by_group : (p : Uuid × Uuid) → Step R (in_tx (add_group p))
  by_group = c.group

pub ruleset change_rules = (
  step_rules, by_preorder, by_new_id, by_status_of, by_missing_services, by_missing_groups,
  by_members, by_log, by_change, by_associate, by_set_status, by_remove, by_is_in, by_link_status,
  by_group,
)

module _ {R : World → World → Type 0} (c : ChangeRules R) where
  check_services-Step : (ids : List Uuid) → Step R (check_services ids)
  unfolding check_services
  check_services-Step ids = search change_rules

  check_groups-Step : (ids : List Uuid) → Step R (check_groups ids)
  unfolding check_groups
  check_groups-Step ids = search change_rules

  pub validate-Step :
      (services : List AffectedService) (groups : List AffectedGroup)
      → Step R (validate_affected_entities services groups)
  unfolding validate_affected_entities
  validate-Step services groups = search (change_rules, check_services-Step, check_groups-Step)

  pub log_status-Step :
      (s : Uuid) (old : Option ServiceStatus) (new : ServiceStatus) (e : Uuid) (reason : String)
      (by : Uuid)
      → Step R (log_status s old new e reason by)
  unfolding log_status
  log_status-Step s old new e reason by = search change_rules

  pub record_change-Step :
      (e batch : Uuid) (action : ChangeAction) (s g : Option Uuid) (reason : String) (by : Uuid)
      → Step R (record_change e batch action s g reason by)
  unfolding record_change
  record_change-Step e batch action s g reason by = search change_rules

  pub associate_tx-Step : (e s : Uuid) (st : ServiceStatus) → Step R (associate_tx e s st)
  unfolding associate_tx
  associate_tx-Step e s st = search change_rules

ruleset change_calls = (change_rules, log_status-Step, record_change-Step, associate_tx-Step)

module _ {R : World → World → Type 0} (c : ChangeRules R) where
  change_status-Step :
      (e s : Uuid) (old new : ServiceStatus) (reason : String) (by : Uuid)
      → Step R (change_status e s old new reason by)
  unfolding change_status
  change_status-Step e s old new reason by = search change_calls

  update_one-Step :
      (e : Uuid) (reason : String) (by : Uuid) (su : AffectedService)
      → Step R (update_one e reason by su)
  unfolding update_one
  update_one-Step e reason by su = search (change_calls, change_status-Step)

  associate_new-Step :
      (e s : Uuid) (st : ServiceStatus) (reason : String) (by : Uuid)
      → Step R (associate_new e s st reason by)
  unfolding associate_new
  associate_new-Step e s st reason by = search change_calls depth 7

  associate-Step :
      (e s : Uuid) (st : ServiceStatus) (reason : String) (by : Uuid)
      → Step R (associate_service_if_not_exists e s st reason by)
  unfolding associate_service_if_not_exists
  associate-Step e s st reason by = search (change_calls, associate_new-Step)

  add_one-Step :
      (e batch : Uuid) (reason : String) (by : Uuid) (a : AffectedService)
      → Step R (add_one e batch reason by a)
  unfolding add_one
  add_one-Step e batch reason by a = search (change_calls, associate-Step)

  add_member-Step :
      (e : Uuid) (st : ServiceStatus) (reason : String) (by s : Uuid)
      → Step R (add_member e st reason by s)
  unfolding add_member
  add_member-Step e st reason by s = search (change_calls, associate-Step)

  add_one_group-Step :
      (e batch : Uuid) (reason : String) (by : Uuid) (g : AffectedGroup)
      → Step R (add_one_group e batch reason by g)
  unfolding add_one_group
  add_one_group-Step e batch reason by g = search (change_calls, add_member-Step) depth 7

  after_delete-Step :
      (r : Result (Unit {0})) (e batch s : Uuid) (reason : String) (by : Uuid)
      → Step R (after_delete r e batch s reason by)
  unfolding after_delete
  after_delete-Step (ok t) e batch s reason by = search change_calls
  after_delete-Step (err service_not_in_event) e batch s reason by = search change_calls
  after_delete-Step (err _) e batch s reason by = search change_calls

  remove_one-Step :
      (e batch : Uuid) (reason : String) (by s : Uuid) → Step R (remove_one e batch reason by s)
  unfolding remove_one
  remove_one-Step e batch reason by s = search (change_calls, after_delete-Step)

  apply_changes-Step :
      (input : CreateEventUpdateInput) (by : Uuid) → Step R (apply_changes input by)
  unfolding apply_changes update_existing_service_statuses add_services_to_event add_groups_to_event
      remove_services_from_event
  apply_changes-Step input by =
      search (change_calls, update_one-Step, add_one-Step, add_one_group-Step, remove_one-Step)
        depth 9

  pub process_service_changes-Step :
      (input : CreateEventUpdateInput) (by : Uuid) → Step R (process_service_changes input by)
  unfolding process_service_changes
  process_service_changes-Step input by = search (change_calls, apply_changes-Step)
