-- ===== src/Events/Compose/Quiet.antt =====
-- The changes of an event's services stay inside the transaction until it commits.
use incident_garden.Store.Quiet.{
  Unseen, Unseen-IsPreorder, in_tx-Unseen, on_pool-Unseen, fresh_id-Unseen,
}
use incident_garden.Catalog.Repository.Reads.{
  get_service_status-Unseen, select_missing_services-IsRead, select_missing_groups-IsRead,
  select_group_services-IsRead,
}
use incident_garden.Events.Compose.Steps.{ChangeRules}

pub Unseen-ChangeRules : ChangeRules Unseen
Unseen-ChangeRules = record {
  preorder = Unseen-IsPreorder;
  new_id = fresh_id-Unseen;
  status_of = get_service_status-Unseen;
  missing_services = λ ids. on_pool-Unseen _ (select_missing_services-IsRead ids);
  missing_groups = λ ids. on_pool-Unseen _ (select_missing_groups-IsRead ids);
  members = λ g. on_pool-Unseen _ (select_group_services-IsRead g);
  log = λ l. in_tx-Unseen _;
  change = λ x. in_tx-Unseen _;
  associate = λ r. in_tx-Unseen _;
  set_status = λ r. in_tx-Unseen _;
  remove = λ e s. in_tx-Unseen _;
  is_in = λ e s. in_tx-Unseen _;
  link_status = λ e s. in_tx-Unseen _;
  group = λ p. in_tx-Unseen _;
}
