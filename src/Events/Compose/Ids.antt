-- ===== src/Events/Compose/Ids.antt =====
-- The changes of an event's services do not take the counter of identifiers back.
use incident_garden.Catalog.Repository.Reads.{get_service_status-Step}
use incident_garden.Store.Ids.{
  NextUp, NextUp-IsPreorder, in_tx-NextUp, on_pool-NextUp, fresh_id-NextUp,
}
use incident_garden.Events.Compose.Steps.{ChangeRules}

pub NextUp-ChangeRules : ChangeRules NextUp
NextUp-ChangeRules = record {
  preorder = NextUp-IsPreorder;
  new_id = fresh_id-NextUp;
  status_of = get_service_status-Step NextUp-IsPreorder (λ A f read. on_pool-NextUp f);
  missing_services = λ ids. on_pool-NextUp _;
  missing_groups = λ ids. on_pool-NextUp _;
  members = λ g. on_pool-NextUp _;
  log = λ l. in_tx-NextUp _;
  change = λ x. in_tx-NextUp _;
  associate = λ r. in_tx-NextUp _;
  set_status = λ r. in_tx-NextUp _;
  remove = λ e s. in_tx-NextUp _;
  is_in = λ e s. in_tx-NextUp _;
  link_status = λ e s. in_tx-NextUp _;
  group = λ p. in_tx-NextUp _;
}
