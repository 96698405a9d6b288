-- ===== src/Events/Update/Success.antt =====
-- An update that only sets a status always succeeds on a sound database.
use mathlib.Core.Path.{subst}
use incident_garden.Prelude.{
  String, ◌≡◌, refl, sym, ap, ◌∙◌, inl, inr, Bool, true, false, ◌&&◌, not, some, List, [], ◌∷◌,
  arith, any, find_first, Bool-cases, ◌==◌, ==_iff,
}
use incident_garden.Domain.{Uuid, Event, EventStatus, EventUpdate, is_resolved, is_valid_for_type}
use incident_garden.Inputs.{CreateEventUpdateInput}
use incident_garden.Store.{
  Db, World, ok, rows, ◌>>◌, finally, rollback, fold_each, begin_tx, notify,
}
use incident_garden.Store.Returns.{
  Calm, Returns, Returns-bind, Returns-pure, Returns-weaken, Returns-in_tx, Returns-read_clock,
  Returns-if, Returns-fail_if, Returns-begin_tx, Returns-commit, Returns-notify, Returns-finally,
}
use incident_garden.Events.Repository.{is_event, severity_check, select_service_ids}
use incident_garden.Events.Compose.{has_service_changes, process_service_changes}
use incident_garden.Events.Compose.Empty.{validate_nothing-Returns}
use incident_garden.Events.Update.{
  apply_status, capture_old_statuses, recalculate_event, handle_resolution, update_body, add_update,
}
use incident_garden.Events.Update.Returns.{AllValid, Present, Present-Still, recalculate-Returns}
use incident_garden.Events.Update.Carried.{
  get_event-Returns, Carries, CarriesEvents, Carries-trans, create_update_tx-Returns,
  update_event_tx-Returns,
}

-- An input that changes no service.
abbrev pub status_only : Uuid → EventStatus → String → Bool → CreateEventUpdateInput
status_only e st message notify = record {
  event_id = e;
  status = st;
  message = message;
  notify_subscribers = notify;
  service_updates = [];
  add_services = [];
  add_groups = [];
  remove_service_ids = [];
  reason = "";
}

capture_nothing-Returns :
    (e : Uuid) (w : World) → Returns (λ _ u. u ≡ w) (capture_old_statuses e []) w
unfolding capture_old_statuses fold_each
capture_nothing-Returns e w = Returns-pure [] w refl

module _ (e : Uuid) (st : EventStatus) (text : String) (notified : Bool) where
  process_nothing-Returns :
      (by : Uuid) (w : World)
      → Returns (λ _ u. u ≡ w) (process_service_changes (status_only e st text notified) by) w
  unfolding process_service_changes has_service_changes
  process_nothing-Returns by w = Returns-pure tt w refl

  handle_resolution-Returns :
      (by : Uuid) (w : World)
      → Calm w
      → AllValid w.db.services
      → Present w.tx (select_service_ids e w.tx.event_services)
      → Returns (λ _ u. Calm u) (handle_resolution (status_only e st text notified) by) w
  unfolding handle_resolution recalculate_event
  handle_resolution-Returns by w c v p =
      Returns-if (is_resolved st) _ _ w
        (λ hit.
          Returns-bind _ _ w
            (Returns-in_tx (λ d. rows (select_service_ids e d.event_services) d) w _ w.tx c refl)
            λ sids u s.
              Returns-weaken
                (recalculate-Returns sids e by u
                  (subst Calm (sym s.1) (record { served = c.served; alive = c.alive }))
                  (subst (λ (x : World). AllValid x.db.services) (sym s.1) v)
                  (subst (Present u.tx) (sym s.0) (
                    subst (λ (x : World). Present x.tx (select_service_ids e w.tx.event_services))
                      (sym s.1) p)))
                λ t u' h. h.calm)
        (λ miss. Returns-pure tt w c)

  update_body-Returns :
      (b : Bool) (event : Event) (by : Uuid) (w : World)
      → Calm w
      → AllValid w.db.services
      → Present w.tx (select_service_ids e w.tx.event_services)
      → any (is_event event.id) w.tx.events ≡ true
      → severity_check event.severity ≡ true
      → Returns (λ _ _. Unit {0}) (update_body b event (status_only e st text notified) by) w
  unfolding update_body apply_status
  update_body-Returns b event by w c v p there checked =
      Returns-bind _ _ w (create_update_tx-Returns (status_only e st text notified) by w c)
        λ update u₀ s₀. Returns-bind _ _ u₀ (Returns-read_clock u₀) λ now u₁ s₁.
          let first = subst (CarriesEvents w) (sym s₁) s₀ in
          Returns-bind _ _ u₁
            (update_event_tx-Returns (apply_status st now event) u₁ first.carries.still.calm
              (ap (any (is_event event.id)) first.events ∙ there) checked)
            λ changed u₂ s₂. Returns-bind _ _ u₂ (capture_nothing-Returns e u₂) λ old u₃ s₃.
              Returns-bind _ _ u₃ (process_nothing-Returns by u₃) λ t₄ u₄ s₄.
                let carried : Carries w u₄ =
                  subst (Carries w) (sym (s₄ ∙ s₃)) (Carries-trans w u₁ u₂ first.carries s₂) in
                Returns-bind _ _ u₄
                  (handle_resolution-Returns by u₄ carried.still.calm
                    (subst (λ (d : Db). AllValid d.services) (sym carried.still.same_db) v)
                    (subst (λ rs. Present u₄.tx (select_service_ids e rs)) (sym carried.links)
                      (Present-Still w u₄ _ carried.still p)))
                  λ t₅ u₅ s₅. Returns-bind _ _ u₅ (Returns-commit u₅ s₅) λ t₆ u₆ s₆.
                    Returns-bind {P = λ _ _. Unit {0}} _ _ u₆
                      (Returns-if (b && notified) _ _ u₆ (λ hit. Returns-notify _ u₆)
                        (λ miss. Returns-pure tt u₆ tt))
                      λ t₇ u₇ s₇. Returns-pure update u₇ tt

any_row :
    (e : Uuid) (xs : List Event) (row : Event)
    → find_first (is_event e) xs ≡ some row
    → any (is_event row.id) xs ≡ true
any_row e [] row h = cc
any_row e (x ∷ xs) row h = elim (Bool-cases (x.id == e)) [
  | inl hit ↦ ground (arith, hit, h, ==_iff row.id row.id)
  | inr miss ↦ ground (arith, any_row e xs row (ground (arith, h, miss)))
]

-- The transaction, from the world that the checks leave.
transaction-Returns :
    (b : Bool) (e : Uuid) (st : EventStatus) (text : String) (notified : Bool) (by : Uuid)
    (event : Event) (w : World)
    → Calm w
    → any (is_event event.id) w.db.events ≡ true
    → severity_check event.severity ≡ true
    → AllValid w.db.services
    → Present w.db (select_service_ids e w.db.event_services)
    → Returns
        (λ _ _. Unit {0})
        (begin_tx >> finally (update_body b event (status_only e st text notified) by) rollback)
        w
transaction-Returns b e st text notified by event w c there checked v p =
    Returns-bind _ _ w (Returns-begin_tx w c.served) λ t u s.
      Returns-weaken
        (Returns-finally _ u (
          subst
            (λ (x : World).
              Returns (λ _ _. Unit {0}) (update_body b event (status_only e st text notified) by) x)
            (sym s)
            (update_body-Returns e st text notified b event by
              (record w { tx = w.db; aborted = false }) (record { served = c.served; alive = refl })
              v p there checked)))
        λ a x h. tt

add_update-Returns :
    (b : Bool) (e : Uuid) (st : EventStatus) (text : String) (notified : Bool) (by : Uuid)
    (w : World) (row : Event)
    → Calm w
    → find_first (is_event e) w.db.events ≡ some row
    → is_valid_for_type st row.type ≡ true
    → is_resolved row.status ≡ false
    → severity_check row.severity ≡ true
    → AllValid w.db.services
    → Present w.db (select_service_ids e w.db.event_services)
    → Returns (λ _ _. Unit {0}) (add_update b (status_only e st text notified) by) w
unfolding add_update
add_update-Returns b e st text notified by w row c found fits unresolved checked v p =
    Returns-bind _ _ w (get_event-Returns e w row c found) λ event u₀ s₀.
      Returns-bind _ _ u₀
        (Returns-fail_if (not (is_valid_for_type st event.type)) _ u₀
          (ap (λ (x : Event). not (is_valid_for_type st x.type)) s₀.0 ∙ ap not fits))
        λ t₁ u₁ s₁.
          Returns-bind _ _ u₁
            (Returns-fail_if (is_resolved event.status) _ u₁
              (ap (λ (x : Event). is_resolved x.status) s₀.0 ∙ unresolved))
            λ t₂ u₂ s₂. Returns-bind _ _ u₂ (validate_nothing-Returns u₂) λ t₃ u₃ s₃.
              let same : u₃ ≡ w = s₃ ∙ s₂ ∙ s₁ ∙ s₀.1 in
              subst
                (λ (x : World).
                  Returns (λ _ _. Unit {0})
                    (begin_tx
                      >> finally (update_body b event (status_only e st text notified) by) rollback)
                    x)
                (sym same)
                (transaction-Returns b e st text notified by event w c
                  (ap (λ (x : Event). any (is_event x.id) w.db.events) s₀.0
                    ∙ any_row e w.db.events row found)
                  (ap (λ (x : Event). severity_check x.severity) s₀.0 ∙ checked) v p)

-- Where the server refuses nothing, an event that is there and open, with a severity that the table
-- allows, takes any status that fits its type: an update that changes no service returns, provided
-- that the stored statuses are valid and the services that the event has are there.
pub add_update-returns :
    (has_notifier : Bool) (e : Uuid) (st : EventStatus) (text : String) (notified : Bool)
    (by : Uuid) (w : World) (row : Event)
    → Calm w
    → find_first (is_event e) w.db.events ≡ some row
    → is_valid_for_type st row.type ≡ true
    → is_resolved row.status ≡ false
    → severity_check row.severity ≡ true
    → AllValid w.db.services
    → Present w.db (select_service_ids e w.db.event_services)
    → (u : EventUpdate) × (w' : World) × (add_update has_notifier
          (status_only e st text notified)
          by
          w
        ≡ (ok u, w'))
add_update-returns b e st text notified by w row c found fits unresolved checked v p =
    let r = add_update-Returns b e st text notified by w row c found fits unresolved checked v p in
    (r.value, r.after_it, r.runs)
