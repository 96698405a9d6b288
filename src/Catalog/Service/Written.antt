-- ===== src/Catalog/Service/Written.antt =====
-- What the transaction of `UpdateService` writes.
use mathlib.Core.Path.{subst}
use incident_garden.Prelude.{
  ◌≡◌, refl, sym, ap, ◌∙◌, ◌⊎◌, inl, inr, true, false, [], ◌∷◌, ◌++◌, arith, ◌==◌, if◌then◌else◌,
  any, update_where, contains,
}
use incident_garden.Domain.{Uuid, Time, Service, status_eq}
use incident_garden.Store.{Db, World, rows}
use incident_garden.Store.Tables.{
  Ends, Ends-bind, Ends-pure, Ends-weaken, Ends-if, Ends-in_tx, Ends-commit, Ends-fresh_id,
  Ends-read_clock,
}
use incident_garden.Catalog.Repository.{is_service, insert_log}
use incident_garden.Catalog.Repository.Writes.{is_member, set_service, update_service_tx}
use incident_garden.Catalog.Service.{
  UpdateServiceInput, status_change, log_change, update_service_body,
}
use incident_garden.Catalog.Service.Regrouped.{Regroups, Replaces, replace_all}

-- The log has one entry more exactly where the status differs.
abbrev pub Logs : UpdateServiceInput → Service → Db → Db → Type 0
Logs input old d d' =
    ((status_eq old.status input.service.status ≡ true)
      × (d'.service_status_log ≡ d.service_status_log))
    ⊎ ((status_eq old.status input.service.status ≡ false)
        × (i : Uuid) × (now : Time) × (d'.service_status_log
            ≡ d.service_status_log ++ status_change i input old now ∷ []))

-- What the statement on the log leaves.
record Notes (input : UpdateServiceInput) (old : Service) (d d' : Db) : Type 0 where
  others : d' ≡ record d { service_status_log = d'.service_status_log }
  logs : Logs input old d d'

insert_log-eq :
    (input : UpdateServiceInput) (old : Service) (i : Uuid) (now : Time) (d d' : Db) (t : Unit {0})
    → insert_log (status_change i input old now) d ≡ rows t d'
    → d'
      ≡ record d { service_status_log = d.service_status_log ++ status_change i input old now ∷ [] }
unfolding insert_log
insert_log-eq input old i now d d' t h = ground (arith, h)

note_change :
    (input : UpdateServiceInput) (old : Service) (w : World)
    → Ends (λ _ u. Notes input old w.tx u.tx) (log_change input old) w
unfolding log_change
note_change input old w =
    Ends-if (status_eq old.status input.service.status) _ _ w
      (λ same. Ends-pure tt w (record { others = refl; logs = inl (same, refl) }))
      λ differs. Ends-bind _ _ w (Ends-fresh_id w) λ i u e.
        Ends-bind _ _ u (Ends-read_clock u) λ now v e'.
          Ends-weaken (Ends-in_tx (insert_log (status_change i input old now)) v) λ t x done.
            let base : v.tx ≡ w.tx = ap (λ (z : World). z.tx) e' ∙ e.1 in
            let eq =
              subst
                (λ d. x.tx ≡ record d {
                  service_status_log = d.service_status_log ++ status_change i input old now ∷ [];
                })
                base (insert_log-eq input old i now v.tx x.tx t done) in
            record {
              others = ground (arith, eq);
              logs = inr (differs, i, now, ap (λ (d : Db). d.service_status_log) eq);
            }

update_service_tx-eq :
    (service : Service) (now : Time) (d d' : Db) (t : Unit {0})
    → update_service_tx service now d ≡ rows t d'
    → d' ≡ record d {
      services = update_where (is_service service.id) (set_service service now) d.services;
    }
unfolding update_service_tx
update_service_tx-eq service now d d' t h = ground (arith, h)

-- What a returning transaction has written.
pub record Written (input : UpdateServiceInput) (old : Service) (d d' : Db) : Type 0 where
  pub now : Time
  pub services :
      d'.services
      ≡ update_where (is_service input.service.id) (set_service input.service now) d.services
  pub groups : Regroups input.service.id input.group_ids d d'
  pub logs : Logs input old d d'
  pub others : d' ≡ record d {
    services = d'.services;
    service_group_members = d'.service_group_members;
    service_status_log = d'.service_status_log;
  }

Written-of :
    (input : UpdateServiceInput) (old : Service) (now : Time) (d d₁ d₂ d₃ : Db)
    → Notes input old d d₁
    → d₂ ≡ record d₁ {
      services =
          update_where (is_service input.service.id) (set_service input.service now) d₁.services;
    }
    → Replaces input.service.id input.group_ids d₂ d₃
    → Written input old d d₃
Written-of input old now d d₁ d₂ d₃ n e r =
    let members : d₂.service_group_members ≡ d.service_group_members =
      ground (arith, n.others, e) in
    let log : d₃.service_status_log ≡ d₁.service_status_log = ground (arith, e, r.others) in
    record {
      now = now;
      services = ground (arith, n.others, e, r.others);
      groups = λ t g.
          r.groups t g
          ∙ ap
              (λ ms.
                if t == input.service.id
                then contains g input.group_ids
                else any (is_member t g) ms)
              members;
      logs = elim n.logs [
        | inl (same, kept) ↦ inl (same, log ∙ kept)
        | inr (differs, i, at, noted) ↦ inr (differs, i, at, log ∙ noted)
      ];
      others = ground (arith, n.others, e, r.others);
    }

pub update_service_body-Written :
    (input : UpdateServiceInput) (old : Service) (w : World)
    → Ends (λ _ u. Written input old w.tx u.db) (update_service_body input old) w
unfolding update_service_body
update_service_body-Written input old w = Ends-bind _ _ w (note_change input old w) λ t₁ w₁ notes.
    Ends-bind _ _ w₁ (Ends-read_clock w₁) λ now w₂ e₂.
      Ends-bind _ _ w₂ (Ends-in_tx (update_service_tx input.service now) w₂) λ t₃ w₃ set.
        Ends-bind _ _ w₃ (replace_all input.service.id input.group_ids w₃) λ t₄ w₄ groups.
          Ends-weaken (Ends-commit w₄) λ t₅ w₅ done. subst (Written input old w.tx) (sym done) (
            Written-of input old now w.tx w₁.tx w₃.tx w₄.tx notes
              (update_service_tx-eq input.service now w₁.tx w₃.tx t₃
                (ap (λ (z : World). update_service_tx input.service now z.tx) (sym e₂) ∙ set))
              groups)
