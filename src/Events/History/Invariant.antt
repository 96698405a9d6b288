-- ===== src/Events/History/Invariant.antt =====
-- The identifiers of the events stay distinct, and below the counter.
use mathlib.Core.Path.{subst}
use incident_garden.Prelude.{
  ℕ, ◌≤◌, ◌<◌, ◌≡◌, refl, sym, ap, ◌∙◌, inl, inr, Bool, true, false, not, List, [], ◌∷◌, arith,
  keep, update_where, contains, distinct, All, Bool-cases, ==_iff,
}
use incident_garden.Domain.{Uuid, Event}
use incident_garden.Store.{World}
use incident_garden.Events.Repository.{is_event}
use incident_garden.Events.Create.{Statuses}
use incident_garden.Events.Delete.Shown.{event_ids}
use incident_garden.Events.History.{History, start, pass, next, perform}
use incident_garden.Events.History.Rows.{RowChange, kept, added, replaced, removed, perform-Changes}

abbrev pub Below : ℕ → List Event → Type 0
Below n = All λ row. row.id < n

pub record Sound (w : World) : Type 0 where
  pub keys : distinct (event_ids w.db.events) ≡ true
  pub below : Below w.next_id w.db.events

Below-mono : (n k : ℕ) (xs : List Event) → n ≤ k → Below n xs → Below k xs
Below-mono n k [] h b = tt
Below-mono n k (x ∷ xs) h (b, bs) = (omega arith, Below-mono n k xs h bs)

Below-absent : (n i : ℕ) (xs : List Event) → n ≤ i → Below n xs → contains i (event_ids xs) ≡ false
Below-absent n i [] h b = refl
Below-absent n i (x ∷ xs) h (b, bs) = ground (arith, Below-absent n i xs h bs, ==_iff i x.id)

update_ids :
    (e : Uuid) (f : Event → Event) (xs : List Event)
    → ((r : Event) → (f r).id ≡ r.id)
    → event_ids (update_where (is_event e) f xs) ≡ event_ids xs
update_ids e f [] h = refl
update_ids e f (x ∷ xs) h = elim (Bool-cases (is_event e x)) [
  | inl hit ↦ rw (hit, h x, update_ids e f xs h) refl
  | inr miss ↦ rw (miss, update_ids e f xs h) refl
]

Below-update :
    (n : ℕ) (e : Uuid) (f : Event → Event) (xs : List Event)
    → ((r : Event) → (f r).id ≡ r.id)
    → Below n xs
    → Below n (update_where (is_event e) f xs)
Below-update n e f [] h b = tt
Below-update n e f (x ∷ xs) h (b, bs) = elim (Bool-cases (is_event e x)) [
  | inl hit ↦ rw hit (subst (λ i. i < n) (sym (h x)) b, Below-update n e f xs h bs)
  | inr miss ↦ rw miss (b, Below-update n e f xs h bs)
]

Below-keep : (n : ℕ) (p : Event → Bool) (xs : List Event) → Below n xs → Below n (keep p xs)
Below-keep n p [] b = tt
Below-keep n p (x ∷ xs) (b, bs) = elim (Bool-cases (p x)) [
  | inl hit ↦ rw hit (b, Below-keep n p xs bs)
  | inr miss ↦ rw miss (Below-keep n p xs bs)
]

contains-keep :
    (i : Uuid) (p : Event → Bool) (xs : List Event)
    → contains i (event_ids xs) ≡ false
    → contains i (event_ids (keep p xs)) ≡ false
contains-keep i p [] h = refl
contains-keep i p (x ∷ xs) h = ground (arith, contains-keep i p xs, Bool-cases (p x))

distinct-keep :
    (p : Event → Bool) (xs : List Event)
    → distinct (event_ids xs) ≡ true
    → distinct (event_ids (keep p xs)) ≡ true
distinct-keep p [] d = refl
distinct-keep p (x ∷ xs) d =
    ground (arith, contains-keep x.id p xs, distinct-keep p xs, Bool-cases (p x))

RowChange-Sound : (w w' : World) → RowChange w w' → w.next_id ≤ w'.next_id → Sound w → Sound w'
RowChange-Sound w w' (kept same) up s = record {
  keys = ap (λ xs. distinct (event_ids xs)) same ∙ s.keys;
  below =
      subst (Below w'.next_id) (sym same) (Below-mono w.next_id w'.next_id w.db.events up s.below);
}
RowChange-Sound w w' (added row more low high) up s = record {
  keys =
      ap (λ xs. distinct (event_ids xs)) more
      ∙ ground (arith, s.keys, Below-absent w.next_id row.id w.db.events low s.below);
  below =
      subst (Below w'.next_id) (sym more)
        (high, Below-mono w.next_id w'.next_id w.db.events up s.below);
}
RowChange-Sound w w' (replaced e new row more same_ids found open_before) up s = record {
  keys =
      ap (λ xs. distinct (event_ids xs)) more
      ∙ ap distinct (update_ids e new w.db.events same_ids)
      ∙ s.keys;
  below = subst (Below w'.next_id) (sym more) (
      Below-update w'.next_id e new w.db.events same_ids
        (Below-mono w.next_id w'.next_id w.db.events up s.below));
}
RowChange-Sound w w' (removed e less) up s = record {
  keys =
      ap (λ xs. distinct (event_ids xs)) less
      ∙ distinct-keep (λ r. not (is_event e r)) w.db.events s.keys;
  below = subst (Below w'.next_id) (sym less) (
      Below-keep w'.next_id (λ r. not (is_event e r)) w.db.events
        (Below-mono w.next_id w'.next_id w.db.events up s.below));
}

-- Over any operations in any order, returning or failing, the identifiers of the events stay
-- distinct and below the counter from which the next one is taken.
pub History-Sound :
    (b : Bool) (range : Statuses → Statuses) (w w' : World)
    → Sound w
    → History b range w w'
    → Sound w'
History-Sound b range w _ s start = s
History-Sound b range w _ s (pass {w'} faults now h) =
    let k = History-Sound b range w w' s h in record { keys = k.keys; below = k.below }
History-Sound b range w _ s (next {w'} op h) =
    let c = perform-Changes b range op w' in
    RowChange-Sound w' (perform b range op w') c.rows c.next (History-Sound b range w w' s h)
