-- ===== src/Events/History/Closed.antt =====
-- A closed event is never opened again.
use mathlib.Core.Path.{subst}
use incident_garden.Prelude.{
  ℕ, ◌≤◌, ◌<◌, ◌≡◌, refl, ap, ◌∙◌, ◌⊎◌, inl, inr, Bool, true, false, none, some, List, [], ◌∷◌,
  arith, ◌==◌, find_first, update_where, Bool-cases, ==_iff,
}
use incident_garden.Domain.{Uuid, Event, is_resolved}
use incident_garden.Store.{World}
use incident_garden.Events.Repository.{is_event}
use incident_garden.Events.Create.{Statuses}
use incident_garden.Events.Delete.Gone.{find_event_dropped}
use incident_garden.Events.History.{History, start, pass, next, perform}
use incident_garden.Events.History.Rows.{RowChange, kept, added, replaced, removed, perform-Changes}
use incident_garden.Events.History.Invariant.{Below, Sound, History-Sound}

find_first-Below :
    (n : ℕ) (e : Uuid) (row : Event) (xs : List Event)
    → find_first (is_event e) xs ≡ some row
    → Below n xs
    → e < n
find_first-Below n e row [] f b = cc
find_first-Below n e row (x ∷ xs) f (b, bs) = elim (Bool-cases (x.id == e)) [
  | inl hit ↦ subst (λ i. i < n) (ground (arith, hit, ==_iff x.id e)) b
  | inr miss ↦ find_first-Below n e row xs (ground (arith, f, miss)) bs
]

find_first-update :
    (e t : Uuid) (new : Event → Event) (xs : List Event)
    → (t == e) ≡ false
    → ((r : Event) → (new r).id ≡ r.id)
    → find_first (is_event t) (update_where (is_event e) new xs) ≡ find_first (is_event t) xs
find_first-update e t new [] d h = refl
find_first-update e t new (x ∷ xs) d h = elim (Bool-cases (x.id == e)) [
  | inl hit ↦ rw hit (
      ground (
        arith,
        find_first-update e t new xs d h,
        h x,
        hit,
        d,
        ==_iff x.id e,
        ==_iff x.id t,
        ==_iff t e,
      ))
  | inr miss ↦ rw miss (ground (arith, find_first-update e t new xs d h))
]

-- The event is as it was when it was closed, or is gone, and its identifier is not handed out again.
abbrev Settled : Uuid → Event → World → Type 0
Settled e row w =
    (find_first (is_event e) w.db.events ≡ some row)
    ⊎ ((find_first (is_event e) w.db.events ≡ none) × (e < w.next_id))

Settled-known : (e : Uuid) (row : Event) (w : World) → Sound w → Settled e row w → e < w.next_id
Settled-known e row w s (inl found) = find_first-Below w.next_id e row w.db.events found s.below
Settled-known e row w s (inr (gone, below)) = below

Settled-same :
    (e : Uuid) (row : Event) (w w' : World)
    → find_first (is_event e) w'.db.events ≡ find_first (is_event e) w.db.events
    → e < w'.next_id
    → Settled e row w
    → Settled e row w'
Settled-same e row w w' same below (inl found) = inl (same ∙ found)
Settled-same e row w w' same below (inr (gone, _)) = inr (same ∙ gone, below)

not_replaced :
    (e t : Uuid) (row old : Event) (w : World)
    → is_resolved row.status ≡ true
    → find_first (is_event t) w.db.events ≡ some old
    → is_resolved old.status ≡ false
    → Settled e row w
    → (e == t) ≡ false
not_replaced e t row old w closed found was_open (inl here) = elim (Bool-cases (e == t)) [
  | inl hit ↦ ground (arith, hit, here, found, closed, was_open, ==_iff e t)
  | inr miss ↦ miss
]
not_replaced e t row old w closed found was_open (inr (gone, _)) = elim (Bool-cases (e == t)) [
  | inl hit ↦ ground (arith, hit, gone, found, ==_iff e t)
  | inr miss ↦ miss
]

RowChange-Settled :
    (e : Uuid) (row : Event) (w w' : World)
    → is_resolved row.status ≡ true
    → Sound w
    → w.next_id ≤ w'.next_id
    → RowChange w w'
    → Settled e row w
    → Settled e row w'
RowChange-Settled e row w w' closed s up (kept same) c =
    let known = Settled-known e row w s c in
    Settled-same e row w w' (ap (find_first (is_event e)) same) (omega arith) c
RowChange-Settled e row w w' closed s up (added new more low high) c =
    let known = Settled-known e row w s c in
    let apart : (new.id == e) ≡ false = ground (arith, ==_iff new.id e) in
    Settled-same e row w w' (ap (find_first (is_event e)) more ∙ ground (arith, apart))
      (omega arith) c
RowChange-Settled e row w w' closed s up (replaced t new old more same_ids found was_open) c =
    let known = Settled-known e row w s c in
    let apart = not_replaced e t row old w closed found was_open c in
    Settled-same e row w w'
      (ap (find_first (is_event e)) more ∙ find_first-update t e new w.db.events apart same_ids)
      (omega arith) c
RowChange-Settled e row w w' closed s up (removed t less) c =
    let known = Settled-known e row w s c in
    let dropped = ap (find_first (is_event e)) less ∙ find_event_dropped t e w.db.events in
    elim (Bool-cases (e == t)) [
      | inl hit ↦ inr (dropped ∙ ground (arith, hit), omega arith)
      | inr miss ↦ Settled-same e row w w' (dropped ∙ ground (arith, miss)) (omega arith) c
    ]

History-Settled :
    (b : Bool) (range : Statuses → Statuses) (e : Uuid) (row : Event) (w w' : World)
    → is_resolved row.status ≡ true
    → Sound w
    → Settled e row w
    → History b range w w'
    → Settled e row w'
History-Settled b range e row w _ closed s c start = c
History-Settled b range e row w _ closed s c (pass {w'} faults now h) =
    Settled-same e row w' (record w' { faults = faults; now = now }) refl
      (Settled-known e row w' (History-Sound b range w w' s h)
        (History-Settled b range e row w w' closed s c h))
      (History-Settled b range e row w w' closed s c h)
History-Settled b range e row w _ closed s c (next {w'} op h) =
    let k = perform-Changes b range op w' in
    RowChange-Settled e row w' (perform b range op w') closed (History-Sound b range w w' s h)
      k.next k.rows (History-Settled b range e row w w' closed s c h)

forget :
    (e : Uuid) (row : Event) (w : World)
    → Settled e row w
    → (find_first (is_event e) w.db.events ≡ some row)
      ⊎ (find_first (is_event e) w.db.events ≡ none)
forget e row w (inl here) = inl here
forget e row w (inr (gone, _)) = inr gone

-- From a world whose event identifiers are distinct and below the counter, over any operations in
-- any order, an event that is closed is at any later time exactly as it was, or gone.
pub History-closed :
    (b : Bool) (range : Statuses → Statuses) (w w' : World) (e : Uuid) (row : Event)
    → Sound w
    → find_first (is_event e) w.db.events ≡ some row
    → is_resolved row.status ≡ true
    → History b range w w'
    → (find_first (is_event e) w'.db.events ≡ some row)
      ⊎ (find_first (is_event e) w'.db.events ≡ none)
History-closed b range w w' e row s found closed h =
    forget e row w' (History-Settled b range e row w w' closed s (inl found) h)
