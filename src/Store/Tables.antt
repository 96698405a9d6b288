-- ===== src/Store/Tables.antt =====
-- What statements do to the tables of the open transaction, and what an action that returns has
-- established.
use incident_garden.Prelude.{
  ◌+◌, ◌≡◌, refl, sym, ap, Bool, true, false, List, [], ◌∷◌, arith, if◌then◌else◌,
}
use mathlib.Core.Path.{subst}
use incident_garden.Store.{
  ok, err, Db, World, Notice, Action, finally, Reply, rows, no_rows, violation, db_failure, in_tx,
  on_pool, attempt, settle, attempt_pool, settle_pool, begin_tx, begin_on, commit, commit_on,
  rollback, fresh_id, read_clock, notify,
}
pub use incident_garden.Routine.Ends.{
  Ends, Ends-bind, Ends-Step, Ends-pure, Ends-fail, Ends-weaken, Ends-if, Ends-fail_if, Ends-both,
}
use incident_garden.Store.Steps.{IsPreorder, Step}

pub record DbPreorder (R : Db → Db → Type 0) : Type 0 where
  pub reflexive : (d : Db) → R d d
  pub transitive : (c d e : Db) → R c d → R d e → R c e

-- The tables before and after each statement that is carried out.
pub record DbStep {A : Type 0} (R : Db → Db → Type 0) (f : Db → Reply A) : Type 0 where
  pub at : (d d' : Db) (a : A) → f d ≡ rows a d' → R d d'

pub record OnTx (R : Db → Db → Type 0) (w w' : World) : Type 0 where
  pub related : R w.tx w'.tx

module _ {R : Db → Db → Type 0} where
  pub OnTx-IsPreorder : DbPreorder R → IsPreorder (OnTx R)
  OnTx-IsPreorder p = record {
    reflexive = λ w. record { related = p.reflexive w.tx };
    transitive = λ u v w h k. record { related = p.transitive u.tx v.tx w.tx h.related k.related };
  }

  pub fresh_id-OnTx : DbPreorder R → Step (OnTx R) fresh_id
  unfolding fresh_id
  fresh_id-OnTx p = record { at = λ w. record { related = p.reflexive w.tx } }

module _ {R : Db → Db → Type 0} {A : Type 0} where
  settle-OnTx :
      DbPreorder R
      → (f : Db → Reply A) → DbStep R f
      → (r : Reply A) (w : World) → r ≡ f w.tx
      → OnTx R w (settle r w).1
  unfolding settle
  settle-OnTx p f s (rows a d) w e = record { related = s.at w.tx d a (sym e) }
  settle-OnTx p f s (no_rows x) w e = record { related = p.reflexive w.tx }
  settle-OnTx p f s violation w e = record { related = p.reflexive w.tx }

  attempt-OnTx :
      DbPreorder R
      → (f : Db → Reply A) → DbStep R f
      → (ab : Bool) (fs : List Bool) (w : World)
      → OnTx R w (if ab then (err db_failure, w) else attempt fs (f w.tx) w).1
  unfolding attempt
  attempt-OnTx p f s true fs w = record { related = p.reflexive w.tx }
  attempt-OnTx p f s false [] w = settle-OnTx p f s (f w.tx) w refl
  attempt-OnTx p f s false (false ∷ fs) w = record {
    related = (settle-OnTx p f s (f w.tx) (record w { faults = fs }) refl).related;
  }
  attempt-OnTx p f s false (true ∷ fs) w = record { related = p.reflexive w.tx }

  pub in_tx-OnTx : DbPreorder R → (f : Db → Reply A) → DbStep R f → Step (OnTx R) (in_tx f)
  unfolding in_tx
  in_tx-OnTx p f s = record { at = λ w. attempt-OnTx p f s w.aborted w.faults w }

  settle_pool-OnTx : DbPreorder R → (r : Reply A) (w : World) → OnTx R w (settle_pool r w).1
  unfolding settle_pool
  settle_pool-OnTx p (rows a d) w = record { related = p.reflexive w.tx }
  settle_pool-OnTx p (no_rows x) w = record { related = p.reflexive w.tx }
  settle_pool-OnTx p violation w = record { related = p.reflexive w.tx }

  attempt_pool-OnTx :
      DbPreorder R → (fs : List Bool) (r : Reply A) (w : World) → OnTx R w (attempt_pool fs r w).1
  unfolding attempt_pool
  attempt_pool-OnTx p [] r w = settle_pool-OnTx p r w
  attempt_pool-OnTx p (false ∷ fs) r w = record {
    related = (settle_pool-OnTx p r (record w { faults = fs })).related;
  }
  attempt_pool-OnTx p (true ∷ fs) r w = record { related = p.reflexive w.tx }

  pub on_pool-OnTx : DbPreorder R → (f : Db → Reply A) → Step (OnTx R) (on_pool f)
  unfolding on_pool
  on_pool-OnTx p f = record { at = λ w. attempt_pool-OnTx p w.faults (f w.db) w }

module _ {A : Type 0} where
  -- The result of a statement that is carried out is the reply that it computes.
  settle-eq-ok :
      (r : Reply A) (w : World) {a : A} {w' : World} → settle r w ≡ (ok a, w') → r ≡ rows a w'.tx
  unfolding settle
  settle-eq-ok (rows b d) w h = ground arith
  settle-eq-ok (no_rows x) w h = cc
  settle-eq-ok violation w h = cc

  attempt-eq-ok :
      (f : Db → Reply A) (ab : Bool) (fs : List Bool) (w : World) {a : A} {w' : World}
      → (if ab then (err db_failure, w) else attempt fs (f w.tx) w) ≡ (ok a, w')
      → f w.tx ≡ rows a w'.tx
  unfolding attempt
  attempt-eq-ok f true fs w h = cc
  attempt-eq-ok f false [] w h = settle-eq-ok (f w.tx) w h
  attempt-eq-ok f false (false ∷ fs) w h = settle-eq-ok (f w.tx) (record w { faults = fs }) h
  attempt-eq-ok f false (true ∷ fs) w h = cc

  pub Ends-in_tx : (f : Db → Reply A) (w : World) → Ends (λ a w'. f w.tx ≡ rows a w'.tx) (in_tx f) w
  unfolding in_tx
  Ends-in_tx f w = record { at = λ a w' e. attempt-eq-ok f w.aborted w.faults w e }

module _ {A : Type 0} where
  settle_pool-eq-ok :
      (r : Reply A) (w : World) {a : A} {w' : World}
      → settle_pool r w ≡ (ok a, w')
      → r ≡ rows a w'.db
  unfolding settle_pool
  settle_pool-eq-ok (rows b d) w h = ground arith
  settle_pool-eq-ok (no_rows x) w h = cc
  settle_pool-eq-ok violation w h = cc

  attempt_pool-eq-ok :
      (f : Db → Reply A) (fs : List Bool) (w : World) {a : A} {w' : World}
      → attempt_pool fs (f w.db) w ≡ (ok a, w')
      → f w.db ≡ rows a w'.db
  unfolding attempt_pool
  attempt_pool-eq-ok f [] w h = settle_pool-eq-ok (f w.db) w h
  attempt_pool-eq-ok f (false ∷ fs) w h = settle_pool-eq-ok (f w.db) (record w { faults = fs }) h
  attempt_pool-eq-ok f (true ∷ fs) w h = cc

  pub Ends-on_pool :
      (f : Db → Reply A) (w : World) → Ends (λ a w'. f w.db ≡ rows a w'.db) (on_pool f) w
  unfolding on_pool
  Ends-on_pool f w = record { at = λ a w' e. attempt_pool-eq-ok f w.faults w e }

begin_on_tx :
    (fs : List Bool) (w : World) {t : Unit {0}} {w' : World}
    → begin_on fs w ≡ (ok t, w')
    → w'.tx ≡ w.db
unfolding begin_on
begin_on_tx [] w h = ground arith
begin_on_tx (false ∷ fs) w h = ground arith
begin_on_tx (true ∷ fs) w h = cc

-- A transaction starts from the committed tables.
pub Ends-begin_tx : (w : World) → Ends (λ _ w'. w'.tx ≡ w.db) begin_tx w
unfolding begin_tx
Ends-begin_tx w = record { at = λ t w' e. begin_on_tx w.faults w e }

commit_on_db :
    (ab : Bool) (fs : List Bool) (w : World) {t : Unit {0}} {w' : World}
    → commit_on ab fs w ≡ (ok t, w')
    → w'.db ≡ w.tx
unfolding commit_on
commit_on_db true fs w h = cc
commit_on_db false [] w h = ground arith
commit_on_db false (false ∷ fs) w h = ground arith
commit_on_db false (true ∷ fs) w h = cc

-- A commit makes the tables of the transaction the committed ones.
pub Ends-commit : (w : World) → Ends (λ _ w'. w'.db ≡ w.tx) commit w
unfolding commit
Ends-commit w = record { at = λ t w' e. commit_on_db w.aborted w.faults w e }

pub Ends-notify : (n : Notice) (w : World) → Ends (λ _ w'. w'.db ≡ w.db) (notify n) w
unfolding notify
Ends-notify n w = record { at = λ t w' e. ground arith }

pub Ends-fresh_id :
    (w : World)
    → Ends (λ i w'. (i ≡ w.next_id) × (w'.tx ≡ w.tx) × (w'.next_id ≡ w.next_id + 1)) fresh_id w
unfolding fresh_id
Ends-fresh_id w = record { at = λ i w' e. (ground arith, ground arith, ground arith) }

pub Ends-read_clock : (w : World) → Ends (λ t w'. w' ≡ w) read_clock w
unfolding read_clock
Ends-read_clock w = record { at = λ t w' e. ground arith }

finally_value :
    {A : Type 0} (m : Action A) (w : World) {a : A} {w' : World}
    → finally m rollback w ≡ (ok a, w')
    → m w ≡ (ok a, (m w).1)
unfolding finally
finally_value m w e = ground arith

-- `rollback` behind a commit keeps what is committed.
pub Ends-finally :
    {A : Type 0} (P : A → Db → Type 0) (m : Action A) (w : World)
    → Ends (λ a w'. P a w'.db) m w
    → Ends (λ a w'. P a w'.db) (finally m rollback) w
unfolding finally rollback
Ends-finally P m w h = record {
  at = λ a w' e. subst (P a) (ap (λ r. r.1.db) e) (h.at a (m w).1 (finally_value m w e));
}

-- What a rollback cannot undo.
pub Ends-finally_kept :
    {A : Type 0} (P : A → World → Type 0) (m : Action A) (w : World)
    → Ends P m w
    → ((a : A) (u : World) → P a u → P a (rollback u))
    → Ends P (finally m rollback) w
unfolding finally
Ends-finally_kept P m w h k = record {
  at = λ a w' e. subst (P a) (ap (λ r. r.1) e) (k a (m w).1 (h.at a (m w).1 (finally_value m w e)));
}
