-- ===== src/Store/Ids.antt =====
-- Identifiers are handed out in order: no action takes the counter back.
use incident_garden.Prelude.{◌≤◌, Bool, true, false, List, [], ◌∷◌, arith, if◌then◌else◌}
use native.Mathlib.Nat.{le_refl}
use incident_garden.Store.{
  err, Db, World, Notice, Action, finally, Reply, rows, no_rows, violation, db_failure, settle,
  attempt, in_tx, settle_pool, attempt_pool, on_pool, begin_on, begin_tx, commit_on, commit,
  rollback, fresh_id, notify,
}
use incident_garden.Store.Steps.{IsPreorder, Step, step_rules}

pub record NextUp (w w' : World) : Type 0 where
  pub at_most : w.next_id ≤ w'.next_id

pub NextUp-IsPreorder : IsPreorder NextUp
NextUp-IsPreorder = record {
  reflexive = λ w. record { at_most = le_refl w.next_id };
  transitive = λ u v w h k. record { at_most = omega (arith, h.at_most, k.at_most) };
}

module _ {A : Type 0} where
  settle-NextUp : (r : Reply A) (w : World) → NextUp w (settle r w).1
  unfolding settle
  settle-NextUp (rows a d) w = record { at_most = le_refl w.next_id }
  settle-NextUp (no_rows e) w = record { at_most = le_refl w.next_id }
  settle-NextUp violation w = record { at_most = le_refl w.next_id }

  attempt-NextUp :
      (ab : Bool) (fs : List Bool) (r : Reply A) (w : World)
      → NextUp w (if ab then (err db_failure, w) else attempt fs r w).1
  unfolding attempt
  attempt-NextUp true fs r w = record { at_most = le_refl w.next_id }
  attempt-NextUp false [] r w = settle-NextUp r w
  attempt-NextUp false (false ∷ fs) r w = record {
    at_most = (settle-NextUp r (record w { faults = fs })).at_most;
  }
  attempt-NextUp false (true ∷ fs) r w = record { at_most = le_refl w.next_id }

  pub in_tx-NextUp : (f : Db → Reply A) → Step NextUp (in_tx f)
  unfolding in_tx
  in_tx-NextUp f = record { at = λ w. attempt-NextUp w.aborted w.faults (f w.tx) w }

  settle_pool-NextUp : (r : Reply A) (w : World) → NextUp w (settle_pool r w).1
  unfolding settle_pool
  settle_pool-NextUp (rows a d) w = record { at_most = le_refl w.next_id }
  settle_pool-NextUp (no_rows e) w = record { at_most = le_refl w.next_id }
  settle_pool-NextUp violation w = record { at_most = le_refl w.next_id }

  attempt_pool-NextUp :
      (fs : List Bool) (r : Reply A) (w : World) → NextUp w (attempt_pool fs r w).1
  unfolding attempt_pool
  attempt_pool-NextUp [] r w = settle_pool-NextUp r w
  attempt_pool-NextUp (false ∷ fs) r w = record {
    at_most = (settle_pool-NextUp r (record w { faults = fs })).at_most;
  }
  attempt_pool-NextUp (true ∷ fs) r w = record { at_most = le_refl w.next_id }

  pub on_pool-NextUp : (f : Db → Reply A) → Step NextUp (on_pool f)
  unfolding on_pool
  on_pool-NextUp f = record { at = λ w. attempt_pool-NextUp w.faults (f w.db) w }

  pub finally-NextUp : (m : Action A) → Step NextUp m → Step NextUp (finally m rollback)
  unfolding finally rollback
  finally-NextUp m s = record { at = λ w. record { at_most = (s.at w).at_most } }

begin_on-NextUp : (fs : List Bool) (w : World) → NextUp w (begin_on fs w).1
unfolding begin_on
begin_on-NextUp [] w = record { at_most = le_refl w.next_id }
begin_on-NextUp (false ∷ fs) w = record { at_most = le_refl w.next_id }
begin_on-NextUp (true ∷ fs) w = record { at_most = le_refl w.next_id }

pub begin_tx-NextUp : Step NextUp begin_tx
unfolding begin_tx
begin_tx-NextUp = record { at = λ w. begin_on-NextUp w.faults w }

commit_on-NextUp : (ab : Bool) (fs : List Bool) (w : World) → NextUp w (commit_on ab fs w).1
unfolding commit_on
commit_on-NextUp true fs w = record { at_most = le_refl w.next_id }
commit_on-NextUp false [] w = record { at_most = le_refl w.next_id }
commit_on-NextUp false (false ∷ fs) w = record { at_most = le_refl w.next_id }
commit_on-NextUp false (true ∷ fs) w = record { at_most = le_refl w.next_id }

pub commit-NextUp : Step NextUp commit
unfolding commit
commit-NextUp = record { at = λ w. commit_on-NextUp w.aborted w.faults w }

pub fresh_id-NextUp : Step NextUp fresh_id
unfolding fresh_id
fresh_id-NextUp = record { at = λ w. record { at_most = omega arith } }

pub notify-NextUp : (n : Notice) → Step NextUp (notify n)
unfolding notify
notify-NextUp n = record { at = λ w. record { at_most = le_refl w.next_id } }

pub ruleset id_rules = (
  step_rules, NextUp-IsPreorder, in_tx-NextUp, on_pool-NextUp, begin_tx-NextUp, commit-NextUp,
  fresh_id-NextUp, notify-NextUp, finally-NextUp,
)
