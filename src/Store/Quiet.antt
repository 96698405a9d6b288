-- ===== src/Store/Quiet.antt =====
-- Actions that the outside does not see: neither the pool's tables nor the notices change.
use incident_garden.Prelude.{
  ◌≡◌, ◌⊎◌, inl, inr, refl, Bool, true, false, List, [], ◌∷◌, arith, if◌then◌else◌,
}
use incident_garden.Store.{
  Error, Result, ok, err, Db, World, Notice, Action, pure, finally, ◌>>=◌, after, Reply, rows,
  no_rows, violation, in_tx, on_pool, attempt, attempt_pool, settle_pool, begin_tx, begin_on,
  commit, commit_on, rollback, fresh_id, notify,
}
use incident_garden.Store.Steps.{IsPreorder, Step, step_rules}

pub record Unseen (w w' : World) : Type 0 where
  pub same_db : w'.db ≡ w.db
  pub same_notices : w'.notices ≡ w.notices

pub Unseen-IsPreorder : IsPreorder Unseen
Unseen-IsPreorder = record {
  reflexive = λ w. record { same_db = refl; same_notices = refl };
  transitive = λ u v w h k. ground arith;
}

module _ {A : Type 0} where
  attempt-Unseen : (fs : List Bool) (r : Reply A) (w : World) → Unseen w (attempt fs r w).1
  unfolding attempt
  attempt-Unseen [] r w = ground arith
  attempt-Unseen (false ∷ fs) r w = ground arith
  attempt-Unseen (true ∷ fs) r w = ground arith

  pub in_tx-Unseen : (f : Db → Reply A) → Step Unseen (in_tx f)
  unfolding in_tx
  in_tx-Unseen f = record { at = λ w. ground (arith, attempt-Unseen w.faults (f w.tx) w) }

-- A query: it leaves the tables as they are.
pub record IsRead {A : Type 0} (f : Db → Reply A) : Type 0 where
  pub at : (d d' : Db) (a : A) → f d ≡ rows a d' → d' ≡ d

module _ {A : Type 0} where
  settle_pool-Unseen :
      (f : Db → Reply A)
      → IsRead f
      → (r : Reply A) (w : World) → r ≡ f w.db
      → Unseen w (settle_pool r w).1
  unfolding settle_pool
  settle_pool-Unseen f q (rows a d) w e = ground (arith, q.at w.db d a)
  settle_pool-Unseen f q (no_rows x) w e = ground arith
  settle_pool-Unseen f q violation w e = ground arith

  attempt_pool-Unseen :
      (f : Db → Reply A)
      → IsRead f
      → (fs : List Bool) (w : World) → Unseen w (attempt_pool fs (f w.db) w).1
  unfolding attempt_pool
  attempt_pool-Unseen f q [] w = settle_pool-Unseen f q (f w.db) w refl
  attempt_pool-Unseen f q (false ∷ fs) w =
      let u = record w { faults = fs } in ground (arith, settle_pool-Unseen f q (f w.db) u refl)
  attempt_pool-Unseen f q (true ∷ fs) w = ground arith

  pub on_pool-Unseen : (f : Db → Reply A) → IsRead f → Step Unseen (on_pool f)
  unfolding on_pool
  on_pool-Unseen f q = record { at = λ w. attempt_pool-Unseen f q w.faults w }

-- A statement on the pool makes an error, and nothing changes, or commits the tables that it computes.
abbrev pub Settled : {A : Type 0} → (Db → Reply A) → World → Result A × World → Type 0
Settled {A} f w (r, u) =
    ((e : Error) × (r ≡ err e) × Unseen w u)
    ⊎ ((a : A) × (r ≡ ok a) × (f w.db ≡ rows a u.db) × (u.notices ≡ w.notices))

module _ {A : Type 0} where
  settle_pool-Settled :
      (f : Db → Reply A) (r : Reply A) (w : World) → f w.db ≡ r → Settled f w (settle_pool r w)
  unfolding settle_pool
  settle_pool-Settled f (rows a d) w e = inr (a, refl, e, refl)
  settle_pool-Settled f (no_rows x) w e = inl (x, refl, Unseen-IsPreorder.reflexive w)
  settle_pool-Settled f violation w e = inl (_, refl, Unseen-IsPreorder.reflexive w)

  attempt_pool-Settled :
      (f : Db → Reply A) (fs : List Bool) (w : World) → Settled f w (attempt_pool fs (f w.db) w)
  unfolding attempt_pool
  attempt_pool-Settled f [] w = settle_pool-Settled f (f w.db) w refl
  attempt_pool-Settled f (false ∷ fs) w =
      elim (settle_pool-Settled f (f w.db) (record w { faults = fs }) refl) [
        | inl (e, failed, u) ↦
            inl (e, failed, record { same_db = u.same_db; same_notices = u.same_notices })
        | inr done ↦ inr done
      ]
  attempt_pool-Settled f (true ∷ fs) w =
      inl (_, refl, record { same_db = refl; same_notices = refl })

  pub on_pool-Settled : (f : Db → Reply A) (w : World) → Settled f w (on_pool f w)
  unfolding on_pool
  on_pool-Settled f w = attempt_pool-Settled f w.faults w

begin_on-Unseen : (fs : List Bool) (w : World) → Unseen w (begin_on fs w).1
unfolding begin_on
begin_on-Unseen [] w = ground arith
begin_on-Unseen (false ∷ fs) w = ground arith
begin_on-Unseen (true ∷ fs) w = ground arith

pub begin_tx-Unseen : Step Unseen begin_tx
unfolding begin_tx
begin_tx-Unseen = record { at = λ w. begin_on-Unseen w.faults w }

pub fresh_id-Unseen : Step Unseen fresh_id
unfolding fresh_id
fresh_id-Unseen = record { at = λ w. ground arith }

pub ruleset quiet_rules =
    (step_rules, Unseen-IsPreorder, in_tx-Unseen, on_pool-Unseen, begin_tx-Unseen, fresh_id-Unseen)

-- An action that, where it fails, has left what the outside sees as it was.
pub record Atomic {A : Type 0} (m : Action A) : Type 0 where
  pub at : (w : World) (e : Error) → (m w).0 ≡ err e → Unseen w (m w).1

module _ {A : Type 0} where
  pub Atomic-quiet : (m : Action A) → Step Unseen m → Atomic m
  Atomic-quiet m s = record { at = λ w e h. s.at w }

  pub Atomic-finally : (m : Action A) → Atomic m → Atomic (finally m rollback)
  unfolding finally rollback
  Atomic-finally m s = record { at = λ w e h. ground (arith, s.at w e) }

module _ {A B : Type 0} where
  Atomic-after : (r : Result A) (f : A → Action B) → ((a : A) → Atomic (f a)) → Atomic (after r f)
  unfolding after
  Atomic-after (ok a) f h = record { at = (h a).at }
  Atomic-after (err x) f h = record { at = λ w e p. Unseen-IsPreorder.reflexive w }

  -- A quiet action, and then an atomic one.
  pub Atomic-bind :
      (m : Action A) (f : A → Action B)
      → Step Unseen m
      → ((a : A) → Atomic (f a))
      → Atomic (m >>= f)
  unfolding ◌>>=◌
  Atomic-bind m f sm sf = record {
    at = λ w e h.
        let (r, w') = m w in
        Unseen-IsPreorder.transitive w w' (after r f w').1 (sm.at w)
          ((Atomic-after r f sf).at w' e h);
  }

pure_after :
    {A B : Type 0} (r : Result A) (b : B) (w u : World) (e : Error)
    → ((x : Error) → r ≡ err x → Unseen w u)
    → (after r (λ _. pure b) u).0 ≡ err e
    → Unseen w (after r (λ _. pure b) u).1
unfolding after pure
pure_after (ok a) b w u e k h = cc
pure_after (err x) b w u e k h = k x refl

-- An atomic action whose value is replaced.
pub Atomic-pure : {A B : Type 0} (m : Action A) (b : B) → Atomic m → Atomic (m >>= λ _. pure b)
unfolding ◌>>=◌
Atomic-pure m b s = record { at = λ w e h. pure_after (m w).0 b w (m w).1 e (s.at w) h }

commit_on_Atomic :
    {A : Type 0} (b : Bool) (n : Notice) (a : A) (ab : Bool) (fs : List Bool) (w : World)
    (e : Error)
    → let (r, w') = commit_on ab fs w in
      let rest = after r (λ _. (if b then notify n else pure tt) >>= λ _. pure a) w' in
      rest.0 ≡ err e → Unseen w rest.1
unfolding commit_on after ◌>>=◌ notify pure
commit_on_Atomic b n a true fs w e h = ground arith
commit_on_Atomic true n a false [] w e h = ground arith
commit_on_Atomic false n a false [] w e h = ground arith
commit_on_Atomic true n a false (false ∷ fs) w e h = ground arith
commit_on_Atomic false n a false (false ∷ fs) w e h = ground arith
commit_on_Atomic b n a false (true ∷ fs) w e h = ground arith

-- After the commit nothing can fail: the notice is sent only for what has been committed.
pub commit-notify-Atomic :
    {A : Type 0} (b : Bool) (n : Notice) (a : A)
    → Atomic (commit >>= λ _. (if b then notify n else pure tt) >>= λ _. pure a)
unfolding commit ◌>>=◌
commit-notify-Atomic b n a = record {
  at = λ w e h. commit_on_Atomic b n a w.aborted w.faults w e h;
}

commit_on-Unseen_err :
    (ab : Bool) (fs : List Bool) (w : World) (e : Error)
    → (commit_on ab fs w).0 ≡ err e
    → Unseen w (commit_on ab fs w).1
unfolding commit_on
commit_on-Unseen_err true fs w e h = ground arith
commit_on-Unseen_err false [] w e h = ground arith
commit_on-Unseen_err false (false ∷ fs) w e h = ground arith
commit_on-Unseen_err false (true ∷ fs) w e h = ground arith

pub commit-Atomic : Atomic commit
unfolding commit
commit-Atomic = record { at = λ w e h. commit_on-Unseen_err w.aborted w.faults w e h }
