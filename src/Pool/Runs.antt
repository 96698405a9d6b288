-- ===== src/Pool/Runs.antt =====
-- How a routine on a pool runs where the server refuses nothing: one equation for each way to begin
-- it.
use incident_garden.Prelude.{◌≡◌, refl, Bool, true, false, Option, some, List, [], ◌∷◌}
use incident_garden.Errors.{Error, Result, ok, err}
use incident_garden.Domain.{Time}
use incident_garden.Routine.{
  Routine, pure, ◌>>=◌, after, fail_if, try, require, settle_as, fail_as, ignore,
}
use incident_garden.Pool.{Pool, settle, attempt, statement, call, pool_clock}

module _ {S B : Type 0} where
  pub clock_runs : (k : Time → Routine (Pool S) B) (p : Pool S) → (pool_clock >>= k) p ≡ k p.now p
  unfolding pool_clock ◌>>=◌ after
  clock_runs k p = refl

  pub fail_if_passes :
      (c : Bool) (x : Error) (k : Unit {0} → Routine (Pool S) B) (p : Pool S)
      → c ≡ false
      → (fail_if c x >>= k) p ≡ k tt p
  unfolding fail_if ◌>>=◌ after
  fail_if_passes c x k p h = rw h refl

  pub fail_if_stops :
      (c : Bool) (x : Error) (k : Unit {0} → Routine (Pool S) B) (p : Pool S)
      → c ≡ true
      → (fail_if c x >>= k) p ≡ (err x, p)
  unfolding fail_if ◌>>=◌ after
  fail_if_stops c x k p h = rw h refl

module _ {S A B : Type 0} where
  pub pure_runs : (a : A) (k : A → Routine (Pool S) B) (p : Pool S) → (pure a >>= k) p ≡ k a p
  unfolding pure ◌>>=◌ after
  pure_runs a k p = refl

  pub bind_runs :
      (m : Routine (Pool S) A) (k : A → Routine (Pool S) B) (p q : Pool S) (a : A)
      → m p ≡ (ok a, q)
      → (m >>= k) p ≡ k a q
  unfolding ◌>>=◌ after
  bind_runs m k p q a h = rw h refl

  pub require_runs :
      (o : Option A) (x : Error) (k : A → Routine (Pool S) B) (p : Pool S) (a : A)
      → o ≡ some a
      → (require o x >>= k) p ≡ k a p
  unfolding require ◌>>=◌ after
  require_runs o x k p a h = rw h refl

  pub call_runs :
      (f : S → Result A × S) (k : A → Routine (Pool S) B) (p : Pool S) (a : A) (s : S)
      → f p.state ≡ (ok a, s)
      → (call f >>= k) p ≡ k a (record p { state = s })
  unfolding call ◌>>=◌ after
  call_runs f k p a s h = rw h refl

  module _ (f : Time → S → Result (A × S)) (p : Pool S) (served : p.faults ≡ []) where
    pub statement_runs :
        (k : A → Routine (Pool S) B) (a : A) (s : S)
        → f p.now p.state ≡ ok (a, s)
        → (statement f >>= k) p ≡ k a (record p { state = s })
    unfolding statement attempt settle ◌>>=◌ after
    statement_runs k a s h = rw (served, h) refl

    pub statement_stops :
        (k : A → Routine (Pool S) B) (x : Error)
        → f p.now p.state ≡ err x
        → (statement f >>= k) p ≡ (err x, p)
    unfolding statement attempt settle ◌>>=◌ after
    statement_stops k x h = rw (served, h) refl

    pub try_runs :
        (k : Result A → Routine (Pool S) B) (a : A) (s : S)
        → f p.now p.state ≡ ok (a, s)
        → (try (statement f) >>= k) p ≡ k (ok a) (record p { state = s })
    unfolding statement attempt settle try ◌>>=◌ after
    try_runs k a s h = rw (served, h) refl

    pub try_goes_on :
        (k : Result A → Routine (Pool S) B) (x : Error)
        → f p.now p.state ≡ err x
        → (try (statement f) >>= k) p ≡ k (err x) p
    unfolding statement attempt settle try ◌>>=◌ after
    try_goes_on k x h = rw (served, h) refl

    pub fail_as_runs :
        (x : Error) (k : A → Routine (Pool S) B) (a : A) (s : S)
        → f p.now p.state ≡ ok (a, s)
        → (fail_as x (statement f) >>= k) p ≡ k a (record p { state = s })
    unfolding statement attempt settle fail_as try settle_as ◌>>=◌ after
    fail_as_runs x k a s h = rw (served, h) refl

    pub fail_as_stops :
        (x : Error) (k : A → Routine (Pool S) B) (y : Error)
        → f p.now p.state ≡ err y
        → (fail_as x (statement f) >>= k) p ≡ (err x, p)
    unfolding statement attempt settle fail_as try settle_as ◌>>=◌ after
    fail_as_stops x k y h = rw (served, h) refl

    pub ignore_runs :
        (k : Unit {0} → Routine (Pool S) B) (a : A) (s : S)
        → f p.now p.state ≡ ok (a, s)
        → (ignore (statement f) >>= k) p ≡ k tt (record p { state = s })
    unfolding statement attempt settle ignore try pure ◌>>=◌ after
    ignore_runs k a s h = rw (served, h) refl

module _ {S A : Type 0} (f : Time → S → Result (A × S)) (p : Pool S) (served : p.faults ≡ []) where
  -- A statement, and one whose error is only logged, at the end of a routine.
  pub statement_ends :
      (a : A) (s : S) → f p.now p.state ≡ ok (a, s) → statement f p ≡ (ok a, record p { state = s })
  unfolding statement attempt settle
  statement_ends a s h = rw (served, h) refl

  pub ignore_ends :
      (a : A) (s : S)
      → f p.now p.state ≡ ok (a, s)
      → ignore (statement f) p ≡ (ok tt, record p { state = s })
  unfolding statement attempt settle ignore try pure ◌>>=◌ after
  ignore_ends a s h = rw (served, h) refl

-- A statement that fails where it is carried out fails in any case.
attempt_fails :
    {S A : Type 0} (x : Error) (fs : List Bool) (r : Result (A × S)) (p : Pool S) {y : Error}
    → r ≡ err y
    → (settle_as x (attempt fs r p).0 (attempt fs r p).1).0 ≡ err x
unfolding attempt settle settle_as
attempt_fails x [] r p h = rw h refl
attempt_fails x (false ∷ fs) r p h = rw h refl
attempt_fails x (true ∷ fs) r p h = refl

fails_on :
    {S A B : Type 0} (r : Result A × S) (k : A → Routine S B) {x : Error}
    → r.0 ≡ err x
    → (after r.0 k r.1).0 ≡ err x
unfolding after
fails_on r k h = rw h refl

pub fail_as_fails :
    {S A B : Type 0} (f : Time → S → Result (A × S)) (x : Error) (k : A → Routine (Pool S) B)
    (p : Pool S) (y : Error)
    → f p.now p.state ≡ err y
    → ((fail_as x (statement f) >>= k) p).0 ≡ err x
unfolding statement fail_as try ◌>>=◌ after
fail_as_fails f x k p y h =
    fails_on
      (settle_as x (attempt p.faults (f p.now p.state) p).0
        (attempt p.faults (f p.now p.state) p).1)
      k (attempt_fails x p.faults (f p.now p.state) p h)
