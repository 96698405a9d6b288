-- ===== src/Pool/Results.antt =====
-- What a routine on a pool has established where it returns: one rule for each way to begin it. The
-- state that the rest starts from is written out, so that it computes.
use incident_garden.Prelude.{◌≡◌, refl, Bool, true, false, Option, none, some, List, [], ◌∷◌}
use incident_garden.Errors.{Error, Result, ok, err, db_failure}
use incident_garden.Domain.{Time}
use incident_garden.Routine.{
  Routine, pure, fail, ◌>>=◌, after, fail_if, try, require, settle_as, fail_as,
}
use incident_garden.Routine.Ends.{Ends}
use incident_garden.Pool.{Pool, settle, attempt, statement, call, pool_clock}

-- What is left to show where a statement is carried out.
abbrev pub Onward :
    {S A B : Type 0}
    → (B → Pool S → Type 0)
    → (Time → S → Result (A × S))
    → Pool S
    → (A → Routine (Pool S) B)
    → Type 0
Onward {S} {A} Q f p k =
    (a : A) (s : S) (fs : List Bool)
    → f p.now p.state ≡ ok (a, s)
    → Ends Q (k a) (record p { state = s; faults = fs })

module _ {S B : Type 0} {Q : B → Pool S → Type 0} where
  pub Results-clock :
      (k : Time → Routine (Pool S) B) (p : Pool S)
      → Ends Q (k p.now) p
      → Ends Q (pool_clock >>= k) p
  unfolding pool_clock ◌>>=◌ after
  Results-clock k p h = record { at = λ b q e. h.at b q e }

  pub Results-fail_if :
      (c : Bool) (x : Error) (k : Unit {0} → Routine (Pool S) B) (p : Pool S)
      → (c ≡ false → Ends Q (k tt) p)
      → Ends Q (fail_if c x >>= k) p
  unfolding fail_if ◌>>=◌ after
  Results-fail_if true x k p h = record { at = λ b q e. cc }
  Results-fail_if false x k p h = record { at = λ b q e. (h refl).at b q e }

module _ {S A B : Type 0} {Q : B → Pool S → Type 0} where
  pub Results-require :
      (o : Option A) (x : Error) (k : A → Routine (Pool S) B) (p : Pool S)
      → ((a : A) → o ≡ some a → Ends Q (k a) p)
      → Ends Q (require o x >>= k) p
  unfolding require ◌>>=◌ after
  Results-require none x k p h = record { at = λ b q e. cc }
  Results-require (some a) x k p h = record { at = λ b q e. (h a refl).at b q e }

  pub Results-pure :
      (a : A) (k : A → Routine (Pool S) B) (p : Pool S) → Ends Q (k a) p → Ends Q (pure a >>= k) p
  unfolding pure ◌>>=◌ after
  Results-pure a k p h = record { at = λ b q e. h.at b q e }

  pub Results-fail : (x : Error) (k : A → Routine (Pool S) B) (p : Pool S) → Ends Q (fail x >>= k) p
  unfolding fail ◌>>=◌ after
  Results-fail x k p = record { at = λ b q e. cc }

  pub Results-call :
      (f : S → Result A × S) (k : A → Routine (Pool S) B) (p : Pool S)
      → ((a : A) (s : S) → f p.state ≡ (ok a, s) → Ends Q (k a) (record p { state = s }))
      → Ends Q (call f >>= k) p
  unfolding call ◌>>=◌ after
  Results-call f k p h = record { at = λ b q e. over (f p.state) refl e }
    where
      over :
          {b : B} {q : Pool S} (r : Result A × S)
          → f p.state ≡ r
          → after r.0 k (record p { state = r.1 }) ≡ (ok b, q)
          → Q b q
      over (ok a, s) d e = (h a s d).at _ _ e
      over (err x, s) d e = cc

  module _ (f : Time → S → Result (A × S)) (p : Pool S) where
    attempt-Onward :
        (k : A → Routine (Pool S) B)
        → Onward Q f p k
        → (fs : List Bool) (r : Result (A × S)) {b : B} {q : Pool S} → f p.now p.state ≡ r
        → after (attempt fs r p).0 k (attempt fs r p).1 ≡ (ok b, q)
        → Q b q
    unfolding attempt settle after
    attempt-Onward k h [] (ok (a, s)) d e = (h a s p.faults d).at _ _ e
    attempt-Onward k h [] (err x) d e = cc
    attempt-Onward k h (false ∷ fs) (ok (a, s)) d e = (h a s fs d).at _ _ e
    attempt-Onward k h (false ∷ fs) (err x) d e = cc
    attempt-Onward k h (true ∷ fs) r d e = cc

    pub Results-statement :
        (k : A → Routine (Pool S) B) → Onward Q f p k → Ends Q (statement f >>= k) p
    unfolding statement ◌>>=◌
    Results-statement k h = record {
      at = λ b q e. attempt-Onward k h p.faults (f p.now p.state) refl e;
    }

    attempt-fail_as :
        (x : Error) (k : A → Routine (Pool S) B)
        → Onward Q f p k
        → (fs : List Bool) (r : Result (A × S)) {b : B} {q : Pool S} → f p.now p.state ≡ r
        → after
            (settle_as x (attempt fs r p).0 (attempt fs r p).1).0
            k
            (settle_as x (attempt fs r p).0 (attempt fs r p).1).1
          ≡ (ok b, q)
        → Q b q
    unfolding attempt settle after settle_as
    attempt-fail_as x k h [] (ok (a, s)) d e = (h a s p.faults d).at _ _ e
    attempt-fail_as x k h [] (err y) d e = cc
    attempt-fail_as x k h (false ∷ fs) (ok (a, s)) d e = (h a s fs d).at _ _ e
    attempt-fail_as x k h (false ∷ fs) (err y) d e = cc
    attempt-fail_as x k h (true ∷ fs) r d e = cc

    pub Results-fail_as :
        (x : Error) (k : A → Routine (Pool S) B)
        → Onward Q f p k
        → Ends Q (fail_as x (statement f) >>= k) p
    unfolding statement ◌>>=◌ fail_as try after
    Results-fail_as x k h = record {
      at = λ b q e. attempt-fail_as x k h p.faults (f p.now p.state) refl e;
    }

    attempt-try :
        (k : Result A → Routine (Pool S) B)
        → ((x : Error) (fs : List Bool) → Ends Q (k (err x)) (record p { faults = fs }))
        → Onward Q f p (λ a. k (ok a))
        → (fs : List Bool) (r : Result (A × S)) {b : B} {q : Pool S} → f p.now p.state ≡ r
        → k (attempt fs r p).0 (attempt fs r p).1 ≡ (ok b, q)
        → Q b q
    unfolding attempt settle
    attempt-try k g h [] (ok (a, s)) d e = (h a s p.faults d).at _ _ e
    attempt-try k g h [] (err y) d e = (g y p.faults).at _ _ e
    attempt-try k g h (false ∷ fs) (ok (a, s)) d e = (h a s fs d).at _ _ e
    attempt-try k g h (false ∷ fs) (err y) d e = (g y fs).at _ _ e
    attempt-try k g h (true ∷ fs) r d e = (g db_failure fs).at _ _ e

    pub Results-try :
        (k : Result A → Routine (Pool S) B)
        → ((x : Error) (fs : List Bool) → Ends Q (k (err x)) (record p { faults = fs }))
        → Onward Q f p (λ a. k (ok a))
        → Ends Q (try (statement f) >>= k) p
    unfolding statement ◌>>=◌ try after
    Results-try k g h = record { at = λ b q e. attempt-try k g h p.faults (f p.now p.state) refl e }
