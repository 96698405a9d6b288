-- ===== src/Pool/Tables.antt =====
-- What statements on a pool do to the state, whether they are carried out or not, and what those
-- that are carried out have established.
use incident_garden.Prelude.{◌≡◌, refl, Bool, true, false, List, [], ◌∷◌, arith}
use mathlib.Core.Path.{subst}
use incident_garden.Errors.{Result, ok, err}
use incident_garden.Domain.{Time}
use incident_garden.Routine.Steps.{IsPreorder, Step, routine_rules}
use incident_garden.Routine.Ends.{Ends}
use incident_garden.Pool.{Pool, settle, attempt, statement, call, pool_clock}

pub record OnState {S : Type 0} (R : S → S → Type 0) (p p' : Pool S) : Type 0 where
  pub related : R p.state p'.state
  pub same_time : p'.now ≡ p.now

-- The state before and after each statement that is carried out.
pub record StateStep {S A : Type 0} (R : S → S → Type 0) (f : Time → S → Result (A × S))
    : Type 0 where
  pub at : (now : Time) (s s' : S) (a : A) → f now s ≡ ok (a, s') → R s s'

pub record CallStep {S A : Type 0} (R : S → S → Type 0) (f : S → Result A × S) : Type 0 where
  pub at : (s : S) → R s (f s).1

-- What holds of the value and the state of a result that is no error.
abbrev pub OkHolds : {A S : Type 0} → (A → S → Type 0) → Result (A × S) → Type 0
OkHolds P (ok (a, s)) = P a s
OkHolds P (err e) = Unit

pub StateStep-of :
    {S A : Type 0} {R : S → S → Type 0} {f : Time → S → Result (A × S)}
    → ((now : Time) (s : S) → OkHolds (λ _ s'. R s s') (f now s))
    → StateStep R f
StateStep-of {R} h = record { at = λ now s s' a e. subst (OkHolds (λ _ t. R s t)) e (h now s) }

module _ {S : Type 0} {R : S → S → Type 0} where
  pub OnState-IsPreorder : IsPreorder R → IsPreorder (OnState R)
  OnState-IsPreorder q = record {
    reflexive = λ p. record { related = q.reflexive p.state; same_time = refl };
    transitive = λ u v w h k. record {
      related = q.transitive u.state v.state w.state h.related k.related;
      same_time = ground (arith, h.same_time, k.same_time);
    };
  }

  pub pool_clock-OnState : IsPreorder R → Step (OnState R) pool_clock
  unfolding pool_clock
  pool_clock-OnState q = record {
    at = λ p. record { related = q.reflexive p.state; same_time = refl };
  }

module _ {S A : Type 0} {R : S → S → Type 0} where
  settle-OnState :
      IsPreorder R
      → (f : Time → S → Result (A × S)) → StateStep R f
      → (r : Result (A × S)) (p : Pool S) → f p.now p.state ≡ r
      → OnState R p (settle r p).1
  unfolding settle
  settle-OnState q f s (ok (a, t)) p e = record {
    related = s.at p.now p.state t a e;
    same_time = refl;
  }
  settle-OnState q f s (err x) p e = record { related = q.reflexive p.state; same_time = refl }

  attempt-OnState :
      IsPreorder R
      → (f : Time → S → Result (A × S)) → StateStep R f
      → (fs : List Bool) (p : Pool S) → OnState R p (attempt fs (f p.now p.state) p).1
  unfolding attempt
  attempt-OnState q f s [] p = settle-OnState q f s (f p.now p.state) p refl
  attempt-OnState q f s (false ∷ fs) p =
      let rest = settle-OnState q f s (f p.now p.state) (record p { faults = fs }) refl in
      record { related = rest.related; same_time = rest.same_time }
  attempt-OnState q f s (true ∷ fs) p = record { related = q.reflexive p.state; same_time = refl }

  pub statement-OnState :
      IsPreorder R
      → (f : Time → S → Result (A × S)) → StateStep R f
      → Step (OnState R) (statement f)
  unfolding statement
  statement-OnState q f s = record { at = λ p. attempt-OnState q f s p.faults p }

  pub call-OnState : (f : S → Result A × S) → CallStep R f → Step (OnState R) (call f)
  unfolding call
  call-OnState f s = record { at = λ p. record { related = s.at p.state; same_time = refl } }

pub ruleset pool_rules = (routine_rules, pool_clock-OnState, statement-OnState, call-OnState)

-- What a statement that is carried out has computed.
pub record Made {S A : Type 0} (f : Time → S → Result (A × S)) (p : Pool S) (a : A) (p' : Pool S)
    : Type 0 where
  pub made : f p.now p.state ≡ ok (a, p'.state)
  pub same_time : p'.now ≡ p.now

module _ {S A : Type 0} where
  settle-Made :
      (f : Time → S → Result (A × S)) (r : Result (A × S)) (p : Pool S) {a : A} {p' : Pool S}
      → f p.now p.state ≡ r
      → settle r p ≡ (ok a, p')
      → Made f p a p'
  unfolding settle
  settle-Made f (ok (b, s)) p e h = record { made = ground (arith, e, h); same_time = ground arith }
  settle-Made f (err x) p e h = cc

  attempt-Made :
      (f : Time → S → Result (A × S)) (fs : List Bool) (p : Pool S) {a : A} {p' : Pool S}
      → attempt fs (f p.now p.state) p ≡ (ok a, p')
      → Made f p a p'
  unfolding attempt
  attempt-Made f [] p h = settle-Made f (f p.now p.state) p refl h
  attempt-Made f (false ∷ fs) p h =
      let m = settle-Made f (f p.now p.state) (record p { faults = fs }) refl h in
      record { made = m.made; same_time = m.same_time }
  attempt-Made f (true ∷ fs) p h = cc

  pub Ends-statement :
      (f : Time → S → Result (A × S)) (p : Pool S) → Ends (Made f p) (statement f) p
  unfolding statement
  Ends-statement f p = record { at = λ a p' e. attempt-Made f p.faults p e }

-- What a call that succeeds has done.
pub record Called {S A : Type 0} (f : S → Result A × S) (p : Pool S) (a : A) (p' : Pool S)
    : Type 0 where
  pub called : f p.state ≡ (ok a, p'.state)
  pub same_time : p'.now ≡ p.now

module _ {S A : Type 0} where
  pub Ends-call : (f : S → Result A × S) (p : Pool S) → Ends (Called f p) (call f) p
  unfolding call
  Ends-call f p = record {
    at = λ a p' e. record { called = ground (arith, e); same_time = ground (arith, e) };
  }

pub Ends-pool_clock : {S : Type 0} (p : Pool S) → Ends (λ t p'. (t ≡ p.now) × (p' ≡ p)) pool_clock p
unfolding pool_clock
Ends-pool_clock p = record { at = λ t p' e. (ground (arith, e), ground (arith, e)) }
