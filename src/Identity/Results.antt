-- ===== src/Identity/Results.antt =====
-- What an operation on the accounts has established, for the statements of the repository: a query
-- for one row, a statement that cannot fail where it is carried out, a random value.
use incident_garden.Prelude.{
  ℕ, ◌+◌, String, ◌≡◌, sym, ◌∙◌, inl, inr, Bool, Option, none, some, List, arith, Option-cases,
}
use mathlib.Core.Path.{subst}
use incident_garden.Errors.{Error, Result, ok}
use incident_garden.Domain.{Time}
use incident_garden.Routine.{Routine, ◌>>=◌, fail_as}
use incident_garden.Routine.Ends.{Ends}
use incident_garden.Pool.{Pool, statement, call}
use incident_garden.Pool.Results.{Results-call, Results-statement, Results-fail_as}
use incident_garden.Identity.Users.{Accounts}
use incident_garden.Identity.Repository.{one_row}
use incident_garden.Identity.Jwt.{draw, drawn_or_fail}

pub one_row-eq-ok :
    {A : Type 0} (o : Option A) (e : Error) (s : Accounts) {a : A} {s' : Accounts}
    → one_row o e s ≡ ok (a, s')
    → (o ≡ some a) × (s' ≡ s)
one_row-eq-ok none e s h = cc
one_row-eq-ok (some b) e s h = (ground (arith, h), ground (arith, h))

pub draw-eq-ok :
    (f : ℕ → Option String) (s : Accounts) {r : String} {s' : Accounts}
    → draw f s ≡ (ok r, s')
    → (f s.drawn ≡ some r) × (s' ≡ record s { drawn = s.drawn + 1 })
unfolding draw drawn_or_fail
draw-eq-ok f s h = elim (Option-cases (f s.drawn)) [
  | inl nothing ↦ ground (arith, nothing, h)
  | inr (t, something) ↦ (ground (arith, something, h), ground (arith, something, h))
]

-- What an operation does whether it returns or fails is no matter where it is not read.
pub Ends-any : {S A : Type 0} (m : Routine S A) (p : S) → Ends (λ _ _. Unit {0}) m p
Ends-any m p = record { at = λ a q e. tt }

module _ {A B : Type 0} {Q : B → Pool Accounts → Type 0} where
  Ends-at :
      (k : A → Routine (Pool Accounts) B) (p : Pool Accounts) (o : Option A) (x : Error)
      (r : Result (A × Accounts))
      → r ≡ one_row o x p.state
      → ((a : A) (fs : List Bool) → o ≡ some a → Ends Q (k a) (record p { faults = fs }))
      → (a : A) (s : Accounts) (fs : List Bool) → r ≡ ok (a, s)
      → Ends Q (k a) (record p { state = s; faults = fs })
  Ends-at k p o x r e h a s fs made =
      let (found, same) = one_row-eq-ok o x p.state (sym e ∙ made) in
      subst (λ t. Ends Q (k a) (record p { state = t; faults = fs })) (sym same) (h a fs found)

  pub Results-row :
      (f : Time → Accounts → Result (A × Accounts)) (o : Option A) (x : Error) (p : Pool Accounts)
      (k : A → Routine (Pool Accounts) B)
      → f p.now p.state ≡ one_row o x p.state
      → ((a : A) (fs : List Bool) → o ≡ some a → Ends Q (k a) (record p { faults = fs }))
      → Ends Q (statement f >>= k) p
  Results-row f o x p k e h = Results-statement f p k (Ends-at k p o x (f p.now p.state) e h)

  pub Results-row_as :
      (f : Time → Accounts → Result (A × Accounts)) (o : Option A) (x : Error) (p : Pool Accounts)
      (y : Error) (k : A → Routine (Pool Accounts) B)
      → f p.now p.state ≡ one_row o x p.state
      → ((a : A) (fs : List Bool) → o ≡ some a → Ends Q (k a) (record p { faults = fs }))
      → Ends Q (fail_as y (statement f) >>= k) p
  Results-row_as f o x p y k e h = Results-fail_as f p y k (Ends-at k p o x (f p.now p.state) e h)

  pub Results-sure :
      (f : Time → Accounts → Result (A × Accounts)) (a : A) (s : Accounts) (p : Pool Accounts)
      (k : A → Routine (Pool Accounts) B)
      → f p.now p.state ≡ ok (a, s)
      → ((fs : List Bool) → Ends Q (k a) (record p { state = s; faults = fs }))
      → Ends Q (statement f >>= k) p
  Results-sure f a s p k e h = Results-statement f p k λ b t fs made.
      let same : ◌≡◌ {A = A × Accounts} (a, s) (b, t) = ground (arith, e, made) in
      subst (λ (r : A × Accounts). Ends Q (k r.0) (record p { state = r.1; faults = fs })) same
        (h fs)

module _ {B : Type 0} {Q : B → Pool Accounts → Type 0} where
  pub Results-draw :
      (f : ℕ → Option String) (k : String → Routine (Pool Accounts) B) (p : Pool Accounts)
      → ((r : String)
          → f p.state.drawn ≡ some r
          → Ends Q (k r) (record p { state = record p.state { drawn = p.state.drawn + 1 } }))
      → Ends Q (call (draw f) >>= k) p
  Results-draw f k p h = Results-call (draw f) k p λ r s made.
      let (drawn, same) = draw-eq-ok f p.state made in
      subst (λ t. Ends Q (k r) (record p { state = t })) (sym same) (h r drawn)
