-- ===== src/Routine/Steps.antt =====
-- Rules for what a routine does to the state, whether it returns or fails: one for each way to
-- build a routine, for any reflexive and transitive relation between the state before and after.
use incident_garden.Prelude.{Bool, true, false, Option, none, some, List, [], ◌∷◌, if◌then◌else◌}
use incident_garden.Errors.{Error, Result, ok, err}
use incident_garden.Routine.{
  Routine, pure, fail, fail_if, try, after, ◌>>=◌, for_each, fold_each, require, settle_as, fail_as,
  ignore,
}

pub record IsPreorder {S : Type 0} (R : S → S → Type 0) : Type 0 where
  pub reflexive : (w : S) → R w w
  pub transitive : (u v w : S) → R u v → R v w → R u w

pub record Step {S A : Type 0} (R : S → S → Type 0) (m : Routine S A) : Type 0 where
  pub at : (w : S) → R w (m w).1

module _ {S : Type 0} {R : S → S → Type 0} {A : Type 0} where
  pub Step-pure : IsPreorder R → (a : A) → Step R (pure a)
  unfolding pure
  Step-pure p a = record { at = p.reflexive }

  pub Step-fail : IsPreorder R → (e : Error) → Step R (fail {A = A} e)
  unfolding fail
  Step-fail p e = record { at = p.reflexive }

  pub Step-try : (m : Routine S A) → Step R m → Step R (try m)
  unfolding try
  Step-try m s = record { at = s.at }

  pub Step-if : (b : Bool) (m n : Routine S A) → Step R m → Step R n → Step R (if b then m else n)
  Step-if true m n sm sn = sm
  Step-if false m n sm sn = sn

module _ {S : Type 0} {R : S → S → Type 0} where
  pub Step-fail_if : IsPreorder R → (b : Bool) (e : Error) → Step R (fail_if b e)
  unfolding fail_if
  Step-fail_if p b e = record { at = p.reflexive }

module _ {S : Type 0} {R : S → S → Type 0} {A B : Type 0} where
  Step-after :
      IsPreorder R
      → (r : Result A) (f : A → Routine S B) → ((a : A) → Step R (f a))
      → Step R (after r f)
  unfolding after
  Step-after p (ok a) f h = record { at = (h a).at }
  Step-after p (err e) f h = record { at = p.reflexive }

  pub Step-bind :
      IsPreorder R
      → (m : Routine S A) (f : A → Routine S B) → Step R m
      → ((a : A) → Step R (f a))
      → Step R (m >>= f)
  unfolding ◌>>=◌
  Step-bind p m f sm sf = record {
    at = λ w.
        let (r, w') = m w in
        p.transitive w w' (after r f w').1 (sm.at w) ((Step-after p r f sf).at w');
  }

module _ {S : Type 0} {R : S → S → Type 0} {A : Type 0} where
  pub Step-for_each :
      IsPreorder R
      → (f : A → Routine S (Unit {0})) (xs : List A) → ((a : A) → Step R (f a))
      → Step R (for_each f xs)
  unfolding for_each
  Step-for_each p f [] h = Step-pure p tt
  Step-for_each p f (x ∷ xs) h =
      Step-bind p (f x) (λ _. for_each f xs) (h x) (λ _. Step-for_each p f xs h)

module _ {S : Type 0} {R : S → S → Type 0} {A B : Type 0} where
  pub Step-fold_each :
      IsPreorder R
      → (f : B → A → Routine S B) (xs : List A) (b : B) → ((c : B) (a : A) → Step R (f c a))
      → Step R (fold_each f xs b)
  unfolding fold_each
  Step-fold_each p f [] b h = Step-pure p b
  Step-fold_each p f (x ∷ xs) b h =
      Step-bind p (f b x) (λ c. fold_each f xs c) (h b x) (λ c. Step-fold_each p f xs c h)

module _ {S A : Type 0} {R : S → S → Type 0} where
  pub Step-require : IsPreorder R → (o : Option A) (e : Error) → Step R (require o e)
  unfolding require
  Step-require p none e = record { at = p.reflexive }
  Step-require p (some a) e = record { at = p.reflexive }

  Step-settle_as : IsPreorder R → (e : Error) (r : Result A) → Step R (settle_as e r)
  unfolding settle_as
  Step-settle_as p e (ok a) = record { at = p.reflexive }
  Step-settle_as p e (err x) = record { at = p.reflexive }

  pub Step-fail_as : IsPreorder R → (e : Error) (m : Routine S A) → Step R m → Step R (fail_as e m)
  unfolding fail_as
  Step-fail_as p e m s = Step-bind p (try m) (settle_as e) (Step-try m s) (Step-settle_as p e)

  pub Step-ignore : IsPreorder R → (m : Routine S A) → Step R m → Step R (ignore m)
  unfolding ignore
  Step-ignore p m s = Step-bind p (try m) (λ _. pure tt) (Step-try m s) (λ _. Step-pure p tt)

pub ruleset routine_rules = (
  Step-pure, Step-fail, Step-try, Step-if, Step-fail_if, Step-bind, Step-for_each, Step-fold_each,
  Step-require, Step-fail_as, Step-ignore,
)
