-- ===== src/Routine/Ends.antt =====
-- What a routine that returns has established.
use mathlib.Core.Path.{subst}
use incident_garden.Prelude.{◌≡◌, refl, sym, ap, Bool, true, false, arith, if◌then◌else◌}
use incident_garden.Errors.{Error, Result, ok, err}
use incident_garden.Routine.{Routine, pure, fail, fail_if, ◌>>=◌, after}
use incident_garden.Routine.Steps.{Step}

-- What holds where a routine returns.
pub record Ends {S A : Type 0} (P : A → S → Type 0) (m : Routine S A) (w : S) : Type 0 where
  pub at : (a : A) (w' : S) → m w ≡ (ok a, w') → P a w'

module _ {S A B : Type 0} where
  after-eq-ok :
      (r : Result A) (w : S) (f : A → Routine S B) {b : B} {w' : S}
      → after r f w ≡ (ok b, w')
      → (a : A) × (r ≡ ok a) × (f a w ≡ (ok b, w'))
  unfolding after
  after-eq-ok (ok a) w f h = (a, refl, h)
  after-eq-ok (err e) w f h = cc

  pub Ends-bind :
      {P : A → S → Type 0} {Q : B → S → Type 0} (m : Routine S A) (f : A → Routine S B) (w : S)
      → Ends P m w
      → ((a : A) (w' : S) → P a w' → Ends Q (f a) w')
      → Ends Q (m >>= f) w
  unfolding ◌>>=◌
  Ends-bind m f w h k = record {
    at = λ b w' e.
        let (a, r, rest) = after-eq-ok (m w).0 (m w).1 f e in
        (k a (m w).1 (h.at a (m w).1 (ground (arith, r)))).at b w' rest;
  }

module _ {S A : Type 0} where
  -- What it does whether it returns or fails, it has done where it returns.
  pub Ends-Step :
      {R : S → S → Type 0} (m : Routine S A) (w : S) → Step R m → Ends (λ a w'. R w w') m w
  Ends-Step {R} m w s = record { at = λ a w' e. subst (λ x. R w x.1) e (s.at w) }

  abbrev Holds : (A → S → Type 0) → Result A × S → Type 0
  Holds P (ok a, w) = P a w
  Holds P (err e, w) = Unit

  pub Ends-pure : {P : A → S → Type 0} (a : A) (w : S) → P a w → Ends P (pure a) w
  unfolding pure
  Ends-pure {P} a w h = record { at = λ b w' e. subst (Holds P) e h }

  pub Ends-fail : {P : A → S → Type 0} (x : Error) (w : S) → Ends P (fail x) w
  unfolding fail
  Ends-fail x w = record { at = λ b w' e. cc }

  pub Ends-weaken :
      {P Q : A → S → Type 0} {m : Routine S A} {w : S}
      → Ends P m w
      → ((a : A) (w' : S) → P a w' → Q a w')
      → Ends Q m w
  Ends-weaken h k = record { at = λ a w' e. k a w' (h.at a w' e) }

pub Ends-if :
    {S A : Type 0} {P : A → S → Type 0} (b : Bool) (m n : Routine S A) (w : S)
    → (b ≡ true → Ends P m w)
    → (b ≡ false → Ends P n w)
    → Ends P (if b then m else n) w
Ends-if true m n w hm hn = hm refl
Ends-if false m n w hm hn = hn refl

pub Ends-fail_if :
    {S : Type 0} (b : Bool) (x : Error) (w : S)
    → Ends (λ _ w'. (b ≡ false) × (w' ≡ w)) (fail_if b x) w
unfolding fail_if
Ends-fail_if true x w = record { at = λ a w' e. cc }
Ends-fail_if false x w = record { at = λ a w' e. (refl, ap (λ r. r.1) (sym e)) }

-- Two things that a routine establishes.
pub Ends-both :
    {S A : Type 0} {P Q : A → S → Type 0} {m : Routine S A} {w : S}
    → Ends P m w
    → Ends Q m w
    → Ends (λ a u. P a u × Q a u) m w
Ends-both h k = record { at = λ a w' e. (h.at a w' e, k.at a w' e) }
