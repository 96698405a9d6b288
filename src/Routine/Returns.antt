-- ===== src/Routine/Returns.antt =====
-- Routines that return: what it takes, and what holds afterwards.
use incident_garden.Prelude.{◌≡◌, refl, Bool, true, false, if◌then◌else◌}
use incident_garden.Errors.{Error, ok}
use incident_garden.Routine.{Routine, pure, fail_if, try, ◌>>=◌, after}

-- The routine returns, and something holds of its value and of the world after it.
pub record Returns {S A : Type 0} (P : A → S → Type 0) (m : Routine S A) (w : S) : Type 0 where
  pub value : A
  pub after_it : S
  pub runs : m w ≡ (ok value, after_it)
  pub holds : P value after_it

module _ {S A B : Type 0} where
  pub Returns-bind :
      {P : A → S → Type 0} {Q : B → S → Type 0} (m : Routine S A) (f : A → Routine S B) (w : S)
      → Returns P m w
      → ((a : A) (w' : S) → P a w' → Returns Q (f a) w')
      → Returns Q (m >>= f) w
  unfolding ◌>>=◌ after
  Returns-bind m f w h k =
      let rest = k h.value h.after_it h.holds in
      record {
        value = rest.value;
        after_it = rest.after_it;
        runs = rw h.runs rest.runs;
        holds = rest.holds;
      }

module _ {S A : Type 0} where
  pub Returns-pure : {P : A → S → Type 0} (a : A) (w : S) → P a w → Returns P (pure a) w
  unfolding pure
  Returns-pure a w h = record { value = a; after_it = w; runs = refl; holds = h }

  pub Returns-weaken :
      {P Q : A → S → Type 0} {m : Routine S A} {w : S}
      → Returns P m w
      → ((a : A) (w' : S) → P a w' → Q a w')
      → Returns Q m w
  Returns-weaken h k = record {
    value = h.value;
    after_it = h.after_it;
    runs = h.runs;
    holds = k h.value h.after_it h.holds;
  }

  pub Returns-try :
      {P : A → S → Type 0} (m : Routine S A) (w : S)
      → Returns P m w
      → Returns (λ r u. (a : A) × (r ≡ ok a) × P a u) (try m) w
  unfolding try
  Returns-try m w h = record {
    value = ok h.value;
    after_it = h.after_it;
    runs = rw h.runs refl;
    holds = (h.value, refl, h.holds);
  }

pub Returns-fail_if :
    {S : Type 0} (b : Bool) (e : Error) (w : S) → b ≡ false → Returns (λ _ u. u ≡ w) (fail_if b e) w
unfolding fail_if
Returns-fail_if b e w h = record { value = tt; after_it = w; runs = rw h refl; holds = refl }

pub Returns-if :
    {S A : Type 0} {P : A → S → Type 0} (b : Bool) (m n : Routine S A) (w : S)
    → (b ≡ true → Returns P m w)
    → (b ≡ false → Returns P n w)
    → Returns P (if b then m else n) w
Returns-if true m n w hm hn = hm refl
Returns-if false m n w hm hn = hn refl
