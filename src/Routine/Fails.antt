-- ===== src/Routine/Fails.antt =====
-- Routines that fail with a given error.
use incident_garden.Prelude.{◌≡◌, refl, Bool, true}
use incident_garden.Errors.{Error, err}
use incident_garden.Routine.{Routine, fail_if, ◌>>=◌, after}
use incident_garden.Routine.Returns.{Returns}

module _ {S A B : Type 0} where
  pub fail-bind :
      (m : Routine S A) (f : A → Routine S B) {w u : S} {x : Error}
      → m w ≡ (err x, u)
      → (m >>= f) w ≡ (err x, u)
  unfolding ◌>>=◌ after
  fail-bind m f h = rw h refl

  -- The first routine returns, and the rest fails.
  pub fail-after :
      {P : A → S → Type 0} (m : Routine S A) (f : A → Routine S B) {w u : S} {x : Error}
      → (r : Returns P m w) → f r.value r.after_it ≡ (err x, u)
      → (m >>= f) w ≡ (err x, u)
  unfolding ◌>>=◌ after
  fail-after m f r h = rw r.runs h

pub fail_if-true :
    {S : Type 0} (b : Bool) (x : Error) (w : S) → b ≡ true → fail_if b x w ≡ (err x, w)
unfolding fail_if
fail_if-true b x w h = rw h refl
