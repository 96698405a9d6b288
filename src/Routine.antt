-- ===== src/Routine.antt =====
-- Operations on a state that return a value or an error: the constructs of Go that the services are
-- written in, whatever the state is.
pub mod Steps
pub mod Ends
pub mod Returns
pub mod Fails
use incident_garden.Prelude.{Bool, Option, none, some, List, [], ◌∷◌, if◌then◌else◌}
use incident_garden.Errors.{Error, Result, ok, err}

abbrev pub Routine : Type 0 → Type 0 → Type 0
Routine S A = S → Result A × S

module _ {S A : Type 0} where
  unfoldable pub pure : A → Routine S A
  pure a w = (ok a, w)

  unfoldable pub fail : Error → Routine S A
  fail e w = (err e, w)

unfoldable pub after : {S A B : Type 0} → Result A → (A → Routine S B) → Routine S B
after (ok a) f w = f a w
after (err e) f w = (err e, w)

infixl 5 ◌>>=◌ ◌>>◌
unfoldable pub ◌>>=◌ : {S A B : Type 0} → Routine S A → (A → Routine S B) → Routine S B
unfolding after
◌>>=◌ m f w = let (r, w') = m w in after r f w'

abbrev pub ◌>>◌ : {S A B : Type 0} → Routine S A → Routine S B → Routine S B
m >> k = m >>= λ _. k

-- A loop over a slice whose body may return an error.
unfoldable pub for_each :
    {S A : Type 0} → (A → Routine S (Unit {0})) → List A → Routine S (Unit {0})
unfolding pure ◌>>=◌
for_each f [] = pure tt
for_each f (x ∷ xs) = f x >> for_each f xs

-- The same with a variable that the body changes.
unfoldable pub fold_each : {S A B : Type 0} → (B → A → Routine S B) → List A → B → Routine S B
unfolding pure ◌>>=◌
fold_each f [] b = pure b
fold_each f (x ∷ xs) b = f b x >>= λ c. fold_each f xs c

-- `if c { return e }`
unfoldable pub fail_if : {S : Type 0} → Bool → Error → Routine S (Unit {0})
fail_if c e w = (if c then err e else ok tt, w)

-- `if err := m; err != nil { … }` with the error kept: the routine does not fail.
unfoldable pub try : {S A : Type 0} → Routine S A → Routine S (Result A)
try m w = let (r, w') = m w in (ok r, w')

-- `defer`
unfoldable pub finally : {S A : Type 0} → Routine S A → (S → S) → Routine S A
finally m g w = let (r, w') = m w in (r, g w')

-- A value that may be missing.
unfoldable pub require : {S A : Type 0} → Option A → Error → Routine S A
require none e w = (err e, w)
require (some a) e w = (ok a, w)

unfoldable pub settle_as : {S A : Type 0} → Error → Result A → Routine S A
settle_as e (ok a) w = (ok a, w)
settle_as e (err x) w = (err e, w)

-- `if err := m; err != nil { return e }`: the error of `m` is replaced.
unfoldable pub fail_as : {S A : Type 0} → Error → Routine S A → Routine S A
unfolding try settle_as ◌>>=◌
fail_as e m = try m >>= settle_as e

-- `if err := m; err != nil { slog.Warn(…) }`, or `_ = m`
unfoldable pub ignore : {S A : Type 0} → Routine S A → Routine S (Unit {0})
unfolding try pure ◌>>=◌
ignore m = try m >> pure tt
