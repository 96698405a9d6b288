-- ===== src/Pool.antt =====
-- A database pool for the packages whose statements each commit at once (identity, notifications).
-- `state` holds the package's tables and what it has sent outside. `faults` lists, for the statements
-- to come, which of them the server refuses; those past its end are carried out.
pub mod Tables
pub mod Results
pub mod Runs
use incident_garden.Prelude.{Bool, true, false, List, [], ◌∷◌}
use incident_garden.Errors.{Error, Result, ok, err, db_failure}
use incident_garden.Domain.{Time}
use incident_garden.Routine.{Routine}

pub record Pool (S : Type 0) : Type 0 where
  pub state : S
  pub faults : List Bool
  pub now : Time

module _ {S A : Type 0} where
  settle : Result (A × S) → Routine (Pool S) A
  settle (ok (a, s)) p = (ok a, record p { state = s })
  settle (err e) p = (err e, p)

  attempt : List Bool → Result (A × S) → Routine (Pool S) A
  unfolding settle
  attempt [] r p = settle r p
  attempt (false ∷ fs) r p = settle r (record p { faults = fs })
  attempt (true ∷ fs) r p = (err db_failure, record p { faults = fs })

  -- One statement: the rows that it returns with the state after it, or an error. `NOW()` is given.
  unfoldable pub statement : (Time → S → Result (A × S)) → Routine (Pool S) A
  unfolding attempt
  statement f p = attempt p.faults (f p.now p.state) p

  -- A call of something else than the database.
  unfoldable pub call : (S → Result A × S) → Routine (Pool S) A
  call f p = let (r, s) = f p.state in (r, record p { state = s })

-- `time.Now()`: one operation reads one time.
unfoldable pub pool_clock : {S : Type 0} → Routine (Pool S) Time
pool_clock p = (ok p.now, p)
