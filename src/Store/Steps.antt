-- ===== src/Store/Steps.antt =====
-- The rules of Routine/Steps.antt, with the one for the clock.
use incident_garden.Store.{World, read_clock}
pub use incident_garden.Routine.Steps.{
  IsPreorder, Step, Step-pure, Step-fail, Step-try, Step-if, Step-fail_if, Step-bind, Step-for_each,
  Step-fold_each, Step-require, Step-fail_as, Step-ignore, routine_rules,
}

module _ {R : World → World → Type 0} where
  pub Step-read_clock : IsPreorder R → Step R read_clock
  unfolding read_clock
  Step-read_clock p = record { at = p.reflexive }

pub ruleset step_rules = (routine_rules, Step-read_clock)
