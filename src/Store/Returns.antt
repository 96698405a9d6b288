-- ===== src/Store/Returns.antt =====
-- Actions that return: the statements and the transaction.
use incident_garden.Prelude.{◌≡◌, refl, ◌+◌, false, []}
pub use incident_garden.Routine.Returns.{
  Returns, Returns-bind, Returns-pure, Returns-weaken, Returns-try, Returns-fail_if, Returns-if,
}
use incident_garden.Store.{
  Db, World, Notice, Action, finally, Reply, rows, in_tx, attempt, settle, on_pool, attempt_pool,
  settle_pool, begin_tx, begin_on, commit, commit_on, rollback, fresh_id, read_clock, notify,
}

-- The server refuses nothing, and the open transaction is alive.
pub record Calm (w : World) : Type 0 where
  pub served : w.faults ≡ []
  pub alive : w.aborted ≡ false

module _ {A : Type 0} where
  pub Returns-in_tx :
      (f : Db → Reply A) (w : World) (a : A) (d : Db)
      → Calm w
      → f w.tx ≡ rows a d
      → Returns (λ b u. (b ≡ a) × (u ≡ record w { tx = d })) (in_tx f) w
  unfolding in_tx attempt settle
  Returns-in_tx f w a d c h = record {
    value = a;
    after_it = record w { tx = d };
    runs = rw (c.alive, c.served, h) refl;
    holds = (refl, refl);
  }

  pub Returns-on_pool :
      (f : Db → Reply A) (w : World) (a : A)
      → Calm w
      → f w.db ≡ rows a w.db
      → Returns (λ b u. (b ≡ a) × (u ≡ w)) (on_pool f) w
  unfolding on_pool attempt_pool settle_pool
  Returns-on_pool f w a c h = record {
    value = a;
    after_it = w;
    runs = rw (c.served, h) refl;
    holds = (refl, refl);
  }

  pub Returns-finally :
      {P : A → World → Type 0} (m : Action A) (w : World)
      → Returns P m w
      → Returns (λ a u. (v : World) × P a v × (u ≡ rollback v)) (finally m rollback) w
  unfolding finally
  Returns-finally m w h = record {
    value = h.value;
    after_it = rollback h.after_it;
    runs = rw h.runs refl;
    holds = (h.after_it, h.holds, refl);
  }

pub Returns-begin_tx :
    (w : World)
    → w.faults ≡ []
    → Returns (λ _ u. u ≡ record w { tx = w.db; aborted = false }) begin_tx w
unfolding begin_tx begin_on
Returns-begin_tx w h = record {
  value = tt;
  after_it = record w { tx = w.db; aborted = false };
  runs = rw h refl;
  holds = refl;
}

pub Returns-commit : (w : World) → Calm w → Returns (λ _ u. u ≡ record w { db = w.tx }) commit w
unfolding commit commit_on
Returns-commit w c = record {
  value = tt;
  after_it = record w { db = w.tx };
  runs = rw (c.alive, c.served) refl;
  holds = refl;
}

pub Returns-fresh_id :
    (w : World) → Calm w → Returns (λ _ u. Calm u × (u.tx ≡ w.tx) × (u.db ≡ w.db)) fresh_id w
unfolding fresh_id
Returns-fresh_id w c = record {
  value = w.next_id;
  after_it = record w { next_id = w.next_id + 1 };
  runs = refl;
  holds = (record { served = c.served; alive = c.alive }, refl, refl);
}

pub Returns-read_clock : (w : World) → Returns (λ _ u. u ≡ w) read_clock w
unfolding read_clock
Returns-read_clock w = record { value = w.now; after_it = w; runs = refl; holds = refl }

pub Returns-notify : (n : Notice) (w : World) → Returns (λ _ u. Unit {0}) (notify n) w
unfolding notify
Returns-notify n w = record { value = tt; after_it = _; runs = refl; holds = tt }
