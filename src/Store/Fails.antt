-- ===== src/Store/Fails.antt =====
-- Actions that fail with a given error.
use incident_garden.Prelude.{◌≡◌, refl}
pub use incident_garden.Routine.Fails.{fail-bind, fail-after, fail_if-true}
use incident_garden.Store.{
  Error, err, Db, World, Reply, no_rows, on_pool, attempt_pool, settle_pool,
}
use incident_garden.Store.Returns.{Calm}

pub fail-on_pool :
    {A : Type 0} (f : Db → Reply A) (w : World) (x : Error)
    → Calm w
    → f w.db ≡ no_rows x
    → on_pool f w ≡ (err x, w)
unfolding on_pool attempt_pool settle_pool
fail-on_pool f w x c h = rw (c.served, h) refl
