-- ===== src/Identity/Reset/Cleared.antt =====
-- The row of a user when its flag `must_change_password` has been cleared.
use incident_garden.Prelude.{
  ◌≡◌, refl, inl, inr, true, false, some, [], any, find_first, update_where, Bool-cases,
}
use incident_garden.Prelude.Rows.{any_of_find, find_first-update, All-find_first}
use incident_garden.Errors.{ok}
use incident_garden.Domain.{Time}
use incident_garden.Routine.{pure}
use incident_garden.Pool.{Pool}
use incident_garden.Pool.Runs.{ignore_ends}
use incident_garden.Identity.Users.{User, Accounts, is_valid_role}
use incident_garden.Identity.Repository.{is_user, set_user, email_taken, update_user}
use incident_garden.Identity.Service.{clear_must_change}
use incident_garden.Identity.Sound.{Sound}
use incident_garden.Identity.Rows.{email_taken_self}

-- The state once the flag is cleared: the row of the user is as it was but for it.
pub record Cleared (u : User) (s s' : Accounts) : Type 0 where
  pub row : User
  pub found : find_first (is_user u.id) s'.users ≡ some row
  pub same_hash : row.password_hash ≡ u.password_hash
  pub same_email : row.email ≡ u.email
  pub same_active : row.is_active ≡ u.is_active
  pub cleared : row.must_change_password ≡ false
  pub others : s' ≡ record s { users = s'.users }

update_user-eq :
    (u : User) (now : Time) (s : Accounts)
    → any (is_user u.id) s.users ≡ true
    → email_taken u s.users ≡ false
    → is_valid_role u.role ≡ true
    → update_user u now s
      ≡ ok (
        record u { updated_at = now },
        record s { users = update_where (is_user u.id) (set_user u now) s.users },
      )
unfolding update_user
update_user-eq u now s h k r = rw (h, k, r) refl

module _ (u : User) (p : Pool Accounts) (served : p.faults ≡ []) (sound : Sound p.state)
    (found : find_first (is_user u.id) p.state.users ≡ some u) where
  pub clear_must_change_runs :
      (s : Accounts) × (clear_must_change u p ≡ (ok tt, record p { state = s }))
      × Cleared u p.state s
  unfolding clear_must_change pure
  clear_must_change_runs = elim (Bool-cases u.must_change_password) [
    | inl must ↦
        let v = record u { must_change_password = false } in
        (
          record p.state { users = update_where (is_user u.id) (set_user v p.now) p.state.users },
          rw must (
              ignore_ends (update_user v) p served (record v { updated_at = p.now }) _
                (update_user-eq v p.now p.state (any_of_find (is_user u.id) p.state.users found)
                  (email_taken_self u p.state.users sound.emails found)
                  (All-find_first (λ w. is_valid_role w.role ≡ true) (is_user u.id) p.state.users
                    sound.roles found).0)),
          record {
            row = set_user v p.now u;
            found =
                find_first-update (is_user u.id) (set_user v p.now) p.state.users (λ y h. h) found;
            same_hash = refl;
            same_email = refl;
            same_active = refl;
            cleared = refl;
            others = refl;
          },
        )
    | inr free ↦ (
      p.state,
      rw free refl,
      record {
        row = u;
        found = found;
        same_hash = refl;
        same_email = refl;
        same_active = refl;
        cleared = free;
        others = refl;
      },
    )
  ]
