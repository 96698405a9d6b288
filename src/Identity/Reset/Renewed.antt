-- ===== src/Identity/Reset/Renewed.antt =====
-- `ResetPassword` of internal/identity/service.go where the server refuses nothing.
use incident_garden.Prelude.{
  ◌+◌, String, ◌≡◌, refl, sym, ap, ◌∙◌, true, false, not, some, [], arith, any, keep, find_first,
  update_where,
}
use mathlib.Core.Path.{subst}
use incident_garden.Prelude.Rows.{any_of_find, find_first-update}
use incident_garden.Errors.{Result, ok, invalid_reset_token, user_not_found}
use incident_garden.Domain.{Uuid, Time}
use incident_garden.Routine.{ignore, ◌>>◌}
use incident_garden.Pool.{Pool, call, statement}
use incident_garden.Pool.Runs.{
  fail_as_runs, bind_runs, statement_runs, try_runs, ignore_runs, ignore_ends,
}
use incident_garden.Identity.Users.{User, StoredToken, Accounts}
use incident_garden.Identity.Repository.{
  one_row, is_user, is_live_token, belongs_to, set_password, select_reset_token, update_password,
  select_user, delete_user_reset_tokens, delete_user_refresh_tokens,
}
use incident_garden.Identity.Jwt.{Crypto, draw, drawn_or_fail}
use incident_garden.Identity.Service.{hash_password}
use incident_garden.Identity.Reset.{ResetPasswordInput, clear_if_found, reset_password}
use incident_garden.Identity.Sound.{Sound, update_password-Sound}
use incident_garden.Identity.Sound.Statements.{draw-Sound}
use incident_garden.Identity.Sound.Operations.{reset_password-Sound}
use incident_garden.Identity.Rows.{first_is}
use incident_garden.Identity.Reset.Cleared.{Cleared, clear_must_change_runs}

-- A user with a new password: the flag is cleared, and no token of the user is left.
pub record Renewed (u : User) (hash : String) (p q : Pool Accounts) : Type 0 where
  pub row : User
  pub found : find_first (is_user u.id) q.state.users ≡ some row
  pub new_hash : row.password_hash ≡ hash
  pub same_email : row.email ≡ u.email
  pub same_active : row.is_active ≡ u.is_active
  pub cleared : row.must_change_password ≡ false
  pub fewer_reset : q.state.reset_tokens ≡ keep (λ t. not (belongs_to u.id t)) p.state.reset_tokens
  pub fewer_refresh :
      q.state.refresh_tokens ≡ keep (λ t. not (belongs_to u.id t)) p.state.refresh_tokens
  pub drawn : q.state.drawn ≡ p.state.drawn + 1
  pub served : q.faults ≡ []
  pub same_time : q.now ≡ p.now

hash_password_runs :
    (crypto : Crypto) (password hash : String) (p : Pool Accounts)
    → crypto.hash p.state.drawn password ≡ some hash
    → hash_password crypto password p
      ≡ (ok hash, record p { state = record p.state { drawn = p.state.drawn + 1 } })
unfolding hash_password call draw drawn_or_fail
hash_password_runs crypto password hash p h = rw h refl

update_password-eq :
    (i : Uuid) (hash : String) (now : Time) (s : Accounts)
    → any (is_user i) s.users ≡ true
    → update_password i hash now s
      ≡ ok (tt, record s { users = update_where (is_user i) (set_password hash now) s.users })
unfolding update_password
update_password-eq i hash now s h = rw h refl

module _ (crypto : Crypto) (input : ResetPasswordInput) (p : Pool Accounts) (t : StoredToken)
    (u : User) (hash : String) (served : p.faults ≡ []) (sound : Sound p.state)
    (live : find_first (is_live_token input.token p.now) p.state.reset_tokens ≡ some t)
    (owned : find_first (is_user t.user_id) p.state.users ≡ some u)
    (hashed : crypto.hash p.state.drawn input.new_password ≡ some hash) where
  -- The pool once the value has been drawn, and once the password has been set.
  abbrev drawn_pool : Pool Accounts
  drawn_pool = record p { state = record p.state { drawn = p.state.drawn + 1 } }

  abbrev set_state : Accounts
  set_state = record p.state {
    drawn = p.state.drawn + 1;
    users = update_where (is_user t.user_id) (set_password hash p.now) p.state.users;
  }

  abbrev set_pool : Pool Accounts
  set_pool = record p { state = set_state }

  password_set : update_password t.user_id hash p.now drawn_pool.state ≡ ok (tt, set_state)
  password_set =
      update_password-eq t.user_id hash p.now drawn_pool.state
        (any_of_find (is_user t.user_id) p.state.users owned)

  set-Sound : Sound set_state
  unfolding draw
  set-Sound =
      ((update_password-Sound t.user_id hash).at p.now drawn_pool.state set_state tt
          password_set).keeps
        (((draw-Sound (λ n. crypto.hash n input.new_password)).at p.state).keeps sound)

  set_found : find_first (is_user t.user_id) set_state.users ≡ some (set_password hash p.now u)
  set_found =
      find_first-update (is_user t.user_id) (set_password hash p.now) p.state.users (λ y h. h) owned

  owner_id : u.id ≡ t.user_id
  owner_id = first_is t.user_id p.state.users owned

  cleared :
      (s : Accounts) × (clear_if_found (ok (set_password hash p.now u)) set_pool
        ≡ (ok tt, record set_pool { state = s }))
      × Cleared (set_password hash p.now u) set_state s
  unfolding clear_if_found
  cleared = clear_must_change_runs (set_password hash p.now u) set_pool served set-Sound (
      subst (λ i. find_first (is_user i) set_state.users ≡ some (set_password hash p.now u))
        (sym owner_id) set_found)

  -- The state at the end.
  abbrev end_state : Accounts → Accounts
  end_state s = record s {
    reset_tokens = keep (λ r. not (belongs_to t.user_id r)) s.reset_tokens;
    refresh_tokens = keep (λ r. not (belongs_to t.user_id r)) s.refresh_tokens;
  }

  reset_password_ends :
      reset_password crypto input p ≡ (ok tt, record p { state = end_state cleared.0 })
  unfolding reset_password select_reset_token select_user delete_user_reset_tokens
      delete_user_refresh_tokens
  reset_password_ends =
      fail_as_runs (select_reset_token input.token) p served _ _ t p.state
        (ap (λ o. one_row o invalid_reset_token p.state) live)
      ∙ bind_runs (hash_password crypto input.new_password) _ p drawn_pool hash
          (hash_password_runs crypto input.new_password hash p hashed)
      ∙ statement_runs (update_password t.user_id hash) drawn_pool served _ tt set_state
          password_set
      ∙ try_runs (select_user t.user_id) set_pool served
          (λ r.
            clear_if_found r
            >> (ignore (statement (delete_user_reset_tokens t.user_id))
                >> ignore (statement (delete_user_refresh_tokens t.user_id))))
          (set_password hash p.now u) set_state
          (ap (λ o. one_row o user_not_found set_state) set_found)
      ∙ bind_runs (clear_if_found (ok (set_password hash p.now u)))
          (λ _.
            ignore (statement (delete_user_reset_tokens t.user_id))
            >> ignore (statement (delete_user_refresh_tokens t.user_id)))
          set_pool (record p { state = cleared.0 }) tt cleared.1
      ∙ ignore_runs (delete_user_reset_tokens t.user_id) (record p { state = cleared.0 }) served
          (λ _. ignore (statement (delete_user_refresh_tokens t.user_id))) tt _ refl
      ∙ ignore_ends (delete_user_refresh_tokens t.user_id)
          (record p {
            state = record cleared.0 {
              reset_tokens = keep (λ r. not (belongs_to t.user_id r)) cleared.0.reset_tokens;
            };
          })
          served tt _ refl

  ended-Sound : Sound (end_state cleared.0)
  ended-Sound =
      subst (λ (r : Result (Unit {0}) × Pool Accounts). Sound r.1.state) reset_password_ends
        (((reset_password-Sound crypto input).at p).related.keeps sound)

  -- Where the server refuses nothing, a ResetPassword with a token that has not run out returns, and
  -- renews the user.
  pub reset_password_runs :
      (q : Pool Accounts) × (reset_password crypto input p ≡ (ok tt, q))
      × Renewed u hash p q
      × Sound q.state
  reset_password_runs =
      let c = cleared.2 in
      (
        record p { state = end_state cleared.0 },
        reset_password_ends,
        record {
          row = c.row;
          found = c.found;
          new_hash = c.same_hash;
          same_email = c.same_email;
          same_active = c.same_active;
          cleared = c.cleared;
          fewer_reset = ground (arith, c.others, owner_id);
          fewer_refresh = ground (arith, c.others, owner_id);
          drawn = ap (λ (x : Accounts). x.drawn) c.others;
          served = served;
          same_time = refl;
        },
        ended-Sound,
      )
