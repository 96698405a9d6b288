-- ===== src/Identity/Repository.antt =====
-- The statements of internal/identity/postgres/repository.go, on the tables of
-- migrations/000001, 000002 and 000021 with their constraints. A constraint that is violated is an
-- error with only a message. A value that is too long for its column is one that the server refuses.
use incident_garden.Prelude.{
  ℕ, zero, suc, ◌+◌, String, Bool, true, false, ◌&&◌, not, Option, none, some, List, [], ◌∷◌, leb,
  ltb, ◌==◌, str_eq, if◌then◌else◌, any, keep, find_first, update_where, length,
}
use mathlib.Core.List.{map}
use incident_garden.Errors.{
  Error, Result, ok, err, db_failure, user_not_found, invalid_token, invalid_reset_token,
}
use incident_garden.Domain.{Uuid, Time}
use incident_garden.Identity.Users.{Role, User, StoredToken, Accounts, is_valid_role}

-- `QueryRow` of a SELECT: its row, or the error that stands for `pgx.ErrNoRows`.
abbrev pub one_row : {A : Type 0} → Option A → Error → Accounts → Result (A × Accounts)
one_row none e s = err e
one_row (some a) e s = ok (a, s)

abbrev pub is_user : Uuid → User → Bool
is_user i row = row.id == i

abbrev pub has_email : String → User → Bool
has_email e row = str_eq row.email e

abbrev pub is_token : String → StoredToken → Bool
is_token t row = str_eq row.token t

abbrev pub belongs_to : Uuid → StoredToken → Bool
belongs_to i row = row.user_id == i

abbrev pub as_created : Uuid → Time → User → User
as_created i now u = record u { id = i; created_at = now; updated_at = now }

-- `CreateUser`: UNIQUE (email), CHECK check_role
unfoldable pub insert_user : User → Time → Accounts → Result (User × Accounts)
unfolding is_valid_role
insert_user u now s =
    if not (any (has_email u.email) s.users) && is_valid_role u.role
    then ok (
      as_created s.next_id now u,
      record s { users = as_created s.next_id now u ∷ s.users; next_id = s.next_id + 1 },
    )
    else err db_failure

-- `GetUserByID`
unfoldable pub select_user : Uuid → Time → Accounts → Result (User × Accounts)
select_user i now s = one_row (find_first (is_user i) s.users) user_not_found s

-- `GetUserByEmail`
unfoldable pub select_user_by_email : String → Time → Accounts → Result (User × Accounts)
select_user_by_email e now s = one_row (find_first (has_email e) s.users) user_not_found s

-- the columns that `UpdateUser` sets
abbrev pub set_user : User → Time → User → User
set_user u now row = record row {
  email = u.email;
  first_name = u.first_name;
  last_name = u.last_name;
  role = u.role;
  is_active = u.is_active;
  must_change_password = u.must_change_password;
  updated_at = now;
}

-- another row has the e-mail address
abbrev pub email_taken : User → List User → Bool
email_taken u = any λ r. not (r.id == u.id) && has_email u.email r

-- `UpdateUser`: the user that is returned carries the new `updated_at`
unfoldable pub update_user : User → Time → Accounts → Result (User × Accounts)
unfolding is_valid_role
update_user u now s =
    if any (is_user u.id) s.users
    then if not (email_taken u s.users) && is_valid_role u.role
      then ok (
        record u { updated_at = now },
        record s { users = update_where (is_user u.id) (set_user u now) s.users },
      )
      else err db_failure
    else err user_not_found

abbrev pub set_password : String → Time → User → User
set_password hash now row = record row { password_hash = hash; updated_at = now }

-- `UpdateUserPassword`
unfoldable pub update_password : Uuid → String → Time → Accounts → Result (Unit {0} × Accounts)
update_password i hash now s =
    if any (is_user i) s.users
    then ok (tt, record s { users = update_where (is_user i) (set_password hash now) s.users })
    else err user_not_found

-- `SaveRefreshToken`: UNIQUE (token), REFERENCES users
unfoldable pub insert_refresh_token : StoredToken → Time → Accounts → Result (Unit {0} × Accounts)
insert_refresh_token t now s =
    if not (any (is_token t.token) s.refresh_tokens) && any (is_user t.user_id) s.users
    then ok (
      tt,
      record s {
        refresh_tokens = record t { id = s.next_id } ∷ s.refresh_tokens;
        next_id = s.next_id + 1;
      },
    )
    else err db_failure

-- `token = $1 AND expires_at > NOW()`
abbrev pub is_live_token : String → Time → StoredToken → Bool
is_live_token t now row = is_token t row && ltb now row.expires_at

-- `GetRefreshToken`
unfoldable pub select_refresh_token : String → Time → Accounts → Result (StoredToken × Accounts)
select_refresh_token t now s =
    one_row (find_first (is_live_token t now) s.refresh_tokens) invalid_token s

-- `DeleteRefreshToken`
unfoldable pub delete_refresh_token : String → Time → Accounts → Result (Unit {0} × Accounts)
delete_refresh_token t now s =
    ok (tt, record s { refresh_tokens = keep (λ row. not (is_token t row)) s.refresh_tokens })

-- `DeleteUserRefreshTokens`
unfoldable pub delete_user_refresh_tokens : Uuid → Time → Accounts → Result (Unit {0} × Accounts)
delete_user_refresh_tokens i now s =
    ok (tt, record s { refresh_tokens = keep (λ row. not (belongs_to i row)) s.refresh_tokens })

-- `SavePasswordResetToken`: `created_at` is the server's
unfoldable pub insert_reset_token : StoredToken → Time → Accounts → Result (Unit {0} × Accounts)
insert_reset_token t now s =
    if not (any (is_token t.token) s.reset_tokens) && any (is_user t.user_id) s.users
    then ok (
      tt,
      record s {
        reset_tokens = record t { id = s.next_id; created_at = now } ∷ s.reset_tokens;
        next_id = s.next_id + 1;
      },
    )
    else err db_failure

-- `GetPasswordResetToken`
unfoldable pub select_reset_token : String → Time → Accounts → Result (StoredToken × Accounts)
select_reset_token t now s =
    one_row (find_first (is_live_token t now) s.reset_tokens) invalid_reset_token s

-- ORDER BY created_at DESC LIMIT 1
unfoldable pub latest : List StoredToken → Option StoredToken
latest [] = none
latest (t ∷ ts) = elim (latest ts) [
  | none ↦ some t
  | some u ↦ if ltb t.created_at u.created_at then some u else some t
]

-- `GetLatestPasswordResetToken`: no row is no error
unfoldable pub select_latest_reset_token :
    Uuid → Time → Accounts → Result (Option StoredToken × Accounts)
unfolding latest
select_latest_reset_token i now s = ok (latest (keep (belongs_to i) s.reset_tokens), s)

-- `DeleteUserPasswordResetTokens`
unfoldable pub delete_user_reset_tokens : Uuid → Time → Accounts → Result (Unit {0} × Accounts)
delete_user_reset_tokens i now s =
    ok (tt, record s { reset_tokens = keep (λ row. not (belongs_to i row)) s.reset_tokens })

-- `DeletePasswordResetToken`
unfoldable pub delete_reset_token : String → Time → Accounts → Result (Unit {0} × Accounts)
delete_reset_token t now s =
    ok (tt, record s { reset_tokens = keep (λ row. not (is_token t row)) s.reset_tokens })

pub record UserFilter : Type 0 where
  pub role : Option Role
  pub limit : ℕ
  pub offset : ℕ

role_eq : Role → Role → Bool
role_eq Role.user Role.user = true
role_eq Role.operator Role.operator = true
role_eq Role.admin Role.admin = true
role_eq (Role.other a) (Role.other b) = str_eq a b
role_eq _ _ = false

-- the WHERE clause that `ListUsers` builds
unfoldable pub fits : Option Role → User → Bool
unfolding role_eq
fits none u = true
fits (some r) u = role_eq u.role r

-- ORDER BY created_at DESC
insert_newest : User → List User → List User
insert_newest u [] = u ∷ []
insert_newest u (v ∷ vs) =
    if leb v.created_at u.created_at then u ∷ v ∷ vs else v ∷ insert_newest u vs

unfoldable pub newest_first : List User → List User
unfolding insert_newest
newest_first [] = []
newest_first (u ∷ us) = insert_newest u (newest_first us)

abbrev pub take {ℓ} : {A : Type ℓ} → ℕ → List A → List A
take zero xs = []
take (suc n) [] = []
take (suc n) (x ∷ xs) = x ∷ take n xs

abbrev pub drop {ℓ} : {A : Type ℓ} → ℕ → List A → List A
drop zero xs = xs
drop (suc n) [] = []
drop (suc n) (x ∷ xs) = drop n xs

-- the hash is not among the columns
abbrev pub listed : User → User
listed u = record u { password_hash = "" }

-- `COUNT(*) OVER()` stands on each row of the page: without a row it is not read
abbrev pub total_of : ℕ → List User → ℕ
total_of n [] = 0
total_of n (u ∷ us) = n

-- `ListUsers`
unfoldable pub list_users : UserFilter → Time → Accounts → Result ((List User × ℕ) × Accounts)
unfolding newest_first fits
list_users f now s =
    let found = newest_first (keep (fits f.role) s.users) in
    let page = take f.limit (drop f.offset found) in
    ok ((map listed page, total_of (length found) page), s)
