-- ===== src/Identity/Users.antt =====
-- The entities of internal/domain/user.go, and what internal/identity keeps of them.
use incident_garden.Prelude.{ℕ, String, Bool, true, false, List, leb}
use incident_garden.Domain.{Uuid, Time}

pub data Role : Type 0 where
  user operator admin : Role
  other : String → Role

-- `Role.IsValid`
unfoldable pub is_valid_role : Role → Bool
is_valid_role (Role.other s) = false
is_valid_role _ = true

-- the map of `HasPermission`: a missing key reads as zero
unfoldable pub rank : Role → ℕ
rank user = 1
rank operator = 2
rank admin = 3
rank (Role.other s) = 0

-- `Role.HasPermission`
unfoldable pub has_permission : Role → Role → Bool
unfolding rank
has_permission role required = leb (rank required) (rank role)

pub record User : Type 0 where
  pub id : Uuid
  pub email : String
  pub password_hash : String
  pub first_name : String
  pub last_name : String
  pub role : Role
  pub is_active : Bool
  pub must_change_password : Bool
  pub created_at : Time
  pub updated_at : Time

-- `RefreshToken` and `PasswordResetToken`, which have the same fields
pub record StoredToken : Type 0 where
  pub id : Uuid
  pub user_id : Uuid
  pub token : String
  pub expires_at : Time
  pub created_at : Time

-- A call of `SendEmail`.
pub record Mail : Type 0 where
  pub to : String
  pub subject : String
  pub body : String

-- The tables users, refresh_tokens and password_reset_tokens, the counter that identifiers are taken
-- from, how many random values have been drawn, and the calls of `OnUserCreated` and `SendEmail`.
pub record Accounts : Type 0 where
  pub users : List User
  pub refresh_tokens : List StoredToken
  pub reset_tokens : List StoredToken
  pub next_id : Uuid
  pub drawn : ℕ
  pub welcomed : List User
  pub mails : List Mail
