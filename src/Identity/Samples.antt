-- ===== src/Identity/Samples.antt =====
-- Two accounts and a toy provider of hashes and tokens, for the tests.
use incident_garden.Prelude.{
  ℕ, ◌*◌, String, Bool, true, false, ◌&&◌, none, some, [], ◌∷◌, ◌==◌, ltb, str_eq, if◌then◌else◌,
}
use incident_garden.Pool.{Pool}
use incident_garden.Identity.Users.{Role, User, StoredToken, Accounts, operator, admin}
use incident_garden.Identity.Jwt.{Claims, Crypto, JwtConfig, claims_of, expired, malformed, second}
use incident_garden.Identity.Service.{IdentityService}

abbrev pub alice : User
alice = record {
  id = 1;
  email = "alice@x.org";
  password_hash = "secret";
  first_name = "Alice";
  last_name = "A";
  role = operator;
  is_active = true;
  must_change_password = true;
  created_at = 10;
  updated_at = 10;
}

abbrev pub bob : User
bob = record {
  id = 2;
  email = "bob@x.org";
  password_hash = "hunter2";
  first_name = "Bob";
  last_name = "B";
  role = admin;
  is_active = true;
  must_change_password = false;
  created_at = 20;
  updated_at = 20;
}

abbrev pub session_token : StoredToken
session_token = record {
  id = 3;
  user_id = 1;
  token = "session";
  expires_at = 900000 * second;
  created_at = 50;
}

abbrev pub reset_token : StoredToken
reset_token = record {
  id = 4;
  user_id = 1;
  token = "forgot";
  expires_at = 900000 * second;
  created_at = 60;
}

abbrev pub accounts : Accounts
accounts = record {
  users = alice ∷ bob ∷ [];
  refresh_tokens = session_token ∷ [];
  reset_tokens = reset_token ∷ [];
  next_id = 5;
  drawn = 0;
  welcomed = [];
  mails = [];
}

abbrev pub pool : Pool Accounts
pool = record { state = accounts; faults = []; now = 1000 * second }

abbrev pub config : JwtConfig
config = record {
  secret_key = "key";
  access_token_duration = 900 * second;
  refresh_token_duration = 604800 * second;
}

abbrev pub service : IdentityService
service = record {
  jwt = config;
  has_user_created_handler = true;
  has_email_sender = true;
  frontend_url = "https://status.x.org";
}

abbrev pub toy_text : ℕ → String
toy_text n = if n == 0 then "text0" else "text1"

-- The hash of a password is the password, and every text has the same signature.
abbrev pub toy : Crypto
toy = record {
  hash = λ n password. some password;
  matches = λ hash password. str_eq hash password;
  base64 = λ n. some (toy_text n);
  hex = λ n. some (toy_text n);
  sign = λ m key c. some "signed";
  parse = λ keys now text. malformed;
}

-- The claims that a sign-in of Alice at the sample's time has.
abbrev pub alice_claims : Claims
alice_claims = record {
  subject = 1;
  issued_at = 1000 * second;
  expires_at = 1900 * second;
  user_id = 1;
  role = operator;
}

abbrev is_operator : Role → Bool
is_operator operator = true
is_operator _ = false

abbrev pub same_claims : Claims → Bool
same_claims c =
    c.subject == 1
    && (c.issued_at == 1000 * second
        && (c.expires_at == 1900 * second && (c.user_id == 1 && is_operator c.role)))

-- A provider that signs only those claims, and knows them again.
abbrev pub picky : Crypto
picky = record {
  hash = λ n password. some password;
  matches = λ hash password. str_eq hash password;
  base64 = λ n. some (toy_text n);
  hex = λ n. some (toy_text n);
  sign = λ m key c. if same_claims c then some "signed" else none;
  parse = λ keys now text. if ltb now (1900 * second) then claims_of alice_claims true else expired;
}
