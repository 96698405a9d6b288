-- ===== src/Identity/Jwt.antt =====
-- internal/identity/jwt/authenticator.go. bcrypt, crypto/rand and the JWT library are the record
-- `Crypto`; hex and base64 are within its random texts.
use incident_garden.Prelude.{
  ℕ, ◌+◌, ◌*◌, ◌/◌, String, Bool, true, false, Option, none, some, ◌==◌, if◌then◌else◌,
}
use incident_garden.Errors.{Result, ok, err, crypto_failure, invalid_token, token_expired}
use incident_garden.Domain.{Uuid, Time}
use incident_garden.Routine.{Routine, pure, require, ◌>>=◌, ◌>>◌}
use incident_garden.Pool.{Pool, statement, call, pool_clock}
use incident_garden.Identity.Users.{Role, User, StoredToken, Accounts}
use incident_garden.Identity.Repository.{insert_refresh_token}

-- `jwt.RegisteredClaims` is within `subject`, `issued_at` and `expires_at`.
pub record Claims : Type 0 where
  pub subject : Uuid
  pub issued_at : Time
  pub expires_at : Time
  pub user_id : Uuid
  pub role : Role

pub data SigningMethod : Type 0 where
  hmac unsigned asymmetric : SigningMethod

-- What `jwt.ParseWithClaims` makes of a text: the claims with `token.Valid`, or an error.
pub data Parsed : Type 0 where
  claims_of : Claims → Bool → Parsed
  expired malformed : Parsed

-- `hash n` and the texts take the n-th random value that the process draws.
pub record Crypto : Type 0 where
  pub hash : ℕ → String → Option String
  pub matches : String → String → Bool
  pub base64 : ℕ → Option String
  pub hex : ℕ → Option String
  pub sign : SigningMethod → String → Claims → Option String
  pub parse : (SigningMethod → Option String) → Time → String → Parsed

-- `jwt.Config`
pub record JwtConfig : Type 0 where
  pub secret_key : String
  pub access_token_duration : Time
  pub refresh_token_duration : Time

abbrev pub second : Time
second = 1000000000

-- `NewAuthenticator`
unfoldable pub new_authenticator : JwtConfig → JwtConfig
new_authenticator c = record c {
  access_token_duration =
      if c.access_token_duration == 0 then 900 * second else c.access_token_duration;
  refresh_token_duration =
      if c.refresh_token_duration == 0 then 604800 * second else c.refresh_token_duration;
}

pub record TokenPair : Type 0 where
  pub access_token : String
  pub refresh_token : String
  pub expires_in : ℕ

-- `jwt.NewNumericDate` truncates to seconds
unfoldable pub numeric_date : Time → Time
numeric_date t = t / second * second

unfoldable pub new_claims : JwtConfig → User → Time → Claims
unfolding numeric_date
new_claims cfg u now = record {
  subject = u.id;
  issued_at = numeric_date now;
  expires_at = numeric_date (now + cfg.access_token_duration);
  user_id = u.id;
  role = u.role;
}

unfoldable pub drawn_or_fail : Option String → Result String
drawn_or_fail none = err crypto_failure
drawn_or_fail (some t) = ok t

-- a read of `crypto/rand`, or a salt
unfoldable pub draw : (ℕ → Option String) → Accounts → Result String × Accounts
unfolding drawn_or_fail
draw f s = (drawn_or_fail (f s.drawn), record s { drawn = s.drawn + 1 })

abbrev pub AccountRoutine : Type 0 → Type 0
AccountRoutine = Routine (Pool Accounts)

abbrev pub new_refresh_token : JwtConfig → User → String → Time → StoredToken
new_refresh_token cfg u text now = record {
  id = 0;
  user_id = u.id;
  token = text;
  expires_at = now + cfg.refresh_token_duration;
  created_at = now;
}

-- the function that `ValidateAccessToken` gives to the parser
unfoldable pub key_function : JwtConfig → SigningMethod → Option String
key_function cfg hmac = some cfg.secret_key
key_function cfg _ = none

unfoldable pub validated : Parsed → Result (Uuid × Role)
validated expired = err token_expired
validated malformed = err invalid_token
validated (claims_of c true) = ok (c.user_id, c.role)
validated (claims_of c false) = err invalid_token

module _ (crypto : Crypto) (cfg : JwtConfig) where
  -- `GenerateTokens`
  unfoldable pub generate_tokens : User → AccountRoutine TokenPair
  unfolding draw insert_refresh_token
  generate_tokens u = do
    now ← pool_clock
    access ← require (crypto.sign hmac cfg.secret_key (new_claims cfg u now)) crypto_failure
    refresh ← call (draw crypto.base64)
    statement (insert_refresh_token (new_refresh_token cfg u refresh now))
    pure (record {
      access_token = access;
      refresh_token = refresh;
      expires_in = cfg.access_token_duration / second;
    })

  -- `ValidateAccessToken`
  unfoldable pub validate_access_token : Time → String → Result (Uuid × Role)
  unfolding validated key_function
  validate_access_token now text = validated (crypto.parse (key_function cfg) now text)
