-- ===== src/Identity/Reset/Login.antt =====
-- A password that was reset opens the account, and the token that reset it is spent.
use incident_garden.Prelude.{
  ℕ, ◌+◌, String, ◌≡◌, refl, sym, ap, ◌∙◌, inl, inr, Bool, true, false, not, none, some, List, [],
  ◌∷◌, arith, str_eq, str_eq_iff, any, keep, find_first, Bool-cases,
}
use mathlib.Core.Path.{subst}
use incident_garden.Prelude.Rows.{any_of_find, any-keep}
use incident_garden.Errors.{ok, err, invalid_reset_token}
use incident_garden.Domain.{Time}
use incident_garden.Pool.{Pool}
use incident_garden.Pool.Runs.{fail_as_fails}
use incident_garden.Identity.Users.{User, StoredToken, Accounts}
use incident_garden.Identity.Repository.{
  one_row, is_user, has_email, is_token, is_live_token, belongs_to, select_reset_token,
}
use incident_garden.Identity.Jwt.{Crypto, Claims, JwtConfig, TokenPair, hmac, new_claims}
use incident_garden.Identity.Issue.{new_pair}
use incident_garden.Identity.Service.{IdentityService, login}
use incident_garden.Identity.SignIn.{login-returns}
use incident_garden.Identity.Reset.{ResetPasswordInput, reset_password}
use incident_garden.Identity.Sound.{Sound, distinct_tokens}
use incident_garden.Identity.Rows.{first_is, find_by_email}
use incident_garden.Identity.Reset.Renewed.{Renewed, reset_password_runs}

-- What the code relies on of bcrypt, crypto/rand and the JWT library: a hash matches its password,
-- HS256 signs any claims, random bytes can be read.
pub record Works (crypto : Crypto) (cfg : JwtConfig) : Type 0 where
  pub matches_own :
      (n : ℕ) (password hash : String)
      → crypto.hash n password ≡ some hash
      → crypto.matches hash password ≡ true
  pub signature : Claims → String
  pub signs : (c : Claims) → crypto.sign hmac cfg.secret_key c ≡ some (signature c)
  pub text : ℕ → String
  pub texts : (n : ℕ) → crypto.base64 n ≡ some (text n)

none_left :
    (token : String) (now : Time) (p : StoredToken → Bool) (ts : List StoredToken)
    → any (is_token token) ts ≡ false
    → find_first (is_live_token token now) (keep p ts) ≡ none
none_left token now p [] h = refl
none_left token now p (t ∷ ts) h = ground (arith, none_left token now p ts, Bool-cases (p t))

any_live :
    (token : String) (now : Time) (ts : List StoredToken) {t : StoredToken}
    → find_first (is_live_token token now) ts ≡ some t
    → any (is_token token) ts ≡ true
any_live token now [] h = cc
any_live token now (r ∷ rs) {t} h = ground (arith, any_live token now rs {t = t})

-- With the tokens of its owner a token is gone, as no other has its text.
spent :
    (token : String) (now later : Time) (ts : List StoredToken) {t : StoredToken}
    → distinct_tokens ts ≡ true
    → find_first (is_live_token token now) ts ≡ some t
    → find_first (is_live_token token later) (keep (λ r. not (belongs_to t.user_id r)) ts) ≡ none
spent token now later [] d h = cc
spent token now later (r ∷ rs) {t} d h = elim (Bool-cases (is_live_token token now r)) [
  | inl hit ↦
      let same : r ≡ t = ground (arith, hit, h) in
      let text : r.token ≡ token = ground (arith, hit, str_eq_iff r.token token) in
      let alone : any (is_token token) rs ≡ false =
        ap (λ x. any (is_token x) rs) (sym text) ∙ ground (arith, d) in
      let owner : belongs_to t.user_id r ≡ true =
        ap (λ (x : StoredToken). belongs_to t.user_id x) same ∙ ground arith in
      rw owner (none_left token later (λ x. not (belongs_to t.user_id x)) rs alone)
  | inr miss ↦
      let found : find_first (is_live_token token now) rs ≡ some t = ground (arith, miss, h) in
      let other : str_eq r.token token ≡ false = ground (
        arith,
        d,
        any_live token now rs found,
        str_eq_iff r.token token,
        ap (λ x. any (is_token x) rs),
      ) in
      ground (
        arith,
        other,
        spent token now later rs (ground (arith, d)) found,
        Bool-cases (belongs_to t.user_id r),
      )
]

module _ (crypto : Crypto) (svc : IdentityService) (input : ResetPasswordInput) (p : Pool Accounts)
    (t : StoredToken) (u : User) (hash : String) (works : Works crypto svc.jwt)
    (served : p.faults ≡ []) (sound : Sound p.state)
    (live : find_first (is_live_token input.token p.now) p.state.reset_tokens ≡ some t)
    (owned : find_first (is_user t.user_id) p.state.users ≡ some u) (active : u.is_active ≡ true)
    (hashed : crypto.hash p.state.drawn input.new_password ≡ some hash)
    (unused : any (is_token (works.text (p.state.drawn + 1))) p.state.refresh_tokens ≡ false) where
  -- After the reset: who signs in, and that it works.
  signs_in :
      (q : Pool Accounts) (r : Renewed u hash p q)
      → Sound q.state
      → (pair : TokenPair) × ((login crypto svc
            (record { email = u.email; password = input.new_password })
            q).0
          ≡ ok (r.row, pair))
  signs_in q r s =
      let id = first_is u.id q.state.users r.found in
      (
        new_pair svc.jwt (works.signature (new_claims svc.jwt r.row q.now))
            (works.text q.state.drawn),
        ap (λ (x : _). x.0)
            (login-returns crypto svc _ q r.row _ _ r.served
              (subst (λ e. find_first (has_email e) q.state.users ≡ some r.row) r.same_email
                (find_by_email u.id q.state.users s.emails r.found))
              (ap (λ h. crypto.matches h input.new_password) r.new_hash
                ∙ works.matches_own p.state.drawn input.new_password hash hashed)
              (r.same_active ∙ active)
              (record {
                signs = works.signs _;
                draws = works.texts q.state.drawn;
                unused =
                    ap (λ n. any (is_token (works.text n)) q.state.refresh_tokens) r.drawn
                    ∙ ap (any (is_token (works.text (p.state.drawn + 1)))) r.fewer_refresh
                    ∙ any-keep (is_token (works.text (p.state.drawn + 1)))
                        (λ x. not (belongs_to u.id x)) p.state.refresh_tokens unused;
                exists =
                    ap (λ i. any (is_user i) q.state.users) id
                    ∙ any_of_find (is_user u.id) q.state.users r.found;
              })),
      )

  is_spent :
      (q : Pool Accounts) (r : Renewed u hash p q) (faults : List Bool) (now : Time)
      → (reset_password crypto input (record q { faults = faults; now = now })).0
        ≡ err invalid_reset_token
  unfolding reset_password select_reset_token
  is_spent q r faults now =
      fail_as_fails (select_reset_token input.token) invalid_reset_token _
        (record q { faults = faults; now = now }) invalid_reset_token
        (ap
            (λ ts.
              one_row (find_first (is_live_token input.token now) ts) invalid_reset_token q.state)
            (r.fewer_reset
              ∙ ap (λ i. keep (λ x. not (belongs_to i x)) p.state.reset_tokens)
                  (first_is t.user_id p.state.users owned))
          ∙ ap (λ o. one_row o invalid_reset_token q.state)
              (spent input.token p.now now p.state.reset_tokens sound.reset_apart live))

  -- Where the server refuses nothing, a hash matches its password, tokens can be signed and drawn,
  -- and the next random text is not a refresh token already: a ResetPassword with a token that has
  -- not run out, of an account that is active, returns. After it a Login with the address of the
  -- account and the new password returns that account, and the same reset token is refused, at any
  -- time and whatever the server then refuses.
  pub reset_password-login :
      (q : Pool Accounts) × (row : User) × (pair : TokenPair) × (reset_password crypto input p
        ≡ (ok tt, q))
      × ((login crypto svc (record { email = u.email; password = input.new_password }) q).0
          ≡ ok (row, pair))
      × (row.id ≡ u.id)
      × ((faults : List Bool) (now : Time)
          → (reset_password crypto input (record q { faults = faults; now = now })).0
            ≡ err invalid_reset_token)
  reset_password-login =
      let (q, runs, r, s) =
        reset_password_runs crypto input p t u hash served sound live owned hashed in
      let (pair, opens) = signs_in q r s in
      (q, r.row, pair, runs, opens, first_is u.id q.state.users r.found, is_spent q r)
