-- ===== src/Notifications/Codes/Guesses.antt =====
-- How many guesses a code stands.
use mathlib.Core.Path.{subst}
use incident_garden.Prelude.{
  String, ◌+◌, ◌≤◌, ◌≡◌, refl, sym, ap, ◌∙◌, inl, inr, Bool, true, false, not, some, List, [], ◌∷◌,
  arith, leb, str_eq, find_first, update_where, all, length, Bool-cases,
}
use incident_garden.Domain.{Uuid, Time}
use incident_garden.Store.{Result, ok, err, too_many_attempts}
use incident_garden.Notifications.Payload.{NotificationChannel}
use incident_garden.Notifications.Codes.{
  VerificationCode, Vault, attempt, statement, is_active_code, select_code, get_verification_code,
  add_attempt, increment_code_attempts, max_verification_attempts, compare_code, on_code,
  verify_email_code,
}

-- Guesses made one after the other.
abbrev pub guess_all : NotificationChannel → List String → Vault → Vault
guess_all channel [] v = v
guess_all channel (input ∷ more) v = guess_all channel more (verify_email_code channel input v).1

-- The vault with the attempt counted.
abbrev counted : Uuid → Vault → Vault
counted c v = record v { codes = update_where (is_active_code c v.now) add_attempt v.codes }

find_first-counted :
    (c : Uuid) (now : Time) (row : VerificationCode) (xs : List VerificationCode)
    → find_first (is_active_code c now) xs ≡ some row
    → find_first (is_active_code c now) (update_where (is_active_code c now) add_attempt xs)
      ≡ some (add_attempt row)
unfolding add_attempt
find_first-counted c now row [] h = cc
find_first-counted c now row (x ∷ xs) h = elim (Bool-cases (is_active_code c now x)) [
  | inl hit ↦ rw hit (ground (arith, hit, h))
  | inr miss ↦ rw miss (ground (arith, miss, h, find_first-counted c now row xs))
]

attempt-ok :
    {A : Type 0} (fs : List Bool) (r : Result (A × Vault)) (v : Vault) (a : A) (u : Vault)
    → fs ≡ []
    → r ≡ ok (a, u)
    → attempt fs r v ≡ (ok a, u)
unfolding attempt
attempt-ok fs r v a u s h = ap (λ gs. attempt gs r v) s ∙ ap (λ q. attempt [] q v) h

select_code-eq :
    (c : Uuid) (v : Vault) (row : VerificationCode)
    → find_first (is_active_code c v.now) v.codes ≡ some row
    → select_code c v ≡ ok (row, v)
unfolding select_code
select_code-eq c v row h = ground (arith, h)

get_code-eq :
    (c : Uuid) (v : Vault) (row : VerificationCode)
    → v.faults ≡ []
    → find_first (is_active_code c v.now) v.codes ≡ some row
    → get_verification_code c v ≡ (ok row, v)
unfolding get_verification_code statement
get_code-eq c v row s found =
    attempt-ok v.faults (select_code c v) v row v s (select_code-eq c v row found)

increment-eq :
    (c : Uuid) (v : Vault) → v.faults ≡ [] → (increment_code_attempts c v).1 ≡ counted c v
unfolding increment_code_attempts statement
increment-eq c v s =
    ap (λ (r : Result (Unit {0}) × Vault). r.1)
      (attempt-ok v.faults (ok (tt, counted c v)) v tt (counted c v) s refl)

-- What is left of the code that a channel waits for.
record Waits (c : Uuid) (row : VerificationCode) (v : Vault) : Type 0 where
  served : v.faults ≡ []
  found : find_first (is_active_code c v.now) v.codes ≡ some row

verify-on :
    (channel : NotificationChannel) (input : String) (v : Vault) (row : VerificationCode)
    → Waits channel.id row v
    → verify_email_code channel input v ≡ on_code channel input (ok row, v)
unfolding verify_email_code
verify-on channel input v row w =
    ap (on_code channel input) (get_code-eq channel.id v row w.served w.found)

-- Past the limit nothing is compared, and nothing changes.
verify-spent :
    (channel : NotificationChannel) (input : String) (v : Vault) (row : VerificationCode)
    → Waits channel.id row v
    → leb max_verification_attempts row.attempts ≡ true
    → verify_email_code channel input v ≡ (err too_many_attempts, v)
unfolding on_code
verify-spent channel input v row w spent = verify-on channel input v row w ∙ ground (arith, spent)

-- A wrong guess within the limit is counted.
verify-wrong :
    (channel : NotificationChannel) (input : String) (v : Vault) (row : VerificationCode)
    → Waits channel.id row v
    → leb max_verification_attempts row.attempts ≡ false
    → str_eq input row.code ≡ false
    → (verify_email_code channel input v).1 ≡ counted channel.id v
unfolding on_code compare_code
verify-wrong channel input v row w under wrong =
    ap (λ (r : Result NotificationChannel × Vault). r.1) (verify-on channel input v row w)
    ∙ ground (arith, under, wrong)
    ∙ increment-eq channel.id v w.served

counted-Waits :
    (c : Uuid) (row : VerificationCode) (v : Vault)
    → Waits c row v
    → Waits c (add_attempt row) (counted c v)
counted-Waits c row v w = record {
  served = w.served;
  found = find_first-counted c v.now row v.codes w.found;
}

-- After wrong guesses the limit is reached by their number, or by what was counted before.
guesses-spent :
    (channel : NotificationChannel) (guesses : List String) (v : Vault) (row : VerificationCode)
    → Waits channel.id row v
    → all (λ g. not (str_eq g row.code)) guesses ≡ true
    → max_verification_attempts ≤ row.attempts + length guesses
    → (input : String)
    → (verify_email_code channel input (guess_all channel guesses v)).0 ≡ err too_many_attempts
unfolding add_attempt
guesses-spent channel [] v row w wrong enough input =
    ap (λ (r : Result NotificationChannel × Vault). r.0)
      (verify-spent channel input v row w (ground (arith, enough)))
guesses-spent channel (g ∷ gs) v row w wrong enough input =
    elim (Bool-cases (leb max_verification_attempts row.attempts)) [
      | inl spent ↦
          let same : (verify_email_code channel g v).1 ≡ v =
            ap (λ (r : Result NotificationChannel × Vault). r.1)
              (verify-spent channel g v row w spent) in
          guesses-spent channel gs (verify_email_code channel g v).1 row
            (subst (Waits channel.id row) (sym same) w) (ground (arith, wrong))
            (ground (arith, spent)) input
      | inr under ↦
          let next = verify-wrong channel g v row w under (ground (arith, wrong)) in
          guesses-spent channel gs (verify_email_code channel g v).1 (add_attempt row)
            (subst (Waits channel.id (add_attempt row)) (sym next)
              (counted-Waits channel.id row v w))
            (ground (arith, wrong)) (omega (arith, enough)) input
    ]

-- Where the server refuses nothing, a code that is active stands five wrong guesses at most: once
-- the wrong guesses and those counted before come to five, every further guess, the right one
-- too, is refused.
pub verify_email_code-limited :
    (channel : NotificationChannel) (guesses : List String) (v : Vault) (row : VerificationCode)
    (input : String)
    → v.faults ≡ []
    → find_first (is_active_code channel.id v.now) v.codes ≡ some row
    → all (λ g. not (str_eq g row.code)) guesses ≡ true
    → max_verification_attempts ≤ row.attempts + length guesses
    → (verify_email_code channel input (guess_all channel guesses v)).0 ≡ err too_many_attempts
verify_email_code-limited channel guesses v row input s found wrong enough =
    guesses-spent channel guesses v row (record { served = s; found = found }) wrong enough input
