-- ===== src/Auth/Phones/Guesses.antt =====
-- How many guesses a one-time code takes.
use fann_api.Prelude.{
  ℕ, ◌+◌, ◌<◌, ◌≤◌, ◌≡◌, subst, inl, inr, ◌⊎◌, Bool, false, none, some, List, [], ◌∷◌, ◌==◌, length,
  All, arith, Env, err, bad_request, ==_self, Bool-cases,
}
use fann_api.Redis.{Redis}
use fann_api.Auth.{State}
use fann_api.Auth.Phones.{verify_otp, send_otp, count_wrong_code}

-- one try to verify a number: when, by whom, and with which code
pub record Guess : Type 0 where
  pub env : Env
  pub user : ℕ
  pub code : ℕ

unfoldable pub guess_all : (phone : ℕ) → List Guess → State → State
guess_all phone [] s = s
guess_all phone (g ∷ gs) s = guess_all phone gs (verify_otp g.env g.user phone g.code s).1

module _ (phone code start : ℕ) where
  -- wrong, and within the ten minutes of the code
  abbrev pub IsWrong : Guess → Type 0
  IsWrong g = ((code == g.code) ≡ false) × (start ≤ g.env.now) × (g.env.now < start + 600_000)

  -- the code is there, after `n` wrong guesses, of which the first was no earlier than it
  Guessed : ℕ → Redis → Type 0
  Guessed n r =
      (r.otp phone ≡ some (record { value = code; expires_at = some (start + 600_000) }))
      × (((n ≡ 0) × (r.otp_attempts phone ≡ none))
          ⊎ ((e : ℕ) × (r.otp_attempts phone ≡ some (record { value = n; expires_at = some e }))
              × (start + 600_000 ≤ e)
              × (0 < n)))

  wrong-eq-counted :
      (g : Guess) (s : State)
      → IsWrong g
      → s.redis.otp phone ≡ some (record { value = code; expires_at = some (start + 600_000) })
      → verify_otp g.env g.user phone g.code s ≡ count_wrong_code g.env phone s
  unfolding verify_otp
  wrong-eq-counted g s (miss, early, late) there = ground arith

  counted-first :
      (env : Env) (s : State)
      → s.redis.otp_attempts phone ≡ none
      → let r = (count_wrong_code env phone s).1.redis in
        (r.otp ≡ s.redis.otp)
        × (r.otp_attempts phone
            ≡ some (record { value = 1; expires_at = some (env.now + 600_000) }))
  unfolding count_wrong_code
  counted-first env s fresh = ground (arith, ==_self phone)

  counted-again :
      (env : Env) (s : State) (n e : ℕ)
      → s.redis.otp_attempts phone ≡ some (record { value = n; expires_at = some e })
      → env.now < e
      → 0 < n
      → n < 4
      → let r = (count_wrong_code env phone s).1.redis in
        (r.otp ≡ s.redis.otp)
        × (r.otp_attempts phone ≡ some (record { value = n + 1; expires_at = some e }))
  unfolding count_wrong_code
  counted-again env s n e tried live_ some_ few = ground (arith, ==_self phone)

  counted-last :
      (env : Env) (s : State) (e : ℕ)
      → s.redis.otp_attempts phone ≡ some (record { value = 4; expires_at = some e })
      → env.now < e
      → (count_wrong_code env phone s).1.redis.otp phone ≡ none
  unfolding count_wrong_code
  counted-last env s e tried live_ = ground (arith, ==_self phone)

  guess-Guessed :
      (n : ℕ) (g : Guess) (s : State)
      → IsWrong g
      → n < 4
      → Guessed n s.redis
      → Guessed (n + 1) (verify_otp g.env g.user phone g.code s).1.redis
  unfolding Guessed verify_otp
  guess-Guessed n g s (miss, early, late) few (there, inl (zero_, fresh)) =
      let (same, counted) = counted-first g.env s fresh in
      rw (wrong-eq-counted g s (miss, early, late) there, same)
        (there, inr (g.env.now + 600_000, rw zero_ counted, omega arith, omega arith))
  guess-Guessed n g s (miss, early, late) few (there, inr (e, tried, after, some_)) =
      let (same, counted) = counted-again g.env s n e tried (omega arith) some_ few in
      rw (wrong-eq-counted g s (miss, early, late) there, same)
        (there, inr (e, counted, after, omega arith))

  guess-last :
      (g : Guess) (s : State)
      → IsWrong g
      → Guessed 4 s.redis
      → (verify_otp g.env g.user phone g.code s).1.redis.otp phone ≡ none
  unfolding Guessed verify_otp
  guess-last g s (miss, early, late) (there, inl (zero_, fresh)) =
      let no_ : ⊥ = omega (arith, zero_) in absurd no_
  guess-last g s (miss, early, late) (there, inr (e, tried, after, some_)) =
      rw (wrong-eq-counted g s (miss, early, late) there)
        (counted-last g.env s e tried (omega arith))

  guess-none :
      (g : Guess) (s : State)
      → s.redis.otp phone ≡ none
      → verify_otp g.env g.user phone g.code s ≡ (err bad_request, s)
  unfolding verify_otp
  guess-none g s gone = ground arith

  Spent : Redis → Type 0
  Spent r = r.otp phone ≡ none

  guess_all-Spent :
      (gs : List Guess) (s : State) → Spent s.redis → Spent (guess_all phone gs s).redis
  unfolding guess_all Spent
  guess_all-Spent [] s h = h
  guess_all-Spent (g ∷ gs) s h =
      let same = guess-none g s h in
      guess_all-Spent gs (verify_otp g.env g.user phone g.code s).1 (rw same h)

  guess_all-Guessed :
      (n : ℕ) (gs : List Guess) (s : State)
      → All IsWrong gs
      → n ≤ 4
      → 5 ≤ n + length gs
      → Guessed n s.redis
      → Spent (guess_all phone gs s).redis
  unfolding guess_all Spent
  guess_all-Guessed n [] s wrong few many h = let no_ : ⊥ = omega arith in absurd no_
  guess_all-Guessed n (g ∷ gs) s wrong few many h = elim (Bool-cases (n == 4)) [
    | inl last ↦
        let four : n ≡ 4 = ground arith in
        guess_all-Spent gs (verify_otp g.env g.user phone g.code s).1
          (guess-last g s wrong.0 (subst (λ m. Guessed m s.redis) four h))
    | inr more ↦
        guess_all-Guessed (n + 1) gs (verify_otp g.env g.user phone g.code s).1 wrong.1
          (ground arith) (omega arith) (guess-Guessed n g s wrong.0 (ground arith) h)
  ]

-- Where no wrong guess is counted yet when a code is sent, five wrong guesses within its ten minutes,
-- by whichever users, are all that it takes: after them no guess is accepted, the right one
-- included.
pub guess_all-verify_otp :
    (env : Env) (phone code : ℕ) (delivered : Bool) (s : State) (gs : List Guess)
    → s.redis.otp_attempts phone ≡ none
    → All (IsWrong phone code env.now) gs
    → 5 ≤ length gs
    → (g : Guess)
    → let s' = guess_all phone gs (send_otp env phone code delivered s).1 in
      verify_otp g.env g.user phone g.code s' ≡ (err bad_request, s')
unfolding send_otp Guessed Spent
guess_all-verify_otp env phone code delivered s gs fresh wrong many g =
    let sent : Guessed phone code env.now 0 (send_otp env phone code delivered s).1.redis =
      ground (arith, ==_self phone) in
    guess-none phone code env.now g (guess_all phone gs (send_otp env phone code delivered s).1) (
      guess_all-Guessed phone code env.now 0 gs (send_otp env phone code delivered s).1 wrong
        (omega arith) (omega (arith, many)) sent)
