-- ===== src/Scheduler/LockKey.antt =====
-- The range of a lock's key.
use fann_api.Prelude.{ℕ, ◌<◌, ◌≤◌, [], ◌∷◌, arith, Text, ltb, Bool-cases, inl, inr}
use fann_api.Scheduler.{word, mix, fnv, Int4, minus, plus, cron_lock_key}

-- what a signed 32-bit integer holds
abbrev pub FitsInt4 : Int4 → Type 0
FitsInt4 (plus n) = n < 2_147_483_648
FitsInt4 (minus n) = n ≤ 2_147_483_648

mix-below : (hash code : ℕ) → mix hash code < word
mix-below hash code = omega arith

fnv-below : (t : Text) (hash : ℕ) → hash < word → fnv hash t < word
fnv-below [] hash h = h
fnv-below (c ∷ t) hash h = fnv-below t (mix hash c) (mix-below hash c)

-- The key of every job fits the int4 that pg_try_advisory_lock takes.
pub cron_lock_key-FitsInt4 : (job : Text) → FitsInt4 (cron_lock_key job)
unfolding cron_lock_key
cron_lock_key-FitsInt4 job =
    let below = fnv-below job 2_166_136_261 (omega arith) in
    elim (Bool-cases (ltb (fnv 2_166_136_261 job) 2_147_483_648)) [
      | inl e ↦ rw e (ground arith)
      | inr e ↦ rw e (ground arith)
    ]
