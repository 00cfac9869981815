-- ===== src/Prelude/Doubles.antt =====
-- The nonnegative numbers of JavaScript: a number is a fraction, exactly the value of a double, and an
-- operation gives the double nearest to the exact result. No result here comes near 2^1024, where the
-- doubles end.
use Prim.Native.Nat.{ℕ, ◌+◌, ◌*◌, ◌/◌, ◌%◌, ◌^◌}
use mathlib.Core.List.{List, [], ◌∷◌}
use fann_api.Prelude.Tests.{ltb, leb, if◌then◌else◌}
use fann_api.Prelude.Number.{Rate}

-- how far the exponent reaches, in steps that make up every number to 1074
abbrev reach : List ℕ
reach = 51 ∷ 512 ∷ 256 ∷ 128 ∷ 64 ∷ 32 ∷ 16 ∷ 8 ∷ 4 ∷ 2 ∷ 1 ∷ []

-- the largest s, to the end of the reach, with num * 2^s below 2^53 * den
abbrev raised_by : List ℕ → (num den : ℕ) → ℕ
raised_by [] num den = 0
raised_by (k ∷ ks) num den =
    let below = ltb (num * 2 ^ k) (2 ^ 53 * den) in
    let rest = raised_by ks (if below then num * 2 ^ k else num) den in
    if below then k + rest else rest

-- the largest s with num at least 2^52 * den * 2^s
abbrev lowered_by : List ℕ → (num den : ℕ) → ℕ
lowered_by [] num den = 0
lowered_by (k ∷ ks) num den =
    let above = leb (2 ^ 52 * den * 2 ^ k) num in
    let rest = lowered_by ks num (if above then den * 2 ^ k else den) in
    if above then k + rest else rest

-- the nearest integer, and the even one of two
abbrev half_even : (num den : ℕ) → ℕ
half_even num den =
    let q = num / den in
    let twice = 2 * (num % den) in
    if ltb twice den then q else if ltb den twice then q + 1 else q + q % 2

abbrev raised : Rate → Rate
raised r =
    let s = raised_by reach r.num r.den in
    record { num = half_even (r.num * 2 ^ s) r.den; den = 2 ^ s }

abbrev lowered : Rate → Rate
lowered r =
    let s = lowered_by reach r.num r.den in
    record { num = half_even r.num (r.den * 2 ^ s) * 2 ^ s; den = 1 }

-- the double nearest to a fraction: 53 binary digits
unfoldable pub nearest : Rate → Rate
nearest r = if ltb r.num (2 ^ 53 * r.den) then raised r else lowered r

abbrev pub whole : ℕ → Rate
whole n = record { num = n; den = 1 }

unfoldable pub product : Rate → Rate → Rate
unfolding nearest
product a b = nearest (record { num = a.num * b.num; den = a.den * b.den })

unfoldable pub sum : Rate → Rate → Rate
unfolding nearest
sum a b = nearest (record { num = a.num * b.den + b.num * a.den; den = a.den * b.den })

-- the number that a literal or a text of so many hundredths stands for, also `n / 100`
unfoldable pub hundredths : ℕ → Rate
unfolding nearest
hundredths n = nearest (record { num = n; den = 100 })

-- `Math.round`, which takes a half up
abbrev pub round : Rate → ℕ
round r = (2 * r.num + r.den) / (2 * r.den)

-- what a column of two decimals keeps
abbrev pub to_cents : Rate → ℕ
to_cents r = round (record { num = r.num * 100; den = r.den })

-- what a column of four decimals keeps
abbrev pub four_decimals : Rate → Rate
four_decimals r = record {
  num = round (record { num = r.num * 10_000; den = r.den });
  den = 10_000;
}
