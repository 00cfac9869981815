-- ===== src/Vat/Invoice.antt =====
-- The rate that is applied.
use fann_api.Prelude.{
  Rate, hundredths, nearest, JsNumber, not_finite, negative, nonnegative, ◌≤◌, ◌<◌, Option, none,
  some, arith, Text, Bool-cases, inl, inr,
}
use fann_api.Vat.{checked, is_blank, resolve_vat_rate}

-- A rate between 0 and 1.
pub record IsRate (r : Rate) : Type 0 where
  pub den_pos : 0 < r.den
  pub at_most_one : r.num ≤ r.den

-- What a parser of numbers gives has a denominator.
abbrev pub IsFraction : JsNumber → Type 0
IsFraction not_finite = Unit
IsFraction (negative r) = Unit
IsFraction (nonnegative r) = 0 < r.den

checked-IsRate : (n : JsNumber) → IsFraction n → IsRate (checked n)
checked-IsRate not_finite h = omega arith
checked-IsRate (negative r) h = omega arith
checked-IsRate (nonnegative r) h = ground arith

-- Whatever the environment variable holds, the rate that is applied lies between 0 and 1.
pub resolve_vat_rate-IsRate :
    (number : Text → JsNumber) (raw : Option Text)
    → ((t : Text) → IsFraction (number t))
    → IsRate (resolve_vat_rate number raw)
unfolding resolve_vat_rate hundredths nearest
resolve_vat_rate-IsRate number none h = omega arith
resolve_vat_rate-IsRate number (some raw) h = elim (Bool-cases (is_blank raw)) [
  | inl blank ↦ ground arith
  | inr given ↦ ground (arith, checked-IsRate (number raw) (h raw))
]
