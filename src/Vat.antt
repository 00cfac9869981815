-- ===== src/Vat.antt =====
-- src/common/vat.ts. An amount is a number of dollars and a rate is a number, both doubles, and every
-- operation rounds as JavaScript's does.
pub mod Invoice
mod Tests
use fann_api.Prelude.{
  ℕ, ◌+◌, ◌*◌, ◌/◌, Bool, true, false, ◌&&◌, ◌||◌, Option, none, some, List, [], ◌∷◌, ltb, leb,
  ◌==◌, if◌then◌else◌, Rate, hundredths, product, sum, whole, round, JsNumber, not_finite, negative,
  nonnegative, Text,
}

abbrev pub default_vat_rate : Rate
default_vat_rate = hundredths 11

abbrev pub zero_rate : Rate
zero_rate = record { num = 0; den = 1 }

-- `raw.trim() === ''`, for the ASCII white space
abbrev pub is_blank : Text → Bool
is_blank [] = true
is_blank (c ∷ s) = if (c == 32) || (leb 9 c) && (leb c 13) then is_blank s else false

abbrev pub checked : JsNumber → Rate
checked not_finite = zero_rate
checked (negative r) = zero_rate
checked (nonnegative r) = if ltb r.den r.num then zero_rate else r

-- `number` is JavaScript's `Number`.
unfoldable pub resolve_vat_rate : (number : Text → JsNumber) → Option Text → Rate
resolve_vat_rate number none = default_vat_rate
resolve_vat_rate number (some raw) = if is_blank raw then default_vat_rate else checked (number raw)

pub record VatBreakdown : Type 0 where
  pub subtotal_usd : Rate
  pub vat_rate : Rate
  pub vat_usd : Rate
  pub total_usd : Rate

unfoldable pub vat_breakdown : (subtotal rate : Rate) → VatBreakdown
vat_breakdown subtotal rate =
    let vat = hundredths (round (product (product subtotal rate) (whole 100))) in
    record {
      subtotal_usd = subtotal;
      vat_rate = rate;
      vat_usd = vat;
      total_usd = hundredths (round (product (sum subtotal vat) (whole 100)));
    }
