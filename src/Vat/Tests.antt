-- ===== src/Vat/Tests.antt =====
-- Runs, and instances of the theorems.
use fann_api.Prelude.{ℕ, ◌≡◌, refl, [], ◌∷◌, List, map, hundredths, nearest, product, sum, to_cents}
use fann_api.Vat.{vat_breakdown, default_vat_rate}

-- the net amount in cents, and the tax and the total that are charged for it at 11%
abbrev tax_of : ℕ → ℕ
tax_of cents = to_cents (vat_breakdown (hundredths cents) default_vat_rate).vat_usd

abbrev total_of : ℕ → ℕ
total_of cents = to_cents (vat_breakdown (hundredths cents) default_vat_rate).total_usd

-- the published prices, two and seven units of the second, and the largest purchase of the third
abbrev nets : List ℕ
nets = 500 ∷ 1500 ∷ 10_000 ∷ 3000 ∷ 10_500 ∷ 300_000 ∷ []

tax_of-nets : map tax_of nets ≡ 55 ∷ 165 ∷ 1100 ∷ 330 ∷ 1155 ∷ 33_000 ∷ []
unfolding vat_breakdown hundredths product sum nearest
tax_of-nets = refl

total_of-nets : map total_of nets ≡ 555 ∷ 1665 ∷ 11_100 ∷ 3330 ∷ 11_655 ∷ 333_000 ∷ []
unfolding vat_breakdown hundredths product sum nearest
total_of-nets = refl

-- Half a cent is not always taken up: 11% of 11.50 USD is 1.265 USD, the product of the doubles is
-- less, and the tax is 1.26 USD.
half_cent_lost : tax_of 1150 ≡ 126
unfolding vat_breakdown hundredths product sum nearest
half_cent_lost = refl
