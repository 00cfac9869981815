-- ===== src/Artists/Bands.antt =====
-- What a viewer without a plan can find out about a price.
use fann_api.Prelude.{
  ℕ, ◌*◌, ◌≡◌, refl, sym, ◌∙◌, Bool, false, ◌&&◌, Option, none, some, arith, Rate, ltb, any, ◌==◌,
  if◌then◌else◌, Text,
}
use fann_api.Artists.{
  ViewerTier, Band, under_100, from_100, from_250, from_500, from_1000, from_2500, price_band,
  to_number, snap_price_floor, snap_price_ceiling, is_subscribed, above, below, dollars,
  ArtistProfile, profile_columns_for, shape_artist_profile, in_price_range, band_edges,
}

-- The label of a number of cents.
band_of : ℕ → Band
band_of cents =
    if ltb cents 10_000
    then under_100
    else if ltb cents 25_000
    then from_100
    else if ltb cents 50_000
    then from_250
    else if ltb cents 100_000
    then from_500
    else if ltb cents 250_000
    then from_1000
    else from_2500

price_band-cents : (cents : ℕ) → price_band (to_number (some cents)) ≡ some (band_of cents)
unfolding price_band band_of
price_band-cents cents = ground arith

-- a price at which a band starts
abbrev pub on_edge : ℕ → Bool
on_edge cents = any (λ e. cents == e * 100) band_edges

floor-band :
    (v : Rate) (c d : ℕ)
    → band_of c ≡ band_of d
    → above (dollars (snap_price_floor (some v))) c ≡ above (dollars (snap_price_floor (some v))) d
unfolding snap_price_floor band_of
floor-band v c d same = ground arith

ceiling-band :
    (v : Rate) (c d : ℕ)
    → band_of c ≡ band_of d
    → on_edge c ≡ false
    → on_edge d ≡ false
    → below (dollars (snap_price_ceiling (some v))) c
      ≡ below (dollars (snap_price_ceiling (some v))) d
unfolding snap_price_ceiling band_of
ceiling-band v c d same off_c off_d = ground arith

floor-any :
    (low : Option Rate) (c d : ℕ)
    → band_of c ≡ band_of d
    → above (dollars (snap_price_floor low)) c ≡ above (dollars (snap_price_floor low)) d
unfolding snap_price_floor
floor-any none c d same = refl
floor-any (some v) c d same = floor-band v c d same

ceiling-any :
    (high : Option Rate) (c d : ℕ)
    → band_of c ≡ band_of d
    → on_edge c ≡ false
    → on_edge d ≡ false
    → below (dollars (snap_price_ceiling high)) c ≡ below (dollars (snap_price_ceiling high)) d
unfolding snap_price_ceiling
ceiling-any none c d same off_c off_d = refl
ceiling-any (some v) c d same off_c off_d = ceiling-band v c d same off_c off_d

and-same : {a b c d : Bool} → a ≡ b → c ≡ d → (a && c) ≡ (b && d)
and-same e f = rw (e, f) refl

some-injective : {A : Type 0} {a b : A} → some a ≡ some b → a ≡ b
some-injective e = ground arith

module _ (tier : ViewerTier) (unpaid : is_subscribed tier ≡ false) where
  in_price_range-band :
      (low high : Option Rate) (c d : ℕ)
      → band_of c ≡ band_of d
      → on_edge c ≡ false
      → on_edge d ≡ false
      → in_price_range tier low high (some c) ≡ in_price_range tier low high (some d)
  unfolding in_price_range
  in_price_range-band low high c d same off_c off_d =
      rw unpaid (and-same (floor-any low c d same) (ceiling-any high c d same off_c off_d))

  -- Below the paying tier, two artists who differ in nothing but a price within one band, the name and
  -- the links get the same answer, letter for letter, and no price filter returns the one without
  -- the other. Neither price is one at which a band starts.
  pub same_band_lem :
      (p : ArtistProfile) (c d : ℕ) (links name : Option Text) (low high : Option Rate)
      → price_band (to_number (some c)) ≡ price_band (to_number (some d))
      → on_edge c ≡ false
      → on_edge d ≡ false
      → let one = record p { base_price_usd = some c } in
        let other = record p {
          base_price_usd = some d;
          social_links = links;
          display_name = name;
        } in
        (shape_artist_profile (profile_columns_for tier one) tier
          ≡ shape_artist_profile (profile_columns_for tier other) tier)
        × (in_price_range tier low high one.base_price_usd
            ≡ in_price_range tier low high other.base_price_usd)
  unfolding shape_artist_profile profile_columns_for
  same_band_lem p c d links name low high same off_c off_d =
      let bands : band_of c ≡ band_of d =
        some-injective (sym (price_band-cents c) ∙ same ∙ price_band-cents d) in
      (rw (unpaid, same) refl, in_price_range-band low high c d bands off_c off_d)
