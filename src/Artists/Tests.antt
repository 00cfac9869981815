-- ===== src/Artists/Tests.antt =====
-- Runs, and instances of the theorems.
use fann_api.Prelude.{ℕ, ◌≡◌, refl, true, false, Option, none, some, [], ◌∷◌, Rate}
use fann_api.Artists.{
  PublicColumns, ArtistProfile, registered, guest, price_band, to_number, profile_columns_for,
  shape_artist_profile, in_price_range,
}
use fann_api.Artists.Bands.{same_band_lem}

abbrev columns : PublicColumns
columns = record {
  id = 1;
  user_id = 2;
  bio = none;
  location_city = none;
  location_country = none;
  languages = [];
  is_verified = true;
  thumbnail_url = none;
  avg_rating = none;
  review_count = 0;
  created_at = 0;
  deposit_usd = none;
  cancellation_policy = none;
}

abbrev karim : ArtistProfile
karim = record {
  public = columns;
  base_price_usd = some 34_000;
  social_links = some (7 ∷ []);
  display_name = some (75 ∷ []);
}

abbrev usd : ℕ → Option Rate
usd n = some (record { num = n; den = 1 })

same_band_lem_example :
    (shape_artist_profile (profile_columns_for registered karim) registered
      ≡ shape_artist_profile
          (profile_columns_for registered (record karim {
            base_price_usd = some 41_000;
            social_links = none;
            display_name = none;
          }))
          registered)
    × (in_price_range registered (usd 340) (usd 360) (some 34_000)
        ≡ in_price_range registered (usd 340) (usd 360) (some 41_000))
unfolding price_band
same_band_lem_example =
    same_band_lem registered refl karim 34_000 41_000 none none (usd 340) (usd 360) refl refl refl

-- A price at which a band starts passes the ceiling of the band before it, and no other price of
-- its band does.
edge_kept : in_price_range guest none (usd 250) (some 25_000) ≡ true
unfolding in_price_range
edge_kept = refl

edge_dropped : in_price_range guest none (usd 250) (some 25_001) ≡ false
unfolding in_price_range
edge_dropped = refl

edge_band : price_band (to_number (some 25_000)) ≡ price_band (to_number (some 25_001))
unfolding price_band
edge_band = refl
