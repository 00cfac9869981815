-- ===== src/Artists.antt =====
-- src/artists/artist-visibility.ts, the price filter of `search` in src/artists/artists.service.ts,
-- and src/artists/profile-completeness.ts. The column base_price_usd is a number of cents; a bound of
-- the request is a fraction of dollars, which the DTO keeps from being negative.
pub mod Bands
mod Tests
use fann_api.Prelude.{
  ℕ, ◌+◌, ◌-◌, ◌*◌, ◌<◌, Bool, true, false, ◌&&◌, ◌||◌, not, Option, none, some, List, [], ◌∷◌,
  ◌++◌, ◌==◌, ltb, leb, Text, first, rows, length, is_some, if◌then◌else◌, Rate, JsNumber,
  not_finite, negative, nonnegative,
}
use fann_api.Billing.{Plan, Subscription}
use fann_api.Subscriptions.Access.{UserRole, admin, role_eq, has_active_subscription}

pub data ViewerTier : Type 0 where
  guest registered subscribed : ViewerTier

pub record ViewerContext : Type 0 where
  pub user_id : Option ℕ
  pub role : Option UserRole

-- the labels of PRICE_BANDS, and the public-ended one
pub data Band : Type 0 where
  under_100 from_100 from_250 from_500 from_1000 from_2500 : Band

pub record PriceBand : Type 0 where
  pub max : ℕ
  pub label : Band

-- PRICE_BANDS
abbrev pub price_bands : List PriceBand
price_bands =
    record { max = 100; label = under_100 }
    ∷ record { max = 250; label = from_100 }
    ∷ record { max = 500; label = from_250 }
    ∷ record { max = 1000; label = from_500 }
    ∷ record { max = 2500; label = from_1000 }
    ∷ []

-- BAND_EDGES
abbrev pub band_edges : List ℕ
band_edges = 100 ∷ 250 ∷ 500 ∷ 1000 ∷ 2500 ∷ []

abbrev at_most : Rate → ℕ → Bool
at_most v e = leb (e * v.den) v.num

abbrev at_least : Rate → ℕ → Bool
at_least v e = leb v.num (e * v.den)

-- the last that satisfies a condition, which is the first of the reverse
abbrev last : (ℕ → Bool) → List ℕ → Option ℕ
last p [] = none
last p (x ∷ xs) = elim (last p xs) [ some y ↦ some y | none ↦ if p x then some x else none ]

unfoldable pub snap_price_floor : Option Rate → Option ℕ
snap_price_floor none = none
snap_price_floor (some v) = elim (last (at_most v) band_edges) [ none ↦ some 0 | some e ↦ some e ]

unfoldable pub snap_price_ceiling : Option Rate → Option ℕ
snap_price_ceiling none = none
snap_price_ceiling (some v) = first (at_least v) band_edges

abbrev pub is_below : JsNumber → PriceBand → Bool
is_below not_finite b = false
is_below (negative r) b = true
is_below (nonnegative r) b = ltb r.num (b.max * r.den)

abbrev label_of : Option PriceBand → Band
label_of none = from_2500
label_of (some b) = b.label

-- the argument is `Number(basePriceUsd)`, none being null and undefined
unfoldable pub price_band : Option JsNumber → Option Band
price_band none = none
price_band (some not_finite) = none
price_band (some (negative r)) = some (label_of (first (is_below (negative r)) price_bands))
price_band (some (nonnegative r)) = some (label_of (first (is_below (nonnegative r)) price_bands))

-- what `Number` gives of a NUMERIC column of cents
abbrev pub to_number : Option ℕ → Option JsNumber
to_number none = none
to_number (some cents) = some (nonnegative (record { num = cents; den = 100 }))

abbrev is_admin : Option UserRole → Bool
is_admin none = false
is_admin (some r) = role_eq r admin

abbrev is_owner : ℕ → Option ℕ → Bool
is_owner user none = false
is_owner user (some owner) = user == owner

unfoldable pub resolve_viewer_tier :
    (now : ℕ) → List Plan → List Subscription → ViewerContext → (owner : Option ℕ) → ViewerTier
resolve_viewer_tier now plans subs viewer owner = elim (viewer.user_id) [
  | none ↦ guest
  | some user ↦
      if is_admin viewer.role || is_owner user owner
      then subscribed
      else if has_active_subscription now plans subs user
      then subscribed
      else registered
]

-- PUBLIC_COLUMNS
pub record PublicColumns : Type 0 where
  pub id : ℕ
  pub user_id : ℕ
  pub bio : Option Text
  pub location_city : Option Text
  pub location_country : Option Text
  pub languages : List Text
  pub is_verified : Bool
  pub thumbnail_url : Option Text
  pub avg_rating : Option ℕ
  pub review_count : ℕ
  pub created_at : ℕ
  pub deposit_usd : Option ℕ
  pub cancellation_policy : Option Text

-- a row of artist_profiles
pub record ArtistProfile : Type 0 where
  pub public : PublicColumns
  pub base_price_usd : Option ℕ
  pub social_links : Option Text
  pub display_name : Option Text

-- A row as it is selected, and as it is sent: a column or a key that is not there is none.
pub record Selected : Type 0 where
  pub public : PublicColumns
  pub base_price_usd : Option ℕ
  pub social_links : Option (Option Text)
  pub display_name : Option (Option Text)

pub record Shaped : Type 0 where
  pub public : PublicColumns
  pub viewer_tier : ViewerTier
  pub is_masked : Bool
  pub base_price_usd : Option (Option ℕ)
  pub base_price_band : Option (Option Band)
  pub social_links : Option (Option Text)
  pub display_name : Option (Option Text)

abbrev pub is_subscribed : ViewerTier → Bool
is_subscribed t = elim t [ subscribed ↦ true | _ ↦ false ]

-- `SELECT profileColumnsFor(tier)`
unfoldable pub profile_columns_for : ViewerTier → ArtistProfile → Selected
profile_columns_for tier p = record {
  public = p.public;
  base_price_usd = p.base_price_usd;
  social_links = if is_subscribed tier then some (p.social_links) else none;
  display_name = if is_subscribed tier then some (p.display_name) else none;
}

unfoldable pub shape_artist_profile : Selected → ViewerTier → Shaped
unfolding price_band
shape_artist_profile row tier =
    if is_subscribed tier
    then record {
      public = row.public;
      viewer_tier = tier;
      is_masked = false;
      base_price_usd = some (row.base_price_usd);
      base_price_band = none;
      social_links = row.social_links;
      display_name = row.display_name;
    }
    else record {
      public = row.public;
      viewer_tier = tier;
      is_masked = true;
      base_price_usd = none;
      base_price_band = some (price_band (to_number row.base_price_usd));
      social_links = none;
      display_name = none;
    }

-- the bounds on the price that `search` puts on the query
abbrev pub above : Option Rate → ℕ → Bool
above none cents = true
above (some v) cents = leb (v.num * 100) (cents * v.den)

abbrev pub below : Option Rate → ℕ → Bool
below none cents = true
below (some v) cents = leb (cents * v.den) (v.num * 100)

abbrev pub dollars : Option ℕ → Option Rate
dollars none = none
dollars (some n) = some (record { num = n; den = 1 })

-- a comparison with NULL holds only where there is none to make
abbrev pub price_test : (ℕ → Bool) → Bool → Option ℕ → Bool
price_test p asked none = not asked
price_test p asked (some cents) = p cents

unfoldable pub in_price_range :
    ViewerTier → (min_price max_price : Option Rate) → (base_price_usd : Option ℕ) → Bool
unfolding snap_price_floor snap_price_ceiling
in_price_range tier min_price max_price price =
    let least = if is_subscribed tier then min_price else dollars (snap_price_floor min_price) in
    let most = if is_subscribed tier then max_price else dollars (snap_price_ceiling max_price) in
    price_test (above least) (is_some least) price && price_test (below most) (is_some most) price
