-- ===== src/Reviews/Recalculation.antt =====
-- A change of the reviews, and the profiles that it makes stale until they are recalculated.
use fann_api.Prelude.{
  ℕ, ◌≡◌, refl, ◌∙◌, ap, ◌⊎◌, inl, inr, Bool, true, false, List, [], ◌∷◌, ◌==◌, arith, map,
  Bool-cases, ==_iff, rows, update, elem, All, All_mono, length,
}
use fann_api.Reviews.{
  Review, Profile, Db, is_shown_of, patch, recalculate_aggregate, recalculate_all, on_reviews,
  average, is_in, is_unlocked,
}

-- The profile says what the published reviews of its user say.
abbrev pub IsCurrent : List Review → Profile → Type 0
IsCurrent reviews p = patch reviews p ≡ p

pub record AggregatesAgree (db : Db) : Type 0 where
  pub artists : All (IsCurrent db.reviews) db.artist_profiles
  pub planners : All (IsCurrent db.reviews) db.planner_profiles

-- Current, or about to be recalculated.
abbrev pub Stale : List ℕ → List Review → Profile → Type 0
Stale users reviews p = (elem p.user_id users ≡ true) ⊎ IsCurrent reviews p

recalculate-Stale :
    (u : ℕ) (users : List ℕ) (reviews : List Review) (ps : List Profile)
    → All (Stale (u ∷ users) reviews) ps
    → All (Stale users reviews) (update (λ p. p.user_id == u) (patch reviews) ps)
recalculate-Stale u users reviews [] h = tt
recalculate-Stale u users reviews (p ∷ ps) (h, hs) = elim (Bool-cases (p.user_id == u)) [
  | inl e ↦ rw e (inr refl, recalculate-Stale u users reviews ps hs)
  | inr e ↦ rw e (
    elim h [ inl m ↦ inl (ground arith) | inr c ↦ inr c ],
    recalculate-Stale u users reviews ps hs,
  )
]

settled :
    (reviews : List Review) (ps : List Profile)
    → All (Stale [] reviews) ps
    → All (IsCurrent reviews) ps
settled reviews ps h =
    All_mono (Stale [] reviews) (IsCurrent reviews) ps
      (λ p s. elim s [ inl m ↦ absurd (ground arith) | inr c ↦ c ]) h

pub recalculate_all-AggregatesAgree :
    (users : List ℕ) (db : Db)
    → All (Stale users db.reviews) db.artist_profiles
    → All (Stale users db.reviews) db.planner_profiles
    → AggregatesAgree (recalculate_all users db)
unfolding recalculate_all recalculate_aggregate
recalculate_all-AggregatesAgree [] db a p = record {
  artists = settled db.reviews db.artist_profiles a;
  planners = settled db.reviews db.planner_profiles p;
}
recalculate_all-AggregatesAgree (u ∷ users) db a p =
    recalculate_all-AggregatesAgree users (recalculate_aggregate u db)
      (recalculate-Stale u users db.reviews db.artist_profiles a)
      (recalculate-Stale u users db.reviews db.planner_profiles p)

abbrev pub reviewees : (Review → Bool) → List Review → List ℕ
reviewees q rs = map (λ (r : Review). r.reviewee_id) (rows q rs)

pub wider :
    (u : ℕ) (all : List ℕ) (rs : List Review)
    → elem u (reviewees (is_unlocked all) rs) ≡ true
    → elem u (reviewees (is_in all) rs) ≡ true
wider u all [] h = h
wider u all (r ∷ rs) h = ground (arith, wider u all rs)

shown_kept :
    (u : ℕ) (q : Review → Bool) (f : Review → Review) (rs : List Review)
    → ((r : Review) → (f r).reviewee_id ≡ r.reviewee_id)
    → elem u (reviewees q rs) ≡ false
    → rows (is_shown_of u) (update q f rs) ≡ rows (is_shown_of u) rs
shown_kept u q f [] k h = refl
shown_kept u q f (r ∷ rs) k h = elim (Bool-cases (q r)) [
  | inl e ↦ ground (
    arith,
    k r,
    ==_iff u r.reviewee_id,
    ==_iff (f r).reviewee_id u,
    ==_iff r.reviewee_id u,
    shown_kept u q f rs k,
  )
  | inr e ↦ ground (arith, shown_kept u q f rs k)
]

-- a change of rows makes only the profiles of their reviewees stale
pub change-Stale :
    (users : List ℕ) (old new : List Review) (ps : List Profile)
    → ((u : ℕ) → elem u users ≡ false → rows (is_shown_of u) new ≡ rows (is_shown_of u) old)
    → All (IsCurrent old) ps
    → All (Stale users new) ps
change-Stale users old new ps same h =
    All_mono (IsCurrent old) (Stale users new) ps
      (λ p c. elim (Bool-cases (elem p.user_id users)) [
        | inl e ↦ inl e
        | inr e ↦ inr (
            ap (λ shown. record p { avg_rating = average shown; review_count = length shown })
              (same p.user_id e)
            ∙ c)
      ])
      h

-- the change, then the aggregates of the reviewees of the changed rows
module _ (users : List ℕ) (p q : Review → Bool) (f : Review → Review) (db : Db)
    (same : (r : Review) → (f r).reviewee_id ≡ r.reviewee_id)
    (covers : (u : ℕ) → elem u users ≡ false → elem u (reviewees q db.reviews) ≡ false) where
  pub change-AggregatesAgree :
      AggregatesAgree db → AggregatesAgree (recalculate_all users (on_reviews q f db))
  change-AggregatesAgree h =
      let new = update q f db.reviews in
      let kept : (u : ℕ)
          → elem u users ≡ false
          → rows (is_shown_of u) new ≡ rows (is_shown_of u) db.reviews =
        λ u e. shown_kept u q f db.reviews same (covers u e) in
      recalculate_all-AggregatesAgree users (on_reviews q f db)
        (change-Stale users db.reviews new db.artist_profiles kept h.artists)
        (change-Stale users db.reviews new db.planner_profiles kept h.planners)
