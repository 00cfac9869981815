-- ===== src/Reviews/Aggregates.antt =====
-- The aggregates on the profiles agree with the published reviews.
use fann_api.Prelude.{
  ℕ, ◌≤◌, ◌≡◌, refl, inl, inr, true, false, some, List, [], ◌∷◌, ◌++◌, ◌==◌, arith, Env, is_ok,
  Bool-cases, Option-cases, rows, elem, distinct, elem-distinct, rows-eq-nil, first, count, length,
}
use fann_api.Reviews.{
  Review, Booking, Db, is_shown_of, recalculate_all, of_booking, show, hide, try_unlock_pair,
  submit, new_review, insert_review, SubmitReviewDto, expired_bookings, is_in, is_unlocked,
  unlock_expired_reviews, admin_remove,
}
use fann_api.Reviews.Recalculation.{
  AggregatesAgree, recalculate_all-AggregatesAgree, change-Stale, wider, reviewees,
  change-AggregatesAgree,
}

module _ (env : Env) (reviewer : ℕ) (dto : SubmitReviewDto) (db : Db) where
  pub submit-eq-ok :
      is_ok (submit env reviewer dto db).0 ≡ true
      → (b : Booking) × ((submit env reviewer dto db).1
          ≡ try_unlock_pair dto.booking_id (insert_review (new_review env reviewer dto b) db))
  unfolding submit
  submit-eq-ok e =
      elim (Option-cases (first (λ (b : Booking). b.id == dto.booking_id) db.bookings)) [
        | inl missing ↦ absurd (ground arith)
        | inr (b, found) ↦ (b, ground arith)
      ]

  pub submit-eq-err :
      is_ok (submit env reviewer dto db).0 ≡ false → (submit env reviewer dto db).1 ≡ db
  unfolding submit
  submit-eq-err e = ground arith

pair-AggregatesAgree :
    (booking : ℕ) (db : Db) → AggregatesAgree db → AggregatesAgree (try_unlock_pair booking db)
unfolding try_unlock_pair
pair-AggregatesAgree booking db h =
    elim (Bool-cases (length (rows (of_booking booking) db.reviews) == 2)) [
      | inr e ↦ rw e h
      | inl e ↦ rw e (
          change-AggregatesAgree (reviewees (of_booking booking) db.reviews) (of_booking booking)
            (of_booking booking) show db (λ r. refl) (λ u k. k) h)
    ]

shown-insert :
    (u : ℕ) (r : Review) (rs : List Review)
    → r.is_visible ≡ false
    → rows (is_shown_of u) (rs ++ r ∷ []) ≡ rows (is_shown_of u) rs
shown-insert u r [] h = ground (arith, h)
shown-insert u r (x ∷ rs) h = ground (arith, shown-insert u r rs h)

insert-AggregatesAgree :
    (r : Review) (db : Db)
    → r.is_visible ≡ false
    → AggregatesAgree db
    → AggregatesAgree (insert_review r db)
unfolding recalculate_all
insert-AggregatesAgree r db hidden h =
    let new = db.reviews ++ r ∷ [] in
    let kept : (u : ℕ)
        → elem u [] ≡ false
        → rows (is_shown_of u) new ≡ rows (is_shown_of u) db.reviews =
      λ u e. shown-insert u r db.reviews hidden in
    recalculate_all-AggregatesAgree [] (insert_review r db)
      (change-Stale [] db.reviews new db.artist_profiles kept h.artists)
      (change-Stale [] db.reviews new db.planner_profiles kept h.planners)

pub submit-AggregatesAgree :
    (env : Env) (reviewer : ℕ) (dto : SubmitReviewDto) (db : Db)
    → AggregatesAgree db
    → AggregatesAgree (submit env reviewer dto db).1
unfolding submit
submit-AggregatesAgree env reviewer dto db h =
    elim (Bool-cases (is_ok (submit env reviewer dto db).0)) [
      | inr refused ↦ rw (submit-eq-err env reviewer dto db refused) h
      | inl made ↦
          let (b, e) = submit-eq-ok env reviewer dto db made in
          rw e (
            pair-AggregatesAgree dto.booking_id (insert_review (new_review env reviewer dto b) db)
              (insert-AggregatesAgree (new_review env reviewer dto b) db refl h))
    ]

unlocked-covers :
    (u : ℕ) (all : List ℕ) (rs : List Review)
    → elem u (distinct (reviewees (is_in all) rs)) ≡ false
    → elem u (reviewees (is_unlocked all) rs) ≡ false
unlocked-covers u all rs h = elim (Bool-cases (elem u (reviewees (is_unlocked all) rs))) [
  | inr e ↦ e
  | inl e ↦ absurd (ground (arith, elem-distinct u (reviewees (is_in all) rs) (wider u all rs e)))
]

pub unlock-AggregatesAgree :
    (env : Env) (db : Db) → AggregatesAgree db → AggregatesAgree (unlock_expired_reviews env db).1
unfolding unlock_expired_reviews
unlock-AggregatesAgree env db h =
    let all = expired_bookings env.node_now db in
    elim (Bool-cases (length all == 0)) [
      | inl e ↦ rw e h
      | inr e ↦ rw e (
          change-AggregatesAgree (distinct (reviewees (is_in all) db.reviews)) (is_in all)
            (is_unlocked all) show db (λ r. refl) (λ u k. unlocked-covers u all db.reviews k) h)
    ]

removed-covers :
    (u id : ℕ) (r : Review) (rs : List Review)
    → count (λ (x : Review). x.id == id) rs ≤ 1
    → first (λ (x : Review). x.id == id) rs ≡ some r
    → elem u (r.reviewee_id ∷ []) ≡ false
    → elem u (reviewees (λ x. x.id == id) rs) ≡ false
removed-covers u id r [] one found h = refl
removed-covers u id r (x ∷ rs) one found h = elim (Bool-cases (x.id == id)) [
  | inr e ↦ ground (arith, removed-covers u id r rs)
  | inl e ↦ ground (arith, rows-eq-nil (λ (x : Review). x.id == id) rs)
]

pub remove-AggregatesAgree :
    (id : ℕ) (db : Db)
    → count (λ (r : Review). r.id == id) db.reviews ≤ 1
    → AggregatesAgree db
    → AggregatesAgree (admin_remove id db).1
unfolding admin_remove recalculate_all
remove-AggregatesAgree id db one h =
    elim (Option-cases (first (λ (r : Review). r.id == id) db.reviews)) [
      | inl missing ↦ rw missing h
      | inr (r, found) ↦
          let changed =
            change-AggregatesAgree (r.reviewee_id ∷ []) (λ x. x.id == id) (λ x. x.id == id) hide db
              (λ x. refl) (λ u k. removed-covers u id r db.reviews one found k) h in
          rw found changed
    ]

-- The operations that change reviews.
pub data Operation : Type 0 where
  submits : Env → (reviewer : ℕ) → SubmitReviewDto → Operation
  unlocks : Env → Operation
  removes : (id : ℕ) → Operation

unfoldable pub perform : Operation → Db → Db
perform (submits env reviewer dto) db = (submit env reviewer dto db).1
perform (unlocks env) db = (unlock_expired_reviews env db).1
perform (removes id) db = (admin_remove id db).1

-- Each operation leaves on every profile exactly the average and the number of the reviews that are
-- then published about its user, if the profiles were current and no id stands in two reviews.
pub perform-AggregatesAgree :
    (o : Operation) (db : Db)
    → ((id : ℕ) → count (λ (r : Review). r.id == id) db.reviews ≤ 1)
    → AggregatesAgree db
    → AggregatesAgree (perform o db)
unfolding perform
perform-AggregatesAgree (submits env reviewer dto) db one h =
    submit-AggregatesAgree env reviewer dto db h
perform-AggregatesAgree (unlocks env) db one h = unlock-AggregatesAgree env db h
perform-AggregatesAgree (removes id) db one h = remove-AggregatesAgree id db (one id) h
