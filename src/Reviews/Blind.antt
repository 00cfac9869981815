-- ===== src/Reviews/Blind.antt =====
-- When a review is published.
use fann_api.Prelude.{
  ℕ, ◌≡◌, refl, inl, inr, Bool, true, ◌&&◌, List, [], ◌∷◌, ◌++◌, ◌==◌, arith, map, Env, is_ok,
  Bool-cases, ==_self, rows, update, elem, distinct, elem-distinct, All, count, length,
  count-append, count_mono, count-eq-length-rows,
}
use fann_api.Reviews.Aggregates.{submit-eq-ok}
use fann_api.Reviews.{
  Review, Booking, Db, recalculate_aggregate, recalculate_all, of_booking, show, on_reviews,
  insert_review, try_unlock_pair, submit, new_review, SubmitReviewDto, expired_bookings, is_in,
  is_unlocked, is_hidden_of, unlock_expired_reviews,
}

recalculate_all_reviews :
    (users : List ℕ) (db : Db)
    → ((recalculate_all users db).reviews ≡ db.reviews)
      × ((recalculate_all users db).bookings ≡ db.bookings)
unfolding recalculate_all recalculate_aggregate
recalculate_all_reviews [] db = (refl, refl)
recalculate_all_reviews (u ∷ users) db = recalculate_all_reviews users (recalculate_aggregate u db)

-- every hidden review with a window that has run out is found
found :
    (p : Review → Bool) (all : List ℕ) (rs : List Review)
    → ((a : ℕ) → elem a (map (λ (r : Review). r.booking_id) (rows p rs)) ≡ true → elem a all ≡ true)
    → All (λ r. p r ≡ true → elem r.booking_id all ≡ true) rs
found p all [] h = tt
found p all (r ∷ rs) h = (
  λ e. h r.booking_id (ground (arith, ==_self r.booking_id)),
  found p all rs
      (λ a e. h a (elim (Bool-cases (p r)) [ inl y ↦ ground arith | inr n ↦ ground arith ])),
)

none_hidden :
    (bookings : List Booking) (now : ℕ) (all : List ℕ) (rs : List Review)
    → All (λ r. is_hidden_of bookings now r ≡ true → elem r.booking_id all ≡ true) rs
    → count (is_hidden_of bookings now) (update (is_unlocked all) show rs) ≡ 0
none_hidden bookings now all [] h = refl
none_hidden bookings now all (r ∷ rs) (h, hs) =
    ground (arith, h, none_hidden bookings now all rs hs)

all_found :
    (env : Env) (db : Db)
    → All
        (λ r.
          is_hidden_of db.bookings env.node_now r ≡ true
          → elem r.booking_id (expired_bookings env.node_now db) ≡ true)
        db.reviews
all_found env db =
    found (is_hidden_of db.bookings env.node_now) (expired_bookings env.node_now db) db.reviews
      (λ a e.
        elem-distinct a
          (map (λ (r : Review). r.booking_id)
            (rows (is_hidden_of db.bookings env.node_now) db.reviews))
          e)

none_left :
    (p : Review → Bool) (all : List ℕ) (rs : List Review)
    → (length all == 0) ≡ true
    → All (λ r. p r ≡ true → elem r.booking_id all ≡ true) rs
    → count p rs ≡ 0
none_left p [] [] e h = refl
none_left p [] (r ∷ rs) e (h, hs) = ground (arith, h, none_left p [] rs e hs)
none_left p (a ∷ all) rs e h = absurd (ground arith)

-- After the daily job no review stays hidden of a completed booking whose window has run out,
-- whatever had hidden it.
pub unlock_expired_reviews_lem :
    (env : Env) (db : Db)
    → let db' = (unlock_expired_reviews env db).1 in
      count (is_hidden_of db'.bookings env.node_now) db'.reviews ≡ 0
unfolding unlock_expired_reviews
unlock_expired_reviews_lem env db =
    let all = expired_bookings env.node_now db in
    elim (Bool-cases (length all == 0)) [
      | inl e ↦
          rw e
            (none_left (is_hidden_of db.bookings env.node_now) all db.reviews e (all_found env db))
      | inr e ↦
          let users =
            distinct (map (λ (r : Review). r.reviewee_id) (rows (is_in all) db.reviews)) in
          let (same, bookings) =
            recalculate_all_reviews users (on_reviews (is_unlocked all) show db) in
          rw (e, same, bookings)
            (none_hidden db.bookings env.node_now all db.reviews (all_found env db))
    ]

abbrev pub shown_of : ℕ → Review → Bool
shown_of booking r = of_booking booking r && r.is_visible

pair_shown :
    (booking : ℕ) (rs : List Review)
    → count (shown_of booking) (update (of_booking booking) show rs) ≡ count (of_booking booking) rs
pair_shown booking [] = refl
pair_shown booking (r ∷ rs) = ground (arith, pair_shown booking rs)

pair_reviews :
    (booking : ℕ) (db : Db)
    → (count (of_booking booking) db.reviews ≡ 2
        → (try_unlock_pair booking db).reviews ≡ update (of_booking booking) show db.reviews)
      × (count (of_booking booking) db.reviews ≡ 1
          → (try_unlock_pair booking db).reviews ≡ db.reviews)
unfolding try_unlock_pair
pair_reviews booking db =
    let pair = rows (of_booking booking) db.reviews in
    let n = count-eq-length-rows (of_booking booking) db.reviews in
    let users = map (λ (r : Review). r.reviewee_id) pair in
    let (same, b) = recalculate_all_reviews users (on_reviews (of_booking booking) show db) in
    (λ e. ground (arith, n, same), λ e. ground (arith, n))

-- The first review of a booking, submitted, stays hidden; the second one publishes both.
pub submit_lem :
    (env : Env) (reviewer : ℕ) (dto : SubmitReviewDto) (db : Db)
    → is_ok (submit env reviewer dto db).0 ≡ true
    → let before = count (of_booking dto.booking_id) db.reviews in
      let db' = (submit env reviewer dto db).1 in
      (before ≡ 0 → count (shown_of dto.booking_id) db'.reviews ≡ 0)
      × (before ≡ 1 → count (shown_of dto.booking_id) db'.reviews ≡ 2)
submit_lem env reviewer dto db made =
    let (b, e) = submit-eq-ok env reviewer dto db made in
    let new = new_review env reviewer dto b in
    let d = dto.booking_id in
    let (two, one) = pair_reviews d (insert_review new db) in
    let n = count-append (of_booking d) db.reviews (new ∷ []) in
    let m = count-append (shown_of d) db.reviews (new ∷ []) in
    let less = count_mono (shown_of d) (of_booking d) db.reviews (λ r h. ground arith) in
    let s = pair_shown d (db.reviews ++ new ∷ []) in
    rw e
      (λ z. ground (arith, n, m, less, one, ==_self d), λ z. ground (arith, n, two, s, ==_self d))
