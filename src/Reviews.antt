-- ===== src/Reviews.antt =====
-- src/reviews/reviews.service.ts. A review starts hidden, and is published when both parties have
-- written theirs or when the window has run out; the profiles carry the aggregates.
pub mod Recalculation
pub mod Aggregates
pub mod Blind
mod Tests
use fann_api.Prelude.{
  ℕ, ◌+◌, ◌-◌, ◌*◌, ◌/◌, ◌%◌, Bool, true, false, ◌&&◌, ◌||◌, not, Option, none, some, List, [], ◌∷◌,
  ◌++◌, map, ◌==◌, ltb, leb, Text, holds, is_some, any, first, rows, count, length, update, elem,
  distinct, add_days, if◌then◌else◌, Env, Action, Result, ok, err, bad_request, not_found,
  forbidden, pure, raise, require, raise_if, gets, modify, ◌>>=◌, ◌>>◌,
}

pub data ReviewRole : Type 0 where
  artist planner : ReviewRole

pub record Review : Type 0 where
  pub id : ℕ
  pub booking_id : ℕ
  pub reviewer_id : ℕ
  pub reviewee_id : ℕ
  pub reviewer_role : ReviewRole
  pub overall_score : ℕ
  pub score_communication : ℕ
  pub score_professionalism : ℕ
  pub score_punctuality : ℕ
  pub score_quality : ℕ
  pub body : Option Text
  pub is_visible : Bool

-- the columns of a booking that reviews look at
pub record Booking : Type 0 where
  pub id : ℕ
  pub artist_id : ℕ
  pub planner_id : ℕ
  pub is_completed : Bool
  pub review_emails_sent_at : Option ℕ

-- a row of artist_profiles or of planner_profiles; the average is in hundredths
pub record Profile : Type 0 where
  pub user_id : ℕ
  pub avg_rating : Option ℕ
  pub review_count : ℕ

pub record Db : Type 0 where
  pub bookings : List Booking
  pub reviews : List Review
  pub artist_profiles : List Profile
  pub planner_profiles : List Profile

pub record SubmitReviewDto : Type 0 where
  pub booking_id : ℕ
  pub overall_score : ℕ
  pub score_communication : ℕ
  pub score_professionalism : ℕ
  pub score_punctuality : ℕ
  pub score_quality : ℕ
  pub body : Option Text

-- REVIEW_WINDOW_DAYS
abbrev pub review_window_days : ℕ
review_window_days = 7

abbrev pub is_shown_of : ℕ → Review → Bool
is_shown_of user r = (r.reviewee_id == user) && r.is_visible

abbrev pub total_score : List Review → ℕ
total_score [] = 0
total_score (r ∷ rs) = r.overall_score + total_score rs

-- `ROUND(AVG(overall_score), 2)`, in hundredths, a half up; no rows, no average
abbrev pub average : List Review → Option ℕ
average [] = none
average (r ∷ rs) = let n = length (r ∷ rs) in some ((200 * total_score (r ∷ rs) + n) / (2 * n))

-- what the profile of a user should say
abbrev pub patch : List Review → Profile → Profile
patch reviews p =
    let shown = rows (is_shown_of p.user_id) reviews in
    record p { avg_rating = average shown; review_count = length shown }

-- `recalculateAggregate`: whichever profile applies
unfoldable pub recalculate_aggregate : ℕ → Db → Db
recalculate_aggregate user db = record db {
  artist_profiles = update (λ p. p.user_id == user) (patch db.reviews) db.artist_profiles;
  planner_profiles = update (λ p. p.user_id == user) (patch db.reviews) db.planner_profiles;
}

unfoldable pub recalculate_all : List ℕ → Db → Db
unfolding recalculate_aggregate
recalculate_all [] db = db
recalculate_all (u ∷ users) db = recalculate_all users (recalculate_aggregate u db)

abbrev pub of_booking : ℕ → Review → Bool
of_booking id r = r.booking_id == id

abbrev pub show : Review → Review
show r = record r { is_visible = true }

abbrev pub hide : Review → Review
hide r = record r { is_visible = false }

abbrev pub on_reviews : (Review → Bool) → (Review → Review) → Db → Db
on_reviews p f db = record db { reviews = update p f db.reviews }

-- `tryUnlockPair`
unfoldable pub try_unlock_pair : ℕ → Db → Db
unfolding recalculate_all
try_unlock_pair booking db =
    let pair = rows (of_booking booking) db.reviews in
    if length pair == 2
    then recalculate_all (map (λ (r : Review). r.reviewee_id) pair)
        (on_reviews (of_booking booking) show db)
    else db

abbrev pub is_closed : ℕ → Booking → Bool
is_closed now b = holds (λ sent. ltb (add_days sent review_window_days) now) b.review_emails_sent_at

abbrev pub is_written_by : (booking reviewer : ℕ) → Review → Bool
is_written_by booking reviewer r = (r.booking_id == booking) && (r.reviewer_id == reviewer)

abbrev pub new_review : Env → (reviewer : ℕ) → SubmitReviewDto → Booking → Review
new_review env reviewer dto b = record {
  id = env.new_id 0;
  booking_id = dto.booking_id;
  reviewer_id = reviewer;
  reviewee_id = if b.artist_id == reviewer then b.planner_id else b.artist_id;
  reviewer_role = if b.artist_id == reviewer then artist else planner;
  overall_score = dto.overall_score;
  score_communication = dto.score_communication;
  score_professionalism = dto.score_professionalism;
  score_punctuality = dto.score_punctuality;
  score_quality = dto.score_quality;
  body = dto.body;
  is_visible = false;
}

abbrev pub insert_review : Review → Db → Db
insert_review r db = record db { reviews = db.reviews ++ r ∷ [] }

-- `submit`
unfoldable pub submit : Env → (reviewer : ℕ) → SubmitReviewDto → Action Db Review
unfolding try_unlock_pair
submit env reviewer dto = do
  booking ←
      require (← gets (λ db. first (λ (b : Booking). b.id == dto.booking_id) db.bookings)) not_found
  raise_if (not booking.is_completed) bad_request
  raise_if (not ((booking.artist_id == reviewer) || (booking.planner_id == reviewer))) forbidden
  raise_if (is_closed env.node_now booking) bad_request
  raise_if (← gets (λ db. is_some (first (is_written_by dto.booking_id reviewer) db.reviews)))
      bad_request
  modify (insert_review (new_review env reviewer dto booking))
  modify (try_unlock_pair dto.booking_id)
  pure (new_review env reviewer dto booking)

-- completed, with the window run out (`cutoff` is the time less seven days)
abbrev pub is_expired : ℕ → Booking → Bool
is_expired now b =
    b.is_completed
    && holds (λ sent. leb (add_days sent review_window_days) now) b.review_emails_sent_at

abbrev pub is_hidden_of : List Booking → ℕ → Review → Bool
is_hidden_of bookings now r =
    not r.is_visible && any (λ (b : Booking). (b.id == r.booking_id) && is_expired now b) bookings

-- the bookings with a hidden review whose window has run out
abbrev pub expired_bookings : ℕ → Db → List ℕ
expired_bookings now db =
    distinct (map (λ (r : Review). r.booking_id) (rows (is_hidden_of db.bookings now) db.reviews))

abbrev pub is_in : List ℕ → Review → Bool
is_in bookings r = elem r.booking_id bookings

abbrev pub is_unlocked : List ℕ → Review → Bool
is_unlocked bookings r = is_in bookings r && not r.is_visible

-- `unlockExpiredReviews`
unfoldable pub unlock_expired_reviews : Env → Db → ℕ × Db
unfolding recalculate_all
unlock_expired_reviews env db =
    let bookings = expired_bookings env.node_now db in
    if length bookings == 0 then (0, db) else (
      count (is_unlocked bookings) db.reviews,
      recalculate_all
          (distinct (map (λ (r : Review). r.reviewee_id) (rows (is_in bookings) db.reviews)))
          (on_reviews (is_unlocked bookings) show db),
    )

-- `adminRemove`
unfoldable pub admin_remove : (id : ℕ) → Action Db (Unit {0})
unfolding recalculate_aggregate
admin_remove id = do
  review ← require (← gets (λ db. first (λ (r : Review). r.id == id) db.reviews)) not_found
  modify (on_reviews (λ r. r.id == id) hide)
  modify (recalculate_aggregate review.reviewee_id)

abbrev pub by_planner : Review → Bool
by_planner r = elim (r.reviewer_role) [ planner ↦ true | artist ↦ false ]

-- `getForArtist` and `getForPlanner`, without the order and the joined names
abbrev pub get_for_artist : ℕ → Db → List Review
get_for_artist user db = rows (λ r. is_shown_of user r && by_planner r) db.reviews

abbrev pub get_for_planner : ℕ → Db → List Review
get_for_planner user db = rows (λ r. is_shown_of user r && not (by_planner r)) db.reviews
