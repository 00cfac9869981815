-- ===== src/Reviews/Tests.antt =====
-- Runs, and instances of the theorems.
use fann_api.Prelude.{◌+◌, ◌==◌, ◌≡◌, refl, true, none, some, [], ◌∷◌, Env, arith, count}
use fann_api.Reviews.{
  Booking, Db, SubmitReviewDto, new_review, submit, recalculate_aggregate, recalculate_all,
  unlock_expired_reviews, is_hidden_of, admin_remove,
}
use fann_api.Reviews.Recalculation.{AggregatesAgree}
use fann_api.Reviews.Aggregates.{submits, perform, perform-AggregatesAgree}
use fann_api.Reviews.Blind.{unlock_expired_reviews_lem, submit_lem, shown_of}

abbrev now : Env
now = record { now = 1000; node_now = 1000; new_id = λ i. 400 + i }

abbrev after_hour : Env
after_hour = record { now = 3_601_000; node_now = 3_601_000; new_id = λ i. 450 + i }

-- eight days later
abbrev after_window : Env
after_window = record { now = 700_000_000; node_now = 700_000_000; new_id = λ i. 500 + i }

-- the artist 2 played for the planner 1
abbrev gig : Booking
gig = record {
  id = 6;
  artist_id = 2;
  planner_id = 1;
  is_completed = true;
  review_emails_sent_at = some 500;
}

abbrev dto : SubmitReviewDto
dto = record {
  booking_id = 6;
  overall_score = 4;
  score_communication = 4;
  score_professionalism = 4;
  score_punctuality = 3;
  score_quality = 5;
  body = none;
}

abbrev clean : Db
clean = record {
  bookings = gig ∷ [];
  reviews = [];
  artist_profiles = record { user_id = 2; avg_rating = none; review_count = 0 } ∷ [];
  planner_profiles = record { user_id = 1; avg_rating = none; review_count = 0 } ∷ [];
}

-- the planner has written
abbrev half : Db
half = record clean { reviews = new_review now 1 dto gig ∷ [] }

submit_lem_example :
    let before = count (λ r. r.booking_id == 6) half.reviews in
    let db' = (submit after_hour 2 dto half).1 in
    (before ≡ 0 → count (shown_of 6) db'.reviews ≡ 0)
    × (before ≡ 1 → count (shown_of 6) db'.reviews ≡ 2)
unfolding submit
submit_lem_example = submit_lem after_hour 2 dto half refl

perform-AggregatesAgree_example : AggregatesAgree (perform (submits after_hour 2 dto) half)
perform-AggregatesAgree_example =
    perform-AggregatesAgree (submits after_hour 2 dto) half (λ id. ground arith)
      (record { artists = (refl, tt); planners = (refl, tt) })

unlock_expired_reviews_lem_example :
    let db' = (unlock_expired_reviews after_window half).1 in
    count (is_hidden_of db'.bookings 700_000_000) db'.reviews ≡ 0
unlock_expired_reviews_lem_example = unlock_expired_reviews_lem after_window half

-- a review that an admin hides after the window is shown again by the next run of the job
republished :
    count
      (shown_of 6)
      (unlock_expired_reviews after_window
        (admin_remove 400 (unlock_expired_reviews after_window half).1).1).1.reviews
    ≡ 1
unfolding unlock_expired_reviews admin_remove recalculate_all recalculate_aggregate
republished = refl
