-- ===== src/Bookings/Tests.antt =====
-- Runs, and instances of the theorems.
use fann_api.Prelude.{◌≤◌, ◌+◌, refl, true, false, none, some, List, [], ◌∷◌, Env, arith, count}
use fann_api.Subscriptions.Access.{UserRole}
use fann_api.Bookings.{Booking, Db, CreateBookingDto, create, new_booking}
use fann_api.Bookings.Lifecycle.{Write, responds, cancels, run, AllContinue, run-AllContinue}
use fann_api.Bookings.Race.{decision_on, one_decision_told}
use fann_api.Bookings.Create.{NoDoubleBooking, create-NoDoubleBooking}

-- the first day of 1970
abbrev now : Env
now = record { now = 1000; node_now = 1000; new_id = λ i. 300 + i }

-- a proposal to the artist 2 by the planner 1, for the third day
abbrev proposal : CreateBookingDto
proposal = record {
  artist_id = 2;
  conversation_id = none;
  event_name = [];
  event_date = 2;
  event_location = none;
  duration_hours = some 3;
  agreed_fee_usd = none;
  notes = none;
}

abbrev before : Db
before = record {
  users = record { id = 2; role = UserRole.artist; is_active = true } ∷ [];
  blocks = record { artist_id = 2; start_date = 5; end_date = 9 } ∷ [];
  bookings = [];
  notifications = [];
}

abbrev proposed : Booking
proposed = new_booking now 1 proposal

abbrev after : Db
after = record before { bookings = proposed ∷ [] }

create-NoDoubleBooking_example :
    NoDoubleBooking (create now 1 UserRole.planner proposal before).1.bookings
create-NoDoubleBooking_example =
    create-NoDoubleBooking now 1 UserRole.planner proposal before (λ artist date. omega arith)

-- both decisions, and a cancellation, of requests that all read the pending row
abbrev writes : List Write
writes = responds now true proposed ∷ cancels now 1 none proposed ∷ responds now false proposed ∷ []

run-AllContinue_example : AllContinue after.bookings (run writes after).bookings
run-AllContinue_example = run-AllContinue writes after

one_decision_told_example : count (decision_on 300) (run writes after).notifications ≤ 1
one_decision_told_example = one_decision_told 300 writes after refl (omega arith)
