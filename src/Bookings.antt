-- ===== src/Bookings.antt =====
-- src/bookings/bookings.service.ts. A date is its number of days; ISO dates compare in that order.
-- `respond` and `cancel` are each a check on what was read and a conditional write, between which
-- other requests may run; the tables are those of migrations/003_fann_bookings_reviews.sql.
pub mod Lifecycle
pub mod Race
pub mod Create
mod Tests
use fann_api.Prelude.{
  ℕ, ◌/◌, ◌-◌, Bool, true, false, ◌&&◌, ◌||◌, not, Option, none, some, List, [], ◌∷◌, ◌++◌, ◌==◌,
  leb, if◌then◌else◌, Text, is_some, first, rows, update, updated, head?, day_ms, Env, Action,
  Result, ok, err, not_found, bad_request, forbidden, conflict, pure, raise, raise_if, gets, modify,
  require, ◌>>=◌, ◌>>◌,
}
use fann_api.Subscriptions.Access.{UserRole, role_eq}

pub data BookingStatus : Type 0 where
  pending accepted declined cancelled completed : BookingStatus

pub record Booking : Type 0 where
  pub id : ℕ
  pub artist_id : ℕ
  pub planner_id : ℕ
  pub conversation_id : Option ℕ
  pub event_name : Text
  pub event_date : ℕ
  pub event_location : Option Text
  pub duration_hours : Option ℕ
  pub agreed_fee_usd : Option ℕ
  pub notes : Option Text
  pub status : BookingStatus
  pub artist_accepted_at : Option ℕ
  pub planner_accepted_at : Option ℕ
  pub cancelled_by : Option ℕ
  pub cancelled_at : Option ℕ
  pub cancellation_note : Option Text
  pub review_emails_sent_at : Option ℕ

pub record User : Type 0 where
  pub id : ℕ
  pub role : UserRole
  pub is_active : Bool

pub record AvailabilityBlock : Type 0 where
  pub artist_id : ℕ
  pub start_date : ℕ
  pub end_date : ℕ

-- the notifications of this service, by type; each is about a booking
pub data NoticeType : Type 0 where
  booking_request booking_accepted booking_declined booking_cancelled : NoticeType

pub record Notification : Type 0 where
  pub user_id : ℕ
  pub type : NoticeType
  pub booking_id : ℕ

pub record Db : Type 0 where
  pub users : List User
  pub blocks : List AvailabilityBlock
  pub bookings : List Booking
  pub notifications : List Notification

pub record CreateBookingDto : Type 0 where
  pub artist_id : ℕ
  pub conversation_id : Option ℕ
  pub event_name : Text
  pub event_date : ℕ
  pub event_location : Option Text
  pub duration_hours : Option ℕ
  pub agreed_fee_usd : Option ℕ
  pub notes : Option Text

abbrev pub is_pending : Booking → Bool
is_pending b = elim (b.status) [ pending ↦ true | _ ↦ false ]

abbrev pub is_accepted : Booking → Bool
is_accepted b = elim (b.status) [ accepted ↦ true | _ ↦ false ]

-- CANCELLABLE_STATUSES
abbrev pub is_cancellable : Booking → Bool
is_cancellable b = is_pending b || is_accepted b

abbrev pub notify : ℕ → NoticeType → ℕ → Action Db (Unit {0})
notify user type booking = modify (λ db. record db {
  notifications =
      db.notifications ++ record { user_id = user; type = type; booking_id = booking } ∷ [];
})

abbrev pub is_artist : ℕ → User → Bool
is_artist id u = (u.id == id) && role_eq u.role UserRole.artist && u.is_active

abbrev pub blocks_date : ℕ → ℕ → AvailabilityBlock → Bool
blocks_date artist date b = (b.artist_id == artist) && leb b.start_date date && leb date b.end_date

-- a pending or accepted booking of the artist on the date
abbrev pub takes_date : ℕ → ℕ → Booking → Bool
takes_date artist date b = (b.artist_id == artist) && (b.event_date == date) && is_cancellable b

abbrev pub new_booking : Env → (planner : ℕ) → CreateBookingDto → Booking
new_booking env planner dto = record {
  id = env.new_id 0;
  artist_id = dto.artist_id;
  planner_id = planner;
  conversation_id = dto.conversation_id;
  event_name = dto.event_name;
  event_date = dto.event_date;
  event_location = dto.event_location;
  duration_hours = dto.duration_hours;
  agreed_fee_usd = dto.agreed_fee_usd;
  notes = dto.notes;
  status = pending;
  artist_accepted_at = none;
  planner_accepted_at = some env.now;
  cancelled_by = none;
  cancelled_at = none;
  cancellation_note = none;
  review_emails_sent_at = none;
}

-- `create`, by the user with the given role
unfoldable pub create : Env → (user : ℕ) → UserRole → CreateBookingDto → Action Db Booking
create env user role dto = do
  raise_if (not (role_eq role UserRole.planner)) forbidden
  require (← gets (λ db. first (is_artist dto.artist_id) db.users)) not_found
  raise_if (leb dto.event_date (env.node_now / day_ms)) bad_request
  raise_if (← gets (λ db. is_some (first (blocks_date dto.artist_id dto.event_date) db.blocks)))
      bad_request
  raise_if (← gets (λ db. is_some (first (takes_date dto.artist_id dto.event_date) db.bookings)))
      bad_request
  modify (λ db. record db { bookings = db.bookings ++ new_booking env user dto ∷ [] })
  notify dto.artist_id booking_request (env.new_id 0)
  pure (new_booking env user dto)

-- `findAndAssertParticipant`
abbrev pub is_participant : ℕ → Booking → Bool
is_participant user b = (b.artist_id == user) || (b.planner_id == user)

unfoldable pub find_and_assert_participant : ℕ → ℕ → Action Db Booking
find_and_assert_participant user id = do
  booking ← require (← gets (λ db. first (λ b. b.id == id) db.bookings)) not_found
  raise_if (not (is_participant user booking)) forbidden
  pure booking

-- `.where(p).update(f)`, and a 409 if it found no row
abbrev compare_and_swap : (Booking → Bool) → (Booking → Booking) → Action Db Booking
compare_and_swap p f = do
  old ← gets (λ db. db.bookings)
  modify (λ db. record db { bookings = update p f old })
  require (head? (updated p f old)) conflict

abbrev pub pending_id : ℕ → Booking → Bool
pending_id id b = (b.id == id) && is_pending b

abbrev pub cancellable_id : ℕ → Booking → Bool
cancellable_id id b = (b.id == id) && is_cancellable b

abbrev pub accept : Env → Booking → Booking
accept env b = record b { status = accepted; artist_accepted_at = some env.now }

abbrev pub decline : Booking → Booking
decline b = record b { status = declined }

abbrev pub cancelled_row : Env → ℕ → Option Text → Booking → Booking
cancelled_row env user reason b = record b {
  status = cancelled;
  cancelled_by = some user;
  cancelled_at = some env.now;
  cancellation_note = reason;
}

-- the check of `respond`; the result is the row that was read
unfoldable pub respond_checks : (user id : ℕ) → Action Db Booking
unfolding find_and_assert_participant
respond_checks user id = do
  booking ← find_and_assert_participant user id
  raise_if (not (booking.artist_id == user)) forbidden
  raise_if (not (is_pending booking)) bad_request
  pure booking

-- the write of `respond`, on the row that was read; `decision` is true for 'accepted'
unfoldable pub respond_write : Env → (decision : Bool) → Booking → Action Db Booking
respond_write env true read = do
  row ← compare_and_swap (pending_id read.id) (accept env)
  notify read.planner_id booking_accepted read.id
  pure row
respond_write env false read = do
  row ← compare_and_swap (pending_id read.id) decline
  notify read.planner_id booking_declined read.id
  pure row

unfoldable pub respond : Env → (user id : ℕ) → Bool → Action Db Booking
unfolding respond_checks respond_write
respond env user id decision = do read ← respond_checks user id; respond_write env decision read

unfoldable pub cancel_checks : (user id : ℕ) → Action Db Booking
unfolding find_and_assert_participant
cancel_checks user id = do
  booking ← find_and_assert_participant user id
  raise_if (not (is_cancellable booking)) bad_request
  pure booking

unfoldable pub cancel_write : Env → ℕ → Option Text → Booking → Action Db Booking
cancel_write env user reason read = do
  row ← compare_and_swap (cancellable_id read.id) (cancelled_row env user reason)
  notify (if user == read.artist_id then read.planner_id else read.artist_id) booking_cancelled
      read.id
  pure row

unfoldable pub cancel : Env → (user id : ℕ) → Option Text → Action Db Booking
unfolding cancel_checks cancel_write
cancel env user id reason = do read ← cancel_checks user id; cancel_write env user reason read

abbrev pub is_over : ℕ → Booking → Bool
is_over today b = is_accepted b && leb b.event_date (today - 1)

abbrev pub complete : Booking → Booking
complete b = record b { status = completed }

-- `markCompletedBatch`
unfoldable pub mark_completed_batch : Env → Action Db (List Booking)
mark_completed_batch env = do
  old ← gets (λ db. db.bookings)
  let p = is_over (env.node_now / day_ms)
  modify (λ db. record db { bookings = update p complete old })
  pure (updated p complete old)
