-- ===== src/Bookings/Create.antt =====
-- What `create` and `respond` let through.
use fann_api.Prelude.{
  ℕ, ◌≤◌, ◌<◌, ◌≡◌, true, false, none, List, [], ◌∷◌, ◌++◌, arith, Env, count, count-append, first,
  is_some, Bool-cases, inl, inr, ==_iff, first-eq-none, day_ms, ◌/◌, is_ok,
}
use fann_api.Subscriptions.Access.{UserRole}
use fann_api.Bookings.{
  Booking, Db, CreateBookingDto, is_artist, blocks_date, takes_date, create, new_booking,
}

-- No artist has two pending or accepted bookings on one date.
abbrev pub NoDoubleBooking : List Booking → Type 0
NoDoubleBooking bs = (artist date : ℕ) → count (takes_date artist date) bs ≤ 1

module _ (env : Env) (user : ℕ) (role : UserRole) (dto : CreateBookingDto) (db : Db) where
  -- A proposal that is accepted was made by a planner, to an active artist, for a day after today
  -- on which the artist is neither blocked nor booked. It adds exactly the one pending booking.
  pub create-eq-ok :
      is_ok (create env user role dto db).0 ≡ true
      → (role ≡ UserRole.planner)
        × (is_some (first (is_artist dto.artist_id) db.users) ≡ true)
        × (env.node_now / day_ms < dto.event_date)
        × (first (blocks_date dto.artist_id dto.event_date) db.blocks ≡ none)
        × (count (takes_date dto.artist_id dto.event_date) db.bookings ≡ 0)
        × ((create env user role dto db).1.bookings ≡ db.bookings ++ new_booking env user dto ∷ [])
  unfolding create
  create-eq-ok e =
      ground (arith, first-eq-none (takes_date dto.artist_id dto.event_date) db.bookings)

  -- A refused proposal writes nothing.
  pub create-eq-err :
      is_ok (create env user role dto db).0 ≡ false → (create env user role dto db).1 ≡ db
  unfolding create
  create-eq-err e = ground arith

  -- Run one after the other, proposals never book an artist twice on a date.
  pub create-NoDoubleBooking :
      NoDoubleBooking db.bookings → NoDoubleBooking (create env user role dto db).1.bookings
  create-NoDoubleBooking h artist date = elim (Bool-cases (is_ok (create env user role dto db).0)) [
    | inr refused ↦ rw (create-eq-err refused) (h artist date)
    | inl made ↦
        let (p, q, r, s, free, written) = create-eq-ok made in
        rw written (
          ground (
            arith,
            h artist date,
            count-append (takes_date artist date) db.bookings (new_booking env user dto ∷ []),
            ==_iff dto.artist_id artist,
            ==_iff dto.event_date date,
          ))
  ]
