-- ===== src/Bookings/Race.antt =====
-- Accept and Decline fired together: the booker hears of one decision only.
use fann_api.Prelude.{
  ℕ, ◌+◌, ◌≤◌, ◌≡◌, refl, Bool, true, false, ◌&&◌, Option, some, List, [], ◌∷◌, ◌==◌, arith, Env,
  count, update, count-update_self, count-update_drop, count-append, updated, head?, Option-cases,
  inl, inr, ◌<◌, if◌then◌else◌, Text, count_mono, day_ms, ◌/◌,
}
use native.Mathlib.Decide.{ℕ_discrete}
use fann_api.Bookings.{
  Booking, Db, Notification, NoticeType, booking_accepted, booking_declined, booking_cancelled,
  pending_id, cancellable_id, accept, decline, cancelled_row, complete, is_over, respond_write,
  cancel_write, mark_completed_batch, is_pending,
}
use fann_api.Bookings.Lifecycle.{Write, responds, cancels, completes, apply, run}

abbrev pub is_decision : NoticeType → Bool
is_decision booking_accepted = true
is_decision booking_declined = true
is_decision _ = false

-- a notification that tells the decision on the booking
abbrev pub decision_on : ℕ → Notification → Bool
decision_on id n = (n.booking_id == id) && is_decision n.type

-- the decisions told, and the decision that is still open
abbrev told_or_open : ℕ → Db → ℕ
told_or_open id db = count (decision_on id) db.notifications + count (pending_id id) db.bookings

count-head :
    (p : Booking → Bool) (f : Booking → Booking) (bs : List Booking) (b : Booking)
    → head? (updated p f bs) ≡ some b
    → 0 < count p bs
count-head p f [] b e = cc
count-head p f (x ∷ bs) b e = ground (arith, count-head p f bs b)

module _ (id : ℕ) (f : Booking → Booking) (leaves : (b : Booking) → is_pending (f b) ≡ false) where
  pending_drops :
      (q : Booking → Bool) (bs : List Booking)
      → count (pending_id id) (update q f bs) ≤ count (pending_id id) bs
  pending_drops q bs =
      count-update_drop (pending_id id) q f bs (λ b h. let l = leaves b in ground arith)

  pending_gone : (bs : List Booking) → count (pending_id id) (update (pending_id id) f bs) ≡ 0
  pending_gone bs = count-update_self (pending_id id) f bs (λ b h. let l = leaves b in ground arith)

module _ (id : ℕ) (db : Db) (env : Env) (read : Booking) where
  accept_tells : told_or_open id (respond_write env true read db).1 ≤ told_or_open id db
  unfolding respond_write
  accept_tells =
      elim (Option-cases (head? (updated (pending_id read.id) (accept env) db.bookings))) [
        | inl lost ↦
            ground
              (arith, pending_drops id (accept env) (λ b. refl) (pending_id read.id) db.bookings)
        | inr (b, won) ↦ elim (ℕ_discrete id read.id) [
          | yes e ↦ rw e (
              ground (
                arith,
                pending_gone read.id (accept env) (λ b. refl) db.bookings,
                count-head (pending_id read.id) (accept env) db.bookings b won,
                count-append (decision_on read.id) db.notifications (
                    record {
                      user_id = read.planner_id;
                      type = booking_accepted;
                      booking_id = read.id;
                    }
                    ∷ []),
              ))
          | no n ↦ ground (
            arith,
            pending_drops id (accept env) (λ b. refl) (pending_id read.id) db.bookings,
            count-append (decision_on id) db.notifications (
                record { user_id = read.planner_id; type = booking_accepted; booking_id = read.id }
                ∷ []),
          )
        ]
      ]

  decline_tells : told_or_open id (respond_write env false read db).1 ≤ told_or_open id db
  unfolding respond_write
  decline_tells = elim (Option-cases (head? (updated (pending_id read.id) decline db.bookings))) [
    | inl lost ↦
        ground (arith, pending_drops id decline (λ b. refl) (pending_id read.id) db.bookings)
    | inr (b, won) ↦ elim (ℕ_discrete id read.id) [
      | yes e ↦ rw e (
          ground (
            arith,
            pending_gone read.id decline (λ b. refl) db.bookings,
            count-head (pending_id read.id) decline db.bookings b won,
            count-append (decision_on read.id) db.notifications (
                record { user_id = read.planner_id; type = booking_declined; booking_id = read.id }
                ∷ []),
          ))
      | no n ↦ ground (
        arith,
        pending_drops id decline (λ b. refl) (pending_id read.id) db.bookings,
        count-append (decision_on id) db.notifications (
            record { user_id = read.planner_id; type = booking_declined; booking_id = read.id }
            ∷ []),
      )
    ]
  ]

  cancel_tells :
      (user : ℕ) (reason : Option Text)
      → told_or_open id (cancel_write env user reason read db).1 ≤ told_or_open id db
  unfolding cancel_write
  cancel_tells user reason =
      let other = if user == read.artist_id then read.planner_id else read.artist_id in
      ground (
        arith,
        pending_drops id (cancelled_row env user reason) (λ b. refl) (cancellable_id read.id)
            db.bookings,
        count-append (decision_on id) db.notifications
            (record { user_id = other; type = booking_cancelled; booking_id = read.id } ∷ []),
      )

complete_tells :
    (id : ℕ) (db : Db) (env : Env)
    → told_or_open id (mark_completed_batch env db).1 ≤ told_or_open id db
unfolding mark_completed_batch
complete_tells id db env =
    ground
      (arith, pending_drops id complete (λ b. refl) (is_over (env.node_now / day_ms)) db.bookings)

apply_tells : (id : ℕ) (w : Write) (db : Db) → told_or_open id (apply w db) ≤ told_or_open id db
unfolding apply
apply_tells id (responds env true read) db = accept_tells id db env read
apply_tells id (responds env false read) db = decline_tells id db env read
apply_tells id (cancels env user reason read) db = cancel_tells id db env read user reason
apply_tells id (completes env) db = complete_tells id db env

-- Under any interleaving the decisions that are told of a booking, and the one that is still open,
-- never grow in number.
pub run_tells :
    (id : ℕ) (ws : List Write) (db : Db) → told_or_open id (run ws db) ≤ told_or_open id db
unfolding run
run_tells id [] db = omega arith
run_tells id (w ∷ ws) db = omega (arith, apply_tells id w db, run_tells id ws (apply w db))

-- A booking whose id stands in one row, and of which nothing was told: whatever the requests had
-- read, and in whatever order their writes run, at most one of Accept and Decline is told.
pub one_decision_told :
    (id : ℕ) (ws : List Write) (db : Db)
    → count (decision_on id) db.notifications ≡ 0
    → count (λ b. b.id == id) db.bookings ≤ 1
    → count (decision_on id) (run ws db).notifications ≤ 1
one_decision_told id ws db nothing one = omega (
  arith,
  run_tells id ws db,
  count_mono (pending_id id) (λ b. b.id == id) db.bookings (λ b h. ground arith),
)
