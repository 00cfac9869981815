-- ===== src/Bookings/Lifecycle.antt =====
-- The life of a booking under any interleaving of the conditional writes.
use fann_api.Prelude.{
  ℕ, ◌≡◌, refl, ◌∙◌, Bool, true, false, Option, List, [], ◌∷◌, arith, Bool-cases, inl, inr, Text,
  Env, update, ◌⊎◌, ◌/◌, day_ms,
}
use fann_api.Bookings.{
  Booking, BookingStatus, pending, accepted, declined, cancelled, completed, Db, accept, decline,
  cancelled_row, complete, is_over, pending_id, cancellable_id, respond_write, cancel_write,
  mark_completed_batch,
}

-- The moves of a status: those that the comments of migration 003 name, and the cancellation of a
-- booking that is pending, which CANCELLABLE_STATUSES of the service admits.
pub data Moves : BookingStatus → BookingStatus → Type 0 where
  accepts : Moves pending accepted
  declines : Moves pending declined
  withdraws : Moves pending cancelled
  calls_off : Moves accepted cancelled
  takes_place : Moves accepted completed

pub data Reaches : BookingStatus → BookingStatus → Type 0 where
  here : {s : BookingStatus} → Reaches s s
  next : {s t u : BookingStatus} → Reaches s t → Moves t u → Reaches s u

Reaches-trans : {s t u : BookingStatus} → Reaches s t → Reaches t u → Reaches s u
Reaches-trans r here = r
Reaches-trans r (next q m) = next (Reaches-trans r q) m

-- One write, of a request that had read a row at any earlier time.
pub data Write : Type 0 where
  responds : Env → (decision : Bool) → (read : Booking) → Write
  cancels : Env → (user : ℕ) → (reason : Option Text) → (read : Booking) → Write
  completes : Env → Write

unfoldable pub apply : Write → Db → Db
apply (responds env decision read) db = (respond_write env decision read db).1
apply (cancels env user reason read) db = (cancel_write env user reason read db).1
apply (completes env) db = (mark_completed_batch env db).1

unfoldable pub run : List Write → Db → Db
run [] db = db
run (w ∷ ws) db = run ws (apply w db)

-- A later version of the same booking.
pub record Continues (b b' : Booking) : Type 0 where
  pub id : b'.id ≡ b.id
  pub artist_id : b'.artist_id ≡ b.artist_id
  pub planner_id : b'.planner_id ≡ b.planner_id
  pub event_date : b'.event_date ≡ b.event_date
  pub status : Reaches b.status b'.status

-- Row by row.
abbrev pub AllContinue : List Booking → List Booking → Type 0
AllContinue [] [] = Unit
AllContinue (b ∷ bs) (b' ∷ bs') = Continues b b' × AllContinue bs bs'
AllContinue _ _ = ⊥

continue_same : (b : Booking) → Continues b b
continue_same b = record {
  id = refl;
  artist_id = refl;
  planner_id = refl;
  event_date = refl;
  status = here;
}

all_same : (bs : List Booking) → AllContinue bs bs
all_same [] = tt
all_same (b ∷ bs) = (continue_same b, all_same bs)

Continues-trans : (a b c : Booking) → Continues a b → Continues b c → Continues a c
Continues-trans a b c p q = record {
  id = q.id ∙ p.id;
  artist_id = q.artist_id ∙ p.artist_id;
  planner_id = q.planner_id ∙ p.planner_id;
  event_date = q.event_date ∙ p.event_date;
  status = Reaches-trans p.status q.status;
}

AllContinue-trans :
    (xs bs cs : List Booking) → AllContinue xs bs → AllContinue bs cs → AllContinue xs cs
AllContinue-trans [] [] [] p q = tt
AllContinue-trans [] [] (c ∷ cs) p q = elim q [ ]
AllContinue-trans [] (b ∷ bs) cs p q = elim p [ ]
AllContinue-trans (a ∷ xs) [] cs p q = elim p [ ]
AllContinue-trans (a ∷ xs) (b ∷ bs) [] p q = elim q [ ]
AllContinue-trans (a ∷ xs) (b ∷ bs) (c ∷ cs) (p, ps) (q, qs) =
    (Continues-trans a b c p q, AllContinue-trans xs bs cs ps qs)

update-AllContinue :
    (p : Booking → Bool) (f : Booking → Booking) (bs : List Booking)
    → ((b : Booking) → p b ≡ true → Continues b (f b))
    → AllContinue bs (update p f bs)
update-AllContinue p f [] h = tt
update-AllContinue p f (b ∷ bs) h = elim (Bool-cases (p b)) [
  | inl e ↦ rw e (h b e, update-AllContinue p f bs h)
  | inr e ↦ rw e (continue_same b, update-AllContinue p f bs h)
]

accept-Continues :
    (env : Env) (id : ℕ) (b : Booking) → pending_id id b ≡ true → Continues b (accept env b)
accept-Continues env id b h =
    let s : b.status ≡ pending = ground arith in
    record {
      id = refl;
      artist_id = refl;
      planner_id = refl;
      event_date = refl;
      status = rw s (next here accepts);
    }

decline-Continues : (id : ℕ) (b : Booking) → pending_id id b ≡ true → Continues b (decline b)
decline-Continues id b h =
    let s : b.status ≡ pending = ground arith in
    record {
      id = refl;
      artist_id = refl;
      planner_id = refl;
      event_date = refl;
      status = rw s (next here declines);
    }

cancel-Reaches : (s : BookingStatus) → ((s ≡ pending) ⊎ (s ≡ accepted)) → Reaches s cancelled
cancel-Reaches s (inl e) = rw e (next here withdraws)
cancel-Reaches s (inr e) = rw e (next here calls_off)

cancel-Continues :
    (env : Env) (user : ℕ) (reason : Option Text) (id : ℕ) (b : Booking)
    → cancellable_id id b ≡ true
    → Continues b (cancelled_row env user reason b)
cancel-Continues env user reason id b h = record {
  id = refl;
  artist_id = refl;
  planner_id = refl;
  event_date = refl;
  status = cancel-Reaches b.status (ground arith);
}

complete-Continues : (today : ℕ) (b : Booking) → is_over today b ≡ true → Continues b (complete b)
complete-Continues today b h =
    let s : b.status ≡ accepted = ground arith in
    record {
      id = refl;
      artist_id = refl;
      planner_id = refl;
      event_date = refl;
      status = rw s (next here takes_place);
    }

accept_bookings :
    (env : Env) (read : Booking) (db : Db)
    → (respond_write env true read db).1.bookings
      ≡ update (pending_id read.id) (accept env) db.bookings
unfolding respond_write
accept_bookings env read db = ground arith

decline_bookings :
    (env : Env) (read : Booking) (db : Db)
    → (respond_write env false read db).1.bookings ≡ update (pending_id read.id) decline db.bookings
unfolding respond_write
decline_bookings env read db = ground arith

cancel_bookings :
    (env : Env) (user : ℕ) (reason : Option Text) (read : Booking) (db : Db)
    → (cancel_write env user reason read db).1.bookings
      ≡ update (cancellable_id read.id) (cancelled_row env user reason) db.bookings
unfolding cancel_write
cancel_bookings env user reason read db = ground arith

apply-AllContinue : (w : Write) (db : Db) → AllContinue db.bookings (apply w db).bookings
unfolding apply mark_completed_batch
apply-AllContinue (responds env true read) db = rw accept_bookings (
    update-AllContinue (pending_id read.id) (accept env) db.bookings (accept-Continues env read.id))
apply-AllContinue (responds env false read) db =
    rw decline_bookings
      (update-AllContinue (pending_id read.id) decline db.bookings (decline-Continues read.id))
apply-AllContinue (cancels env user reason read) db = rw cancel_bookings (
    update-AllContinue (cancellable_id read.id) (cancelled_row env user reason) db.bookings
      (cancel-Continues env user reason read.id))
apply-AllContinue (completes env) db =
    update-AllContinue (is_over (env.node_now / day_ms)) complete db.bookings
      (complete-Continues (env.node_now / day_ms))

-- Whatever the requests had read, and in whatever order their conditional writes run, every booking
-- goes only from pending to accepted, declined or cancelled, and from accepted to cancelled or
-- completed: no row is lost or added, and none changes its parties or its date.
pub run-AllContinue : (ws : List Write) (db : Db) → AllContinue db.bookings (run ws db).bookings
unfolding run
run-AllContinue [] db = all_same db.bookings
run-AllContinue (w ∷ ws) db =
    AllContinue-trans db.bookings (apply w db).bookings (run ws (apply w db)).bookings
      (apply-AllContinue w db) (run-AllContinue ws (apply w db))
