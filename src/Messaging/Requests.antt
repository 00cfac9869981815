-- ===== src/Messaging/Requests.antt =====
-- The cap on an artist's requests that wait for an answer.
use fann_api.Prelude.{
  ℕ, ◌≤◌, ◌≡◌, refl, Bool, Option, none, some, List, [], ◌∷◌, ◌==◌, arith, Env, count, count-append,
  count-update_drop, update, Bool-cases, inl, inr, ==_iff, if◌then◌else◌,
}
use fann_api.Subscriptions.Access.{UserRole}
use fann_api.Messaging.{
  Conversation, Db, Message, pending, accepted, declined, is_request_of, new_conversation,
  start_as_planner, insert_request, start_as_artist, create_conversation, decide_request,
  max_pending_artist_requests,
}
use fann_api.Messaging.Sends.{write_message, notify_new_message}

-- No artist has more requests waiting than the limit.
abbrev pub Capped : List Conversation → Type 0
Capped cs = (artist : ℕ) → count (is_request_of artist) cs ≤ max_pending_artist_requests

-- One step of a request, of which the checks on what was read came at any earlier time.
pub data Step : Type 0 where
  creates : Env → (user : ℕ) → UserRole → (artist_id planner_id : Option ℕ) → Step
  inserts : Env → (artist planner : ℕ) → Step
  decides : (id : ℕ) → (accepts : Bool) → Step
  writes : Message → Step
  tells : (sender : ℕ) → Conversation → Step

unfoldable pub step : Step → Db → Db
step (creates env user role a p) db = (create_conversation env user role a p db).1
step (inserts env artist planner) db = (insert_request env artist planner db).1
step (decides id accepts) db = decide_request id accepts db
step (writes m) db = write_message m db
step (tells sender c) db = notify_new_message sender c db

unfoldable pub run : List Step → Db → Db
run [] db = db
run (s ∷ ss) db = run ss (step s db)

planner-Capped :
    (env : Env) (user : ℕ) (a : Option ℕ) (db : Db)
    → Capped db.conversations
    → Capped (start_as_planner env user a db).1.conversations
unfolding start_as_planner
planner-Capped env user none db h artist = h artist
planner-Capped env user (some a) db h artist = ground (
  arith,
  h artist,
  count-append (is_request_of artist) db.conversations
      (new_conversation env a user user accepted ∷ []),
)

request-Capped :
    (env : Env) (user planner : ℕ) (db : Db)
    → Capped db.conversations
    → Capped (insert_request env user planner db).1.conversations
unfolding insert_request
request-Capped env user planner db h artist = ground (
  arith,
  h artist,
  ==_iff user artist,
  count-append (is_request_of artist) db.conversations
      (new_conversation env user planner user pending ∷ []),
)

artist-Capped :
    (env : Env) (user : ℕ) (p : Option ℕ) (db : Db)
    → Capped db.conversations
    → Capped (start_as_artist env user p db).1.conversations
unfolding start_as_artist
artist-Capped env user none db h artist = h artist
artist-Capped env user (some p) db h artist =
    ground (arith, h artist, request-Capped env user p db h artist)

decide-Capped :
    (id : ℕ) (accepts : Bool) (db : Db)
    → Capped db.conversations
    → Capped (decide_request id accepts db).conversations
decide-Capped id accepts db h artist =
    let drop =
      count-update_drop (is_request_of artist) (λ c. c.id == id)
        (λ c. record c { status = if accepts then accepted else declined }) db.conversations
        (λ c e. elim (Bool-cases accepts) [ inl y ↦ ground arith | inr n ↦ ground arith ]) in
    omega (arith, drop, h artist)

write_same :
    (id artist time : ℕ) (cs : List Conversation)
    → count
        (is_request_of artist)
        (update (λ c. c.id == id) (λ c. record c { last_message_at = some time }) cs)
      ≡ count (is_request_of artist) cs
write_same id artist time [] = refl
write_same id artist time (c ∷ cs) = ground (arith, write_same id artist time cs)

step-Capped : (s : Step) (db : Db) → Capped db.conversations → Capped (step s db).conversations
unfolding step create_conversation
step-Capped (creates env user UserRole.planner a p) db h artist =
    planner-Capped env user a db h artist
step-Capped (creates env user UserRole.artist a p) db h artist =
    artist-Capped env user p db h artist
step-Capped (creates env user UserRole.admin a p) db h artist = h artist
step-Capped (inserts env user p) db h artist = request-Capped env user p db h artist
step-Capped (decides id accepts) db h artist = decide-Capped id accepts db h artist
step-Capped (writes m) db h artist =
    omega (arith, write_same m.conversation_id artist m.created_at db.conversations, h artist)
step-Capped (tells sender c) db h artist = ground (arith, h artist)

-- Whatever users do and in whatever order their steps run, no artist ever has more than ten
-- requests waiting for an answer, if none has before.
pub run-Capped :
    (ss : List Step) (db : Db) → Capped db.conversations → Capped (run ss db).conversations
unfolding run
run-Capped [] db h = h
run-Capped (s ∷ ss) db h = run-Capped ss (step s db) (step-Capped s db h)
