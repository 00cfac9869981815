-- ===== src/Messaging.antt =====
-- src/messaging/messaging.service.ts. The insertion of an artist's request runs under an advisory
-- lock, so that it is one step; `respondToRequest` checks and then writes. Sends has the messages.
pub mod Sends
pub mod Requests
pub mod Cap
pub mod Races
mod Tests
use fann_api.Prelude.{
  ℕ, Bool, true, false, ◌&&◌, ◌||◌, not, Option, none, some, List, [], ◌∷◌, ◌++◌, ◌==◌, leb, Text,
  is_some, first, count, rows, update, if◌then◌else◌, Env, Action, Result, ok, err, bad_request,
  not_found, forbidden, payment_required, pure, raise, require, raise_if, gets, modify, ◌>>=◌, ◌>>◌,
}
use fann_api.Billing.{Plan, Subscription}
use fann_api.Subscriptions.Access.{
  UserRole, role_eq, SentMessage, get_active_subscription, remaining_messages,
}

pub data ConversationStatus : Type 0 where
  pending accepted declined : ConversationStatus

pub record Conversation : Type 0 where
  pub id : ℕ
  pub artist_id : ℕ
  pub planner_id : ℕ
  pub initiated_by : ℕ
  pub status : ConversationStatus
  pub last_message_at : Option ℕ

pub record Message : Type 0 where
  pub id : ℕ
  pub conversation_id : ℕ
  pub sender_id : ℕ
  pub body : Text
  pub read_at : Option ℕ
  pub created_at : ℕ

pub record User : Type 0 where
  pub id : ℕ
  pub role : UserRole
  pub is_active : Bool

pub data NoticeType : Type 0 where
  message_request message_request_accepted new_message : NoticeType

pub record Notification : Type 0 where
  pub user_id : ℕ
  pub type : NoticeType
  pub conversation_id : ℕ
  pub read_at : Option ℕ

pub record Db : Type 0 where
  pub users : List User
  pub plans : List Plan
  pub subscriptions : List Subscription
  pub conversations : List Conversation
  pub messages : List Message
  pub notifications : List Notification

-- MAX_PENDING_ARTIST_REQUESTS
abbrev pub max_pending_artist_requests : ℕ
max_pending_artist_requests = 10

abbrev pub is_pending : Conversation → Bool
is_pending c = elim (c.status) [ pending ↦ true | _ ↦ false ]

abbrev pub is_declined : Conversation → Bool
is_declined c = elim (c.status) [ declined ↦ true | _ ↦ false ]

abbrev pub is_user : ℕ → UserRole → User → Bool
is_user id role u = (u.id == id) && role_eq u.role role && u.is_active

abbrev pub between : (artist planner : ℕ) → Conversation → Bool
between artist planner c = (c.artist_id == artist) && (c.planner_id == planner)

-- a request that uses up the artist's budget
abbrev pub is_request_of : ℕ → Conversation → Bool
is_request_of artist c = (c.artist_id == artist) && (c.initiated_by == artist) && is_pending c

abbrev pub notify : Notification → Db → Db
notify n db = record db { notifications = db.notifications ++ n ∷ [] }

abbrev pub insert_conversation : Conversation → Db → Db
insert_conversation c db = record db { conversations = db.conversations ++ c ∷ [] }

abbrev pub new_conversation : Env → (artist planner by : ℕ) → ConversationStatus → Conversation
new_conversation env artist planner by status = record {
  id = env.new_id 0;
  artist_id = artist;
  planner_id = planner;
  initiated_by = by;
  status = status;
  last_message_at = none;
}

insert_new : Conversation → Action Db Conversation
insert_new c = do modify (insert_conversation c); pure c

-- the existing conversation is returned as it is
existing_or : Option Conversation → Action Db Conversation → Action Db Conversation
existing_or none m = m
existing_or (some c) m = pure c

unfoldable pub start_as_planner : Env → (planner : ℕ) → Option ℕ → Action Db Conversation
unfolding existing_or insert_new
start_as_planner env planner none = raise bad_request
start_as_planner env planner (some artist_id) = do
  artist ← require (← gets (λ db. first (is_user artist_id UserRole.artist) db.users)) not_found
  raise_if (artist.id == planner) bad_request
  existing ← gets (λ db. first (between artist_id planner) db.conversations)
  existing_or existing (insert_new (new_conversation env artist_id planner planner accepted))

-- the transaction under the lock: count, then insert
unfoldable pub insert_request : Env → (artist planner : ℕ) → Action Db Conversation
unfolding insert_new
insert_request env artist planner = do
  waiting ← gets (λ db. count (is_request_of artist) db.conversations)
  raise_if (leb max_pending_artist_requests waiting) forbidden
  insert_new (new_conversation env artist planner artist pending)

send_request : Env → (artist planner : ℕ) → Action Db Conversation
unfolding insert_request
send_request env artist planner = do
  c ← insert_request env artist planner
  modify (
      notify (record {
        user_id = planner;
        type = message_request;
        conversation_id = c.id;
        read_at = none;
      }))
  pure c

-- a declined request is terminal
existing_request_or : Option Conversation → Action Db Conversation → Action Db Conversation
existing_request_or none m = m
existing_request_or (some c) m = if is_declined c then raise forbidden else pure c

unfoldable pub start_as_artist : Env → (artist : ℕ) → Option ℕ → Action Db Conversation
unfolding existing_request_or send_request
start_as_artist env artist none = raise bad_request
start_as_artist env artist (some planner_id) = do
  planner ← require (← gets (λ db. first (is_user planner_id UserRole.planner) db.users)) not_found
  raise_if (planner.id == artist) bad_request
  existing ← gets (λ db. first (between artist planner_id) db.conversations)
  existing_request_or existing (send_request env artist planner_id)

-- `createConversation`
unfoldable pub create_conversation :
    Env → (user : ℕ) → UserRole → (artist_id planner_id : Option ℕ) → Action Db Conversation
unfolding start_as_planner start_as_artist
create_conversation env user UserRole.planner artist_id planner_id =
    start_as_planner env user artist_id
create_conversation env user UserRole.artist artist_id planner_id =
    start_as_artist env user planner_id
create_conversation env user UserRole.admin artist_id planner_id = raise forbidden

abbrev pub is_participant : ℕ → Conversation → Bool
is_participant user c = (c.artist_id == user) || (c.planner_id == user)

-- `assertParticipant`, and `getConversation`
unfoldable pub assert_participant : (user id : ℕ) → Action Db Conversation
assert_participant user id = do
  c ← require (← gets (λ db. first (λ (c : Conversation). c.id == id) db.conversations)) not_found
  raise_if (not (is_participant user c)) forbidden
  pure c

-- the write of `respondToRequest`, by the id alone
abbrev pub decide_request : ℕ → (accepts : Bool) → Db → Db
decide_request id accepts db = record db {
  conversations =
      update (λ c. c.id == id) (λ c. record c { status = if accepts then accepted else declined })
        db.conversations;
}

tell_accepted : Bool → Conversation → Action Db (Unit {0})
tell_accepted false c = pure tt
tell_accepted true c = modify (
    notify (record {
      user_id = c.artist_id;
      type = message_request_accepted;
      conversation_id = c.id;
      read_at = none;
    }))

unfoldable pub respond_to_request : (planner id : ℕ) → (accepts : Bool) → Action Db (Unit {0})
unfolding assert_participant tell_accepted
respond_to_request planner id accepts = do
  c ← assert_participant planner id
  raise_if (not (c.planner_id == planner)) forbidden
  raise_if (not (is_pending c)) bad_request
  modify (decide_request id accepts)
  tell_accepted accepts c
