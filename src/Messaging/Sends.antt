-- ===== src/Messaging/Sends.antt =====
-- `sendMessage`, `markRead` and the counts of src/messaging/messaging.service.ts.
use fann_api.Prelude.{
  ℕ, Bool, true, false, ◌&&◌, not, Option, none, some, List, [], ◌∷◌, ◌++◌, ◌==◌, leb, Text,
  is_some, first, count, update, if◌then◌else◌, Env, Action, forbidden, payment_required, pure,
  raise_if, gets, modify, ◌>>=◌, ◌>>◌,
}
use fann_api.Billing.{Plan, Subscription}
use fann_api.Subscriptions.Access.{
  UserRole, role_eq, SentMessage, get_active_subscription, remaining_messages,
}
use fann_api.Messaging.{
  Conversation, Message, NoticeType, Notification, Db, is_pending, is_declined, notify,
  assert_participant, new_message,
}

abbrev pub to_sent : List Message → List SentMessage
to_sent [] = []
to_sent (m ∷ ms) = record { sender_id = m.sender_id; created_at = m.created_at } ∷ to_sent ms

-- nothing to count, no cap, or some messages left
abbrev pub has_budget : Option (Subscription × Plan) → List SentMessage → Bool
has_budget none sent = true
has_budget (some s) sent = elim (remaining_messages sent s) [ none ↦ true | some n ↦ leb 1 n ]

-- `assertWithinMessageCap`
unfoldable pub assert_within_message_cap : Env → (sender : ℕ) → Action Db (Unit {0})
assert_within_message_cap env sender = do
  subscription ← gets (λ db. get_active_subscription env.now db.plans db.subscriptions sender)
  sent ← gets (λ db. to_sent db.messages)
  raise_if (not (has_budget subscription sent)) payment_required

abbrev pub new_message_row : Env → (sender id : ℕ) → Text → Message
new_message_row env sender id body = record {
  id = env.new_id 0;
  conversation_id = id;
  sender_id = sender;
  body = body;
  read_at = none;
  created_at = env.now;
}

-- the transaction of `sendMessage`
abbrev pub write_message : Message → Db → Db
write_message m db = record db {
  messages = db.messages ++ m ∷ [];
  conversations =
      update (λ c. c.id == m.conversation_id)
        (λ c. record c { last_message_at = some m.created_at }) db.conversations;
}

abbrev is_new_message : NoticeType → Bool
is_new_message new_message = true
is_new_message _ = false

abbrev pub unread_of : (user id : ℕ) → Notification → Bool
unread_of user id n =
    (n.user_id == user)
    && is_new_message n.type
    && (n.conversation_id == id)
    && not (is_some n.read_at)

-- `notifyNewMessage`: at most one unread notification for a conversation
abbrev pub notify_new_message : (sender : ℕ) → Conversation → Db → Db
notify_new_message sender c db =
    let recipient = if c.artist_id == sender then c.planner_id else c.artist_id in
    if is_some (first (unread_of recipient c.id) db.notifications)
    then db
    else notify
        (record { user_id = recipient; type = new_message; conversation_id = c.id; read_at = none })
        db

-- the checks of `sendMessage`, up to the cap
unfoldable pub check_send : Env → (sender id : ℕ) → Action Db Conversation
unfolding assert_participant assert_within_message_cap
check_send env sender id = do
  c ← assert_participant sender id
  raise_if (is_declined c) forbidden
  raise_if (is_pending c && not (c.initiated_by == sender)) forbidden
  assert_within_message_cap env sender
  pure c

-- what `sendMessage` writes after them; nothing locks the messages in between
unfoldable pub write_send : Env → (sender id : ℕ) → Text → Conversation → Action Db Message
write_send env sender id body c = do
  modify (write_message (new_message_row env sender id body))
  modify (notify_new_message sender c)
  pure (new_message_row env sender id body)

-- `sendMessage`, of a request that no other one interrupts
unfoldable pub send_message : Env → (sender id : ℕ) → Text → Action Db Message
unfolding check_send write_send
send_message env sender id body = do c ← check_send env sender id; write_send env sender id body c

abbrev pub unread_by : (user id : ℕ) → Message → Bool
unread_by user id m =
    (m.conversation_id == id) && not (is_some m.read_at) && not (m.sender_id == user)

-- `markRead`
unfoldable pub mark_read : Env → (user id : ℕ) → Action Db ℕ
unfolding assert_participant
mark_read env user id = do
  assert_participant user id
  old ← gets (λ db. db.messages)
  modify (λ db. record db {
    messages = update (unread_by user id) (λ m. record m { read_at = some env.now }) old;
  })
  pure (count (unread_by user id) old)

-- the latest message of each thread aside, `listConversations`: who sees which threads, and how
-- many messages wait in each
abbrev pub is_listed : (user : ℕ) → UserRole → Conversation → Bool
is_listed user role c =
    (if role_eq role UserRole.artist then c.artist_id == user else c.planner_id == user)
    && not (is_declined c)

unfoldable pub unread_count : (user : ℕ) → Conversation → Db → ℕ
unread_count user c db = count (unread_by user c.id) db.messages
