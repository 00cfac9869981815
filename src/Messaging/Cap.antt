-- ===== src/Messaging/Cap.antt =====
-- The number of messages that a plan includes.
use fann_api.Prelude.{
  ℕ, ◌≤◌, ◌≡◌, refl, true, false, none, some, List, [], ◌∷◌, ◌++◌, ◌==◌, arith, Env, is_ok, count,
  count-append, Option-cases, inl, inr, if◌then◌else◌, Text, first, or_else, first-eq-none, ==_iff,
}
use native.Mathlib.Decide.{ℕ_discrete}
use fann_api.Billing.{Plan, Subscription}
use fann_api.Subscriptions.Access.{sent_since, get_active_subscription, remaining_messages}
use fann_api.Messaging.{
  Conversation, Db, Message, Notification, is_participant, is_declined, is_pending,
  assert_participant, new_message,
}
use fann_api.Messaging.Sends.{
  to_sent, has_budget, assert_within_message_cap, check_send, write_send, send_message,
  new_message_row, unread_of, notify_new_message,
}

pub to_sent-append :
    (ms : List Message) (m : Message) → to_sent (ms ++ m ∷ []) ≡ to_sent ms ++ to_sent (m ∷ [])
to_sent-append [] m = refl
to_sent-append (x ∷ ms) m = ground (arith, to_sent-append ms m)

module _ (env : Env) (sender id : ℕ) (body : Text) (db : Db) where
  -- A message that goes through was sent by a participant of a conversation that was not declined,
  -- who had opened it if it still waits for an answer, and whose plan had a message left.
  pub send_message-eq-ok :
      is_ok (send_message env sender id body db).0 ≡ true
      → (c : Conversation) × (first (λ (c : Conversation). c.id == id) db.conversations ≡ some c)
        × (is_participant sender c ≡ true)
        × (is_declined c ≡ false)
        × ((is_pending c ≡ true) → (c.initiated_by == sender) ≡ true)
        × (has_budget
              (get_active_subscription env.now db.plans db.subscriptions sender)
              (to_sent db.messages)
            ≡ true)
        × ((send_message env sender id body db).1.messages
            ≡ db.messages ++ new_message_row env sender id body ∷ [])
  unfolding send_message check_send write_send assert_participant assert_within_message_cap
  send_message-eq-ok e =
      elim (Option-cases (first (λ (c : Conversation). c.id == id) db.conversations)) [
        | inl missing ↦ absurd (ground arith)
        | inr (c, found) ↦
            (c, found, ground arith, ground arith, ground arith, ground arith, ground arith)
      ]

  module _ (s : Subscription) (p : Plan) (cap start : ℕ)
      (running : get_active_subscription env.now db.plans db.subscriptions sender ≡ some (s, p))
      (owner : s.user_id ≡ sender) (capped : p.message_cap ≡ some cap)
      (since : or_else s.starts_at s.activated_at ≡ some start) where
    -- Under a plan with a cap, a message that goes through leaves the sender within the cap for the
    -- running period.
    pub send_message_capped :
        is_ok (send_message env sender id body db).0 ≡ true
        → count (sent_since sender start) (to_sent (send_message env sender id body db).1.messages)
          ≤ cap
    unfolding remaining_messages
    send_message_capped e =
        let (c, found, a, b, d, budget, written) = send_message-eq-ok e in
        let m = new_message_row env sender id body in
        rw (written, to_sent-append db.messages m)
          (ground (
            arith,
            budget,
            count-append (sent_since sender start) (to_sent db.messages) (to_sent (m ∷ [])),
          ))

abbrev notice : ℕ → ℕ → Notification
notice user id = record { user_id = user; type = new_message; conversation_id = id; read_at = none }

notice_once :
    (r user id d : ℕ) (ns : List Notification)
    → count (unread_of user id) ns ≤ 1
    → first (unread_of r d) ns ≡ none
    → count (unread_of user id) (ns ++ notice r d ∷ []) ≤ 1
notice_once r user id d ns h free =
    let new = count-append (unread_of user id) ns (notice r d ∷ []) in
    elim (ℕ_discrete r user) [
      | no n ↦ ground (arith, h, new, ==_iff r user)
      | yes e ↦ elim (ℕ_discrete d id) [
        | no n ↦ ground (arith, h, new, ==_iff d id)
        | yes f ↦
            let gone = first-eq-none (unread_of r d) ns free in
            ground (arith, new, rw (e, f) at gone)
      ]
    ]

-- No burst piles up: notifying of a new message leaves at most one unread notification for the
-- recipient and the conversation, if there was at most one before.
pub notify_new_message_once :
    (sender user id : ℕ) (c : Conversation) (db : Db)
    → count (unread_of user id) db.notifications ≤ 1
    → count (unread_of user id) (notify_new_message sender c db).notifications ≤ 1
notify_new_message_once sender user id c db h =
    let r = if c.artist_id == sender then c.planner_id else c.artist_id in
    elim (Option-cases (first (unread_of r c.id) db.notifications)) [
      | inl free ↦ rw free (notice_once r user id c.id db.notifications h free)
      | inr (n, told) ↦ rw told h
    ]
