-- ===== src/Messaging/Races.antt =====
-- The cap on messages where sends of one user run at the same time: the checks of one may come
-- between the checks and the insertion of another.
use fann_api.Prelude.{
  ℕ, suc, ◌+◌, ◌≤◌, ◌<◌, ◌≡◌, true, some, [], ◌∷◌, ◌==◌, arith, Env, Text, is_ok, count,
  count-append, or_else, Option-cases, inl, inr, first,
}
use fann_api.Billing.{Plan, Subscription}
use fann_api.Subscriptions.Access.{sent_since, get_active_subscription, remaining_messages}
use fann_api.Messaging.{Conversation, Db, assert_participant}
use fann_api.Messaging.Sends.{
  to_sent, has_budget, assert_within_message_cap, check_send, write_send, new_message_row,
}
use fann_api.Messaging.Cap.{to_sent-append}

module _ (sender : ℕ) (s : Subscription) (p : Plan) (limit : ℕ) where
  -- One step, on the tables and the number of the sender's requests that are past their checks and
  -- have not inserted: of these there are at most `limit` at a time.
  pub data Step : Db × ℕ → Db × ℕ → Type 0 where
    checks :
        (db : Db) (n : ℕ) (env : Env) (id : ℕ)
        → get_active_subscription env.now db.plans db.subscriptions sender ≡ some (s, p)
        → is_ok (check_send env sender id db).0 ≡ true
        → n < limit
        → Step (db, n) (db, suc n)
    writes :
        (db : Db) (n : ℕ) (env : Env) (id : ℕ) (body : Text) (c : Conversation)
        → Step (db, suc n) ((write_send env sender id body c db).1, n)
    -- the insertion fails
    fails : (db : Db) (n : ℕ) → Step (db, suc n) (db, n)
    -- a request that does not write messages of the sender
    others :
        (db db' : Db) (n : ℕ)
        → ((start : ℕ)
            → count (sent_since sender start) (to_sent db'.messages)
              ≡ count (sent_since sender start) (to_sent db.messages))
        → Step (db, n) (db', n)

  pub data Interleaved : Db × ℕ → Db × ℕ → Type 0 where
    stays : (a : Db × ℕ) → Interleaved a a
    goes : (a b c : Db × ℕ) → Interleaved a b → Step b c → Interleaved a c

  module _ (cap start : ℕ) (owner : s.user_id ≡ sender) (capped : p.message_cap ≡ some cap)
      (since : or_else s.starts_at s.activated_at ≡ some start) where
    abbrev used : Db → ℕ
    used db = count (sent_since sender start) (to_sent db.messages)

    check_budget :
        (db : Db) (env : Env) (id : ℕ)
        → get_active_subscription env.now db.plans db.subscriptions sender ≡ some (s, p)
        → is_ok (check_send env sender id db).0 ≡ true
        → used db < cap
    unfolding check_send assert_participant assert_within_message_cap remaining_messages
    check_budget db env id running e =
        elim (Option-cases (first (λ (c : Conversation). c.id == id) db.conversations)) [
          | inl missing ↦ absurd (ground arith)
          | inr (c, found) ↦
              let budget : has_budget
                    (get_active_subscription env.now db.plans db.subscriptions sender)
                    (to_sent db.messages)
                  ≡ true =
                ground arith in
              let left = rw running at budget in ground (arith, left)
        ]

    write_count :
        (db : Db) (env : Env) (id : ℕ) (body : Text) (c : Conversation)
        → used (write_send env sender id body c db).1 ≤ suc (used db)
    unfolding write_send
    write_count db env id body c =
        let m = new_message_row env sender id body in
        let grown = to_sent-append db.messages m in
        let more =
          count-append (sent_since sender start) (to_sent db.messages) (to_sent (m ∷ [])) in
        ground (arith, grown, more)

    -- messages that are counted, and those that may still come
    abbrev budgeted : Db × ℕ → ℕ
    budgeted (db, n) = used db + n

    step_budgeted : (a b : Db × ℕ) → Step a b → budgeted a < cap + limit → budgeted b < cap + limit
    step_budgeted _ _ (checks db n env id running e below) h =
        omega (arith, check_budget db env id running e, below)
    step_budgeted _ _ (writes db n env id body c) h = omega (arith, write_count db env id body c, h)
    step_budgeted _ _ (fails db n) h = omega (arith, h)
    step_budgeted _ _ (others db db' n same) h = omega (arith, same start, h)

    run_budgeted :
        (a b : Db × ℕ) → Interleaved a b → budgeted a < cap + limit → budgeted b < cap + limit
    run_budgeted _ _ (stays a) h = h
    run_budgeted _ _ (goes a b c r s) h = step_budgeted b c s (run_budgeted a b r h)

    -- However the checks and the insertions of a user's sends interleave with each other and with
    -- requests that write no message of theirs: where the plan that the checks find is one with a
    -- cap, at most `limit` of the sends are between the two at a time, and the user was within the
    -- cap at first, the messages of the running period exceed the cap by less than `limit`. One at
    -- a time keeps the cap.
    pub run_capped :
        (db db' : Db) (n : ℕ)
        → 0 < limit
        → used db ≤ cap
        → Interleaved (db, 0) (db', n)
        → used db' < cap + limit
    run_capped db db' n some_ h r =
        omega (arith, run_budgeted (db, 0) (db', n) r (omega (arith, h)))
