-- ===== src/Messaging/Tests.antt =====
-- Runs, and instances of the theorems.
use fann_api.Prelude.{◌+◌, ◌<◌, ◌≡◌, refl, true, false, none, some, List, [], ◌∷◌, arith, count}
use fann_api.Billing.{Subscription, active, day}
use fann_api.Billing.Samples.{noon, held, day_plan}
use fann_api.Subscriptions.Access.{
  UserRole, sent_since, get_active_subscription, remaining_messages,
}
use fann_api.Messaging.{Conversation, Db, accepted, Message, assert_participant}
use fann_api.Messaging.Sends.{
  to_sent, new_message_row, check_send, write_send, assert_within_message_cap,
}
use fann_api.Messaging.Requests.{Capped, Step, creates, decides, run, run-Capped}
use fann_api.Messaging.Races.{Interleaved, checks, writes, stays, goes, run_capped}

-- the planner 1 and the artist 2
abbrev thread : Conversation
thread = record {
  id = 4;
  artist_id = 2;
  planner_id = 1;
  initiated_by = 1;
  status = accepted;
  last_message_at = none;
}

-- a day pass of the planner, since 500
abbrev pass : Subscription
pass = record (held 50 day active (some 9000)) { starts_at = some 500 }

abbrev office : Db
office = record {
  users =
      record { id = 1; role = UserRole.planner; is_active = true }
      ∷ record { id = 2; role = UserRole.artist; is_active = true }
      ∷ [];
  plans = day_plan ∷ [];
  subscriptions = pass ∷ [];
  conversations = thread ∷ [];
  messages = [];
  notifications = [];
}

abbrev steps : List Step
steps = creates noon 2 UserRole.artist none (some 1) ∷ decides 4 false ∷ []

run-Capped_example : Capped (run steps office).conversations
run-Capped_example = run-Capped steps office (λ artist. ground arith)

-- fourteen of the fifteen messages of the pass are sent
abbrev sent_before : List Message
sent_before =
    let m = new_message_row noon 1 4 [] in
    m ∷ m ∷ m ∷ m ∷ m ∷ m ∷ m ∷ m ∷ m ∷ m ∷ m ∷ m ∷ m ∷ m ∷ []

abbrev busy : Db
busy = record office { messages = sent_before }

abbrev after_one : Db
after_one = (write_send noon 1 4 [] thread busy).1

abbrev after_both : Db
after_both = (write_send noon 1 4 [] thread after_one).1

-- two sends pass the checks before either inserts
race : Interleaved 1 pass day_plan 2 (busy, 0) (after_both, 0)
unfolding check_send assert_participant assert_within_message_cap get_active_subscription
    remaining_messages
race =
    goes (busy, 0) (after_one, 1) (after_both, 0)
      (goes (busy, 0) (busy, 2) (after_one, 1)
        (goes (busy, 0) (busy, 1) (busy, 2)
          (goes (busy, 0) (busy, 0) (busy, 1) (stays (busy, 0))
            (checks busy 0 noon 4 refl refl (omega arith)))
          (checks busy 1 noon 4 refl refl (omega arith)))
        (writes busy 1 noon 4 [] thread))
      (writes after_one 0 noon 4 [] thread)

-- and the sixteenth message is written
race_exceeds : count (sent_since 1 500) (to_sent after_both.messages) ≡ 16
unfolding write_send
race_exceeds = refl

run_capped_example : count (sent_since 1 500) (to_sent after_both.messages) < 15 + 2
run_capped_example =
    run_capped 1 pass day_plan 2 15 500 refl refl refl busy after_both 0 (omega arith) (omega arith)
      race
