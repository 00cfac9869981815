-- ===== src/Subscriptions/Activate.antt =====
-- `activate`: the clock of a banked day pass starts. The checks and the conditional update are two
-- steps, between which other requests may run.
pub mod Race
use fann_api.Prelude.{
  ℕ, Bool, true, false, ◌&&◌, not, Option, none, some, List, ◌==◌, if◌then◌else◌, is_some, first,
  update, updated, head?, add_days, Env, Action, Result, ok, err, not_found, bad_request, conflict,
  unique_violation, pure, raise, raise_if, gets, require, ◌>>=◌, ◌>>◌,
}
use fann_api.Billing.{Plan, Subscription, active, is_ready, Db, write_subscriptions}
use fann_api.Subscriptions.Access.{find_plan, get_active_subscription}

abbrev pub owned : ℕ → ℕ → Subscription → Bool
owned user id s = (s.id == id) && (s.user_id == user)

-- the checks, up to the plan's row
unfoldable pub activate_checks : Env → (user id : ℕ) → Action Db Plan
activate_checks env user id = do
  credit ← require (← gets (λ db. first (owned user id) db.subscriptions)) not_found
  raise_if (not (is_ready credit)) bad_request
  running ← gets (λ db. get_active_subscription env.now db.plans db.subscriptions user)
  raise_if (is_some running) conflict
  require (← gets (λ db. find_plan credit.plan_code db.plans)) not_found

abbrev pub ready_owned : ℕ → ℕ → Subscription → Bool
ready_owned user id s = owned user id s && is_ready s

abbrev pub start : Env → Plan → Subscription → Subscription
start env plan s = record s {
  status = active;
  activated_at = some env.now;
  starts_at = some env.now;
  expires_at = some (add_days env.now plan.duration_days);
}

-- the `catch` block turns the unique violation into a 409
abbrev caught : {A : Type 0} → Result A → Result A
caught (ok a) = ok a
caught (err unique_violation) = err conflict
caught (err e) = err e

update_ready : Env → (user id : ℕ) → Plan → Action Db Subscription
update_ready env user id plan = do
  subs ← gets (λ db. db.subscriptions)
  write_subscriptions (update (ready_owned user id) (start env plan) subs)
  require (head? (updated (ready_owned user id) (start env plan) subs)) conflict

-- the conditional update in its `try` block
unfoldable pub activate_write : Env → (user id : ℕ) → Plan → Action Db Subscription
unfolding update_ready
activate_write env user id plan db =
    let (r, db') = update_ready env user id plan db in (caught r, db')

unfoldable pub activate : Env → (user id : ℕ) → Action Db Subscription
unfolding activate_checks activate_write
activate env user id = do plan ← activate_checks env user id; activate_write env user id plan
