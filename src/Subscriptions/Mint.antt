-- ===== src/Subscriptions/Mint.antt =====
-- `mintForPayment` and `mintDatedPlan`: a confirmed payment becomes subscription rows.
pub mod Frame
pub mod Rows
pub mod Chain
pub mod Once
pub mod Credits
pub mod Stacking
use fann_api.Prelude.{
  ℕ, zero, suc, Bool, true, false, ◌&&◌, Option, none, some, List, [], ◌∷◌, ◌++◌, ◌==◌,
  if◌then◌else◌, holds, get_or, is_some, first, rows, any, order_by, length, add_days, Env, Action,
  ok, err, not_found, pure, raise, gets, require, ◌>>=◌, ◌>>◌,
}
use fann_api.Billing.{
  PlanCode, day, Plan, Subscription, ready, active, queued, Payment, Db, active_of, queued_of,
  write_subscriptions, insert_subscription, plan_eq,
}
use fann_api.Subscriptions.Access.{find_plan}

pub record Minted : Type 0 where
  pub minted : ℕ
  pub already_minted : Bool
  pub new_rows : List Subscription

pub record MintInput : Type 0 where
  pub user_id : ℕ
  pub payment_id : ℕ
  pub plan_code : PlanCode
  pub duration_days : ℕ
  pub quantity : ℕ

-- the day-pass credits, `Array.from({ length: quantity }, …)`, from the i-th new id on
abbrev pub credits : Env → (user payment : ℕ) → PlanCode → (quantity i : ℕ) → List Subscription
credits env user payment code zero i = []
credits env user payment code (suc n) i =
    record {
      id = env.new_id i;
      user_id = user;
      plan_code = code;
      payment_id = some payment;
      status = ready;
      activated_at = none;
      starts_at = none;
      expires_at = none;
      created_at = env.now;
    }
    ∷ credits env user payment code n (suc i)

abbrev pub active_row : Env → MintInput → ℕ → Subscription
active_row env input i = record {
  id = env.new_id i;
  user_id = input.user_id;
  plan_code = input.plan_code;
  payment_id = some input.payment_id;
  status = active;
  activated_at = none;
  starts_at = some env.now;
  expires_at = some (add_days env.now input.duration_days);
  created_at = env.now;
}

abbrev pub queued_row : Env → MintInput → ℕ → ℕ → Subscription
queued_row env input i start = record {
  id = env.new_id i;
  user_id = input.user_id;
  plan_code = input.plan_code;
  payment_id = some input.payment_id;
  status = queued;
  activated_at = none;
  starts_at = some start;
  expires_at = none;
  created_at = env.now;
}

-- the loop of `mintDatedPlan`, with `chainEnd`
unfoldable pub mint_rows :
    Env → MintInput → (left i : ℕ) → (chain_end : Option ℕ) → Action Db (List Subscription)
mint_rows env input zero i chain_end = pure []
mint_rows env input (suc n) i none = do
  row ← insert_subscription (active_row env input i)
  let next = get_or row.expires_at (add_days env.node_now input.duration_days)
  rest ← mint_rows env input n (suc i) (some next)
  pure (row ∷ rest)
mint_rows env input (suc n) i (some end) = do
  row ← insert_subscription (queued_row env input i end)
  rest ← mint_rows env input n (suc i) (some (add_days end input.duration_days))
  pure (row ∷ rest)

-- the durations of the user's queued rows, oldest first; a row without plan drops out of the join
abbrev pub durations : List Plan → List Subscription → List ℕ
durations plans [] = []
durations plans (s ∷ subs) = elim (find_plan s.plan_code plans) [
  | none ↦ durations plans subs
  | some p ↦ p.duration_days ∷ durations plans subs
]

abbrev pub queued_durations : ℕ → Db → List ℕ
queued_durations user db =
    durations db.plans (order_by (λ s. s.created_at) (rows (queued_of user) db.subscriptions))

-- where the chain starts, and the loop over the queued rows
abbrev chain_start : Env → Option Subscription → List ℕ → Option ℕ
chain_start env running ds = elim running [
  | none ↦ if length ds == 0 then none else some env.node_now
  | some s ↦ elim (s.expires_at) [
    | some e ↦ some e
    | none ↦ if length ds == 0 then none else some env.node_now
  ]
]

abbrev extend_chain : Env → Option ℕ → List ℕ → Option ℕ
extend_chain env end [] = end
extend_chain env end (d ∷ ds) = extend_chain env (some (add_days (get_or end env.node_now) d)) ds

unfoldable pub chain_end : Env → ℕ → Db → Option ℕ
chain_end env user db =
    extend_chain env
      (chain_start env (first (active_of user) db.subscriptions) (queued_durations user db))
      (queued_durations user db)

pub mint_dated_plan : Env → MintInput → Action Db Minted
unfolding mint_rows
mint_dated_plan env input = do
  end ← gets (chain_end env input.user_id)
  new ← mint_rows env input input.quantity 0 end
  pure (record { minted = length new; already_minted = false; new_rows = new })

abbrev pub of_payment : ℕ → Subscription → Bool
of_payment payment s = holds (λ p. p == payment) s.payment_id

-- `if (plan.code === 'day')`
mint_credits : Env → Payment → PlanCode → Action Db Minted
mint_credits env payment code = do
  let new = credits env payment.planner_id payment.id code (get_or payment.quantity 1) 0
  old ← gets (λ db. db.subscriptions)
  write_subscriptions (old ++ new)
  pure (record { minted = length new; already_minted = false; new_rows = new })

abbrev pub dated_input : Payment → Plan → MintInput
dated_input payment plan = record {
  user_id = payment.planner_id;
  payment_id = payment.id;
  plan_code = plan.code;
  duration_days = plan.duration_days;
  quantity = get_or payment.quantity 1;
}

mint_plan : Env → Payment → PlanCode → Action Db Minted
unfolding mint_credits mint_dated_plan
mint_plan env payment code = do
  plan ← require (← gets (λ db. find_plan code db.plans)) not_found
  if plan_eq plan.code day
      then mint_credits env payment plan.code
      else mint_dated_plan env (dated_input payment plan)

mint_code : Env → Payment → PlanCode → Action Db Minted
unfolding mint_plan
mint_code env payment code = do
  existing ← gets (λ db. any (of_payment payment.id) db.subscriptions)
  if existing
      then pure (record { minted = 0; already_minted = true; new_rows = [] })
      else mint_plan env payment code

-- a payment from before the plans has no plan code, and mints nothing
mint_optional : Env → Payment → Option PlanCode → Action Db Minted
unfolding mint_code
mint_optional env payment none = pure (record { minted = 0; already_minted = false; new_rows = [] })
mint_optional env payment (some code) = mint_code env payment code

abbrev pub find_payment : ℕ → Db → Option Payment
find_payment id db = first (λ p. p.id == id) db.payments

unfoldable pub mint_for_payment : Env → ℕ → Action Db Minted
unfolding mint_optional
mint_for_payment env payment_id = do
  payment ← require (← gets (find_payment payment_id)) not_found
  mint_optional env payment payment.plan_code
