-- ===== src/Billing/Samples.antt =====
-- Concrete tables for the tests.
use fann_api.Prelude.{ℕ, ◌+◌, true, false, Option, none, some, List, [], ◌∷◌, Text, Env}
use fann_api.Billing.{
  PlanCode, day, month, Plan, Subscription, SubscriptionStatus, Payment, awaiting_provider, Db,
}

abbrev pub noon : Env
noon = record { now = 1000; node_now = 1000; new_id = λ i. 100 + i }

abbrev pub later : Env
later = record { now = 5000; node_now = 5000; new_id = λ i. 200 + i }

abbrev pub day_plan : Plan
day_plan = record {
  code = day;
  price_usd = 500;
  duration_days = 1;
  requires_id_doc = false;
  message_cap = some 15;
  is_active = true;
  sort_order = 1;
}

abbrev pub month_plan : Plan
month_plan = record {
  code = month;
  price_usd = 1500;
  duration_days = 30;
  requires_id_doc = true;
  message_cap = none;
  is_active = true;
  sort_order = 2;
}

-- "mock"
abbrev pub mock : Text
mock = 109 ∷ 111 ∷ 99 ∷ 107 ∷ []

-- two units of a plan, by user 1, for 33.30 USD
abbrev pub order : ℕ → PlanCode → Payment
order id code = record {
  id = id;
  planner_id = 1;
  plan_code = some code;
  quantity = some 2;
  subtotal_usd = 3000;
  vat_rate = record { num = 11; den = 100 };
  vat_usd = 330;
  amount_usd = 3330;
  currency = none;
  provider = mock;
  provider_ref = some (1 ∷ 2 ∷ []);
  status = awaiting_provider;
  transfer_service = none;
  reference_code = none;
  intent_expires_at = none;
  confirmed_by = none;
  confirmed_at = none;
  rejection_reason = none;
  created_at = 900;
}

abbrev pub held : (id : ℕ) → PlanCode → SubscriptionStatus → Option ℕ → Subscription
held id code status until = record {
  id = id;
  user_id = 1;
  plan_code = code;
  payment_id = none;
  status = status;
  activated_at = none;
  starts_at = none;
  expires_at = until;
  created_at = id;
}

abbrev pub tables : List Subscription → Db
tables subs = record {
  plans = day_plan ∷ month_plan ∷ [];
  subscriptions = subs;
  payments = order 7 month ∷ order 8 day ∷ [];
  events = [];
  notifications = [];
  admins = 9 ∷ [];
}
