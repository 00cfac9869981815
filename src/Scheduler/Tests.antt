-- ===== src/Scheduler/Tests.antt =====
-- Tests and examples of the scheduler's pure helpers.
use fann_api.Prelude.{ℕ, ◌≡◌, refl, arith, some, List, [], ◌∷◌, rows}
use fann_api.Billing.{Subscription, month, SubscriptionStatus, active, expired}
use fann_api.Scheduler.{minus, cron_lock_key, rolled_over_notice, build_maintenance_notifications}
use fann_api.Scheduler.Notices.{told, build_maintenance_notifications_lem}

-- the FNV-1a hash of the letter a, 0xe40c292c, read as a signed integer
key_of_a : cron_lock_key (97 ∷ []) ≡ minus 468_965_076
unfolding cron_lock_key
key_of_a = refl

abbrev row : (id user_id : ℕ) → SubscriptionStatus → Subscription
row id user_id status = record {
  id = id;
  user_id = user_id;
  plan_code = month;
  payment_id = some id;
  status = status;
  activated_at = some 1;
  starts_at = some 1;
  expires_at = some 9;
  created_at = 1;
}

abbrev ended_plans : List Subscription
ended_plans = row 1 51 expired ∷ row 2 52 expired ∷ []

abbrev started_plans : List Subscription
started_plans = row 3 53 active ∷ row 4 51 active ∷ []

build_maintenance_notifications_lem_example :
    rows (told 51) (build_maintenance_notifications ended_plans started_plans)
    ≡ rolled_over_notice (row 1 51 expired) (row 4 51 active) ∷ []
build_maintenance_notifications_lem_example =
    build_maintenance_notifications_lem 51 ended_plans started_plans (omega arith) (omega arith)
