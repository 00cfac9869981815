-- ===== src/Subscriptions/Reminders.antt =====
-- Renewal reminders: `findDueRenewalReminders` of src/subscriptions/subscriptions.service.ts, and
-- the loop of `doRenewalReminders` of src/scheduler/scheduler.service.ts, without the emails.
pub mod Sent
use fann_api.Prelude.{
  ℕ, ◌+◌, ◌-◌, ◌*◌, ◌/◌, Bool, true, false, ◌&&◌, not, Option, none, some, List, [], ◌∷◌, ◌++◌,
  ◌==◌, ltb, leb, if◌then◌else◌, holds, get_or, first, rows, any, order_by, day_ms, Env, Action, ok,
}
use fann_api.Billing.{
  PlanCode, day, month, year, Subscription, Db, Notice, Notification, subscription_expiring,
  is_active,
}

-- RENEWAL_REMINDER_DAYS
abbrev pub renewal_reminder_days : PlanCode → List ℕ
renewal_reminder_days year = 30 ∷ 7 ∷ 1 ∷ []
renewal_reminder_days month = 3 ∷ []
renewal_reminder_days day = []

-- `wholeDaysUntil`: days or parts of a day left. A time that is past gives 0 here and 0 or less in
-- the source, and both are at most every threshold.
abbrev pub whole_days_until : (now target : ℕ) → ℕ
whole_days_until now target = (target - now + (day_ms - 1)) / day_ms

pub record Reminder : Type 0 where
  pub subscription_id : ℕ
  pub user_id : ℕ
  pub plan_code : PlanCode
  pub days : ℕ

-- active, and `expires_at > now()`
abbrev pub is_running : ℕ → Subscription → Bool
is_running now s = is_active s && holds (λ e. ltb now e) s.expires_at

abbrev pub threshold : ℕ → Subscription → Option ℕ
threshold now s =
    first (leb (whole_days_until now (get_or s.expires_at 0)))
      (order_by (λ t. t) (renewal_reminder_days s.plan_code))

abbrev to_candidate : Subscription → Option ℕ → List Reminder
to_candidate s none = []
to_candidate s (some t) =
    record { subscription_id = s.id; user_id = s.user_id; plan_code = s.plan_code; days = t } ∷ []

abbrev pub candidates : ℕ → List Subscription → List Reminder
candidates now [] = []
candidates now (s ∷ t) = to_candidate s (threshold now s) ++ candidates now t

-- a notification that the query returns and whose key is the candidate's
abbrev pub tells : Reminder → Notice → Bool
tells c (subscription_expiring id days) = (id == c.subscription_id) && (days == c.days)
tells c _ = false

abbrev pub was_sent : List Reminder → List Notification → Reminder → Bool
was_sent cs sent c = any (λ n. any (λ d. d.user_id == n.user_id) cs && tells c n.notice) sent

unfoldable pub find_due_renewal_reminders : Env → Db → List Reminder
find_due_renewal_reminders env db =
    let cs = candidates env.node_now (rows (is_running env.now) db.subscriptions) in
    rows (λ c. not (was_sent cs db.notifications c)) cs

abbrev pub warning : Reminder → Notification
warning c = record { user_id = c.user_id; notice = subscription_expiring c.subscription_id c.days }

-- one notification for each, if the user's row is there
abbrev pub warnings : (has_user : ℕ → Bool) → List Reminder → List Notification
warnings has_user [] = []
warnings has_user (c ∷ cs) =
    if has_user c.user_id then warning c ∷ warnings has_user cs else warnings has_user cs

unfoldable pub do_renewal_reminders : (has_user : ℕ → Bool) → Env → Db → Db
unfolding find_due_renewal_reminders
do_renewal_reminders has_user env db = record db {
  notifications = db.notifications ++ warnings has_user (find_due_renewal_reminders env db);
}
