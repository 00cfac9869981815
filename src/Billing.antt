-- ===== src/Billing.antt =====
-- The tables that src/subscriptions and src/payments share, with the unique index
-- `one_active_sub_per_user` of migrations/018_fann_subscriptions_support_telemetry.sql.
-- Money is in cents, an id is a number, a row's created_at is the time of its insertion.
pub mod Index
pub mod Samples
use fann_api.Prelude.{
  ℕ, Bool, true, false, ◌&&◌, ◌||◌, not, Option, List, [], ◌∷◌, ◌++◌, ◌==◌, if◌then◌else◌, Text,
  count, Action, ok, err, unique_violation, ◌>>◌, pure, JsNumber, Rate,
}

pub data PlanCode : Type 0 where
  day month year : PlanCode

abbrev pub plan_eq : PlanCode → PlanCode → Bool
plan_eq day day = true
plan_eq month month = true
plan_eq year year = true
plan_eq _ _ = false

pub data SubscriptionStatus : Type 0 where
  ready active queued expired cancelled : SubscriptionStatus

pub record Plan : Type 0 where
  pub code : PlanCode
  pub price_usd : ℕ
  pub duration_days : ℕ
  pub requires_id_doc : Bool
  pub message_cap : Option ℕ
  pub is_active : Bool
  pub sort_order : ℕ

pub record Subscription : Type 0 where
  pub id : ℕ
  pub user_id : ℕ
  pub plan_code : PlanCode
  pub payment_id : Option ℕ
  pub status : SubscriptionStatus
  pub activated_at : Option ℕ
  pub starts_at : Option ℕ
  pub expires_at : Option ℕ
  pub created_at : ℕ

pub data PaymentStatus : Type 0 where
  pending awaiting_provider paid confirmed rejected disputed expired : PaymentStatus

pub record Payment : Type 0 where
  pub id : ℕ
  pub planner_id : ℕ
  pub plan_code : Option PlanCode
  pub quantity : Option ℕ
  pub subtotal_usd : ℕ
  pub vat_rate : Rate
  pub vat_usd : ℕ
  pub amount_usd : ℕ
  pub currency : Option Text
  pub provider : Text
  pub provider_ref : Option Text
  pub status : PaymentStatus
  pub transfer_service : Option Text
  pub reference_code : Option Text
  pub intent_expires_at : Option ℕ
  pub confirmed_by : Option ℕ
  pub confirmed_at : Option ℕ
  pub rejection_reason : Option Text
  pub created_at : ℕ

-- payment_webhook_events
pub record WebhookEvent : Type 0 where
  pub id : ℕ
  pub provider : Text
  pub signature_ok : Bool
  pub raw_body : Text
  pub headers : Text
  pub provider_ref : Option Text
  pub event_type : Option Text
  pub payment_id : Option ℕ
  pub processed_at : Option ℕ
  pub has_error : Bool

-- the notifications of these services, by type and data
pub data Notice : Type 0 where
  payment_confirmed : (payment_id : ℕ) → Option PlanCode → Option ℕ → Notice
  payment_rejected : (payment_id : ℕ) → Notice
  payment_disputed : (payment_id expected : ℕ) → JsNumber → Notice
  subscription_expiring : (subscription_id days : ℕ) → Notice

pub record Notification : Type 0 where
  pub user_id : ℕ
  pub notice : Notice

pub record Db : Type 0 where
  pub plans : List Plan
  pub subscriptions : List Subscription
  pub payments : List Payment
  pub events : List WebhookEvent
  pub notifications : List Notification
  pub admins : List ℕ

abbrev pub is_active : Subscription → Bool
is_active r = elim (r.status) [ active ↦ true | _ ↦ false ]

abbrev pub is_queued : Subscription → Bool
is_queued r = elim (r.status) [ queued ↦ true | _ ↦ false ]

abbrev pub is_ready : Subscription → Bool
is_ready r = elim (r.status) [ ready ↦ true | _ ↦ false ]

abbrev pub active_of : ℕ → Subscription → Bool
active_of u r = (r.user_id == u) && is_active r

abbrev pub queued_of : ℕ → Subscription → Bool
queued_of u r = (r.user_id == u) && is_queued r

-- the unique index on (user_id) WHERE status = 'active'
unfoldable pub one_active_per_user : List Subscription → Bool
one_active_per_user [] = true
one_active_per_user (r ∷ t) =
    (not (is_active r) || (count (active_of r.user_id) t == 0)) && one_active_per_user t

-- A statement that would break the index writes nothing and fails with 23505.
unfoldable pub write_subscriptions : List Subscription → Action Db (Unit {0})
unfolding one_active_per_user
write_subscriptions t db =
    if one_active_per_user t
    then (ok tt, record db { subscriptions = t })
    else (err unique_violation, db)

unfoldable pub insert_subscription : Subscription → Action Db Subscription
unfolding write_subscriptions
insert_subscription r db = (write_subscriptions (db.subscriptions ++ r ∷ []) >> pure r) db
