-- ===== src/Subscriptions/Purchase.antt =====
-- The reads and the purchase of src/subscriptions/subscriptions.service.ts. What the provider
-- answers to `createIntent` is a parameter, as is the column `users.account_code`.
pub mod Intents
use fann_api.Prelude.{
  ℕ, ◌*◌, Bool, true, false, ◌&&◌, ◌||◌, not, Option, none, some, List, [], ◌∷◌, ◌++◌, map, ◌==◌,
  Text, Rate, product, hundredths, whole, to_cents, four_decimals, first, rows, update, updated,
  order_by, get_or, count, Env, Action, Result, ok, err, not_found, pure, require, gets, modify,
  raise_if, ◌>>=◌, ◌>>◌, leb, if◌then◌else◌, is_some,
}
use fann_api.Vat.{VatBreakdown, vat_breakdown}
use fann_api.Billing.{
  PlanCode, plan_eq, Plan, Subscription, SubscriptionStatus, expired, cancelled, Payment,
  PaymentStatus, pending, awaiting_provider, Db, is_queued, is_ready,
}
use fann_api.Subscriptions.Access.{
  SentMessage, find_plan, get_active_subscription, remaining_messages,
}
use fann_api.Payments.Webhooks.{usd}

pub record CreatePaymentIntentDto : Type 0 where
  pub plan_code : PlanCode
  pub quantity : Option ℕ
  pub transfer_service : Option Text
  pub reference_code : Option Text

pub record CreateIntentInput : Type 0 where
  pub payment_id : ℕ
  pub amount_usd : ℕ
  pub currency : Text
  pub user_id : ℕ
  pub account_code : Text
  pub plan_code : PlanCode
  pub quantity : ℕ

pub record PaymentIntent : Type 0 where
  pub provider_ref : Text
  pub redirect_url : Option Text
  pub instructions : Option Text
  pub expires_at : Option ℕ

-- a plan card, with the rate of the day
pub record PlanCard : Type 0 where
  pub plan : Plan
  pub vat_rate : Rate

-- `listPlans`
pub list_plans : Rate → Action Db (List PlanCard)
list_plans rate = gets (λ db.
    map (λ (p : Plan). record { plan = p; vat_rate = rate })
      (order_by (λ (p : Plan). p.sort_order) (rows (λ (p : Plan). p.is_active) db.plans)))

pub record Mine : Type 0 where
  pub active : Option ((Subscription × Plan) × Option ℕ)
  pub queued : List Subscription
  pub credits : List Subscription
  pub history : List Subscription

abbrev is_past : Subscription → Bool
is_past s = elim (s.status) [ expired ↦ true | cancelled ↦ true | _ ↦ false ]

abbrev reversed : {A : Type 0} → List A → List A → List A
reversed [] ys = ys
reversed (x ∷ xs) ys = reversed xs (x ∷ ys)

abbrev with_remaining :
    List SentMessage → Option (Subscription × Plan) → Option ((Subscription × Plan) × Option ℕ)
with_remaining messages none = none
with_remaining messages (some a) = some (a, remaining_messages messages a)

abbrev rows_of : ℕ → Db → List Subscription
rows_of user db =
    order_by (λ (s : Subscription). s.created_at)
      (rows (λ s. (s.user_id == user) && is_some (find_plan s.plan_code db.plans)) db.subscriptions)

-- `getMine`
pub get_mine : Env → List SentMessage → (user : ℕ) → Action Db Mine
unfolding get_active_subscription
get_mine env messages user = gets (λ db. record {
  active = with_remaining messages (get_active_subscription env.now db.plans db.subscriptions user);
  queued = rows is_queued (rows_of user db);
  credits = rows is_ready (rows_of user db);
  history = reversed (rows is_past (rows_of user db)) [];
})

abbrev pub on_sale : PlanCode → Plan → Bool
on_sale code p = plan_eq p.code code && p.is_active

-- the row of the purchase, before the provider is asked
abbrev pub new_payment :
    Env → Rate → (provider : Text) → ℕ → CreatePaymentIntentDto → Plan → Payment
new_payment env rate provider user dto plan =
    let b =
      vat_breakdown (product (hundredths plan.price_usd) (whole (get_or dto.quantity 1))) rate in
    record {
      id = env.new_id 0;
      planner_id = user;
      plan_code = some dto.plan_code;
      quantity = some (get_or dto.quantity 1);
      subtotal_usd = to_cents b.subtotal_usd;
      vat_rate = four_decimals b.vat_rate;
      vat_usd = to_cents b.vat_usd;
      amount_usd = to_cents b.total_usd;
      currency = some usd;
      provider = provider;
      provider_ref = none;
      status = pending;
      transfer_service = dto.transfer_service;
      reference_code = dto.reference_code;
      intent_expires_at = none;
      confirmed_by = none;
      confirmed_at = none;
      rejection_reason = none;
      created_at = env.now;
    }

abbrev pub with_intent : PaymentIntent → Payment → Payment
with_intent intent p = record p {
  provider_ref = some intent.provider_ref;
  status = awaiting_provider;
  intent_expires_at = intent.expires_at;
}

module _ (create_intent : CreateIntentInput → Result PaymentIntent)
    (account_code : ℕ → Option Text) where
  abbrev pub intent_input : ℕ → CreatePaymentIntentDto → Payment → CreateIntentInput
  intent_input user dto p = record {
    payment_id = p.id;
    amount_usd = p.amount_usd;
    currency = usd;
    user_id = user;
    account_code = get_or (account_code user) [];
    plan_code = dto.plan_code;
    quantity = get_or dto.quantity 1;
  }

  -- the call of the provider, which does not see the tables
  abbrev ask_provider : ℕ → CreatePaymentIntentDto → Payment → Action Db PaymentIntent
  ask_provider user dto p db = (create_intent (intent_input user dto p), db)

  -- `createPaymentIntent`, with the code of the active provider
  unfoldable pub create_payment_intent :
      Env → Rate → (provider : Text) → (user : ℕ) → CreatePaymentIntentDto → Action Db Payment
  create_payment_intent env rate provider user dto = do
    plan ← require (← gets (λ db. first (on_sale dto.plan_code) db.plans)) not_found
    let payment = new_payment env rate provider user dto plan
    modify (λ db. record db { payments = db.payments ++ payment ∷ [] })
    intent ← ask_provider user dto payment
    modify (λ db. record db {
      payments = update (λ p. p.id == payment.id) (with_intent intent) db.payments;
    })
    pure (record payment { status = awaiting_provider })

abbrev mine : (user id : ℕ) → Payment → Bool
mine user id p = (p.id == id) && (p.planner_id == user)

-- `getMyPayment`
pub get_my_payment : (user id : ℕ) → Action Db Payment
get_my_payment user id = do require (← gets (λ db. first (mine user id) db.payments)) not_found

abbrev pub is_open : Payment → Bool
is_open p = elim (p.status) [ pending ↦ true | awaiting_provider ↦ true | _ ↦ false ]

abbrev pub reported : Text → Text → Payment → Payment
reported service reference p = record p {
  transfer_service = some service;
  reference_code = some reference;
}

abbrev pub reportable : (user id : ℕ) → Payment → Bool
reportable user id p = mine user id p && is_open p

-- `reportTransfer`
unfoldable pub report_transfer : (user id : ℕ) → (service reference : Text) → Action Db (Unit {0})
report_transfer user id service reference = do
  old ← gets (λ db. db.payments)
  modify
      (λ db. record db { payments = update (reportable user id) (reported service reference) old })
  raise_if (count (reportable user id) old == 0) not_found
