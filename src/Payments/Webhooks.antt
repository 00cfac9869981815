-- ===== src/Payments/Webhooks.antt =====
-- src/payments/webhooks.service.ts: one inbound webhook. An amount is in cents, and the amount in
-- the body is any JS number of cents.
pub mod Settle
pub mod Outcomes
pub mod Guards
pub mod Retry
use fann_api.Prelude.{
  ℕ, ◌+◌, ◌-◌, ◌*◌, Bool, true, false, ◌&&◌, ◌||◌, not, Option, none, some, List, [], ◌∷◌, ◌++◌,
  map, ◌==◌, ltb, leb, if◌then◌else◌, holds, get_or, Text, text_eq, JsNumber, not_finite, negative,
  nonnegative, first, update, Env, Action, Result, ok, err, pure, raise, gets, modify, transaction,
  ◌>>=◌, ◌>>◌,
}
use fann_api.Billing.{
  Payment, PaymentStatus, confirmed, rejected, disputed, WebhookEvent, Db, Notification, Notice,
  payment_confirmed, payment_disputed,
}
use fann_api.Subscriptions.Mint.{mint_for_payment}
use fann_api.Payments.Providers.{
  PaymentProvider, ParsedWebhook, ProviderStatus, paid, failed, unknown, by_code,
}

pub data WebhookOutcome : Type 0 where
  recorded_unknown_provider bad_signature unparseable payment_not_found : WebhookOutcome
  amount_mismatch already_confirmed not_paid webhook_confirmed : WebhookOutcome

-- the event's row, found by its id
abbrev on_event : (WebhookEvent → WebhookEvent) → ℕ → Db → Db
on_event f id db = record db { events = update (λ e. e.id == id) f db.events }

abbrev pub on_payment : (Payment → Payment) → ℕ → Db → Db
on_payment f id db = record db { payments = update (λ p. p.id == id) f db.payments }

-- `finish`
finish : Env → ℕ → WebhookOutcome → Bool → Action Db WebhookOutcome
finish env event outcome error = do
  modify (on_event (λ e. record e { processed_at = some env.now; has_error = error }) event)
  pure outcome

-- `Math.abs(expected - received) < 0.01`, and false for NaN and the infinities
abbrev pub amount_matches : ℕ → JsNumber → Bool
amount_matches expected not_finite = false
amount_matches expected (negative r) = ltb (expected * r.den + r.num) r.den
amount_matches expected (nonnegative r) =
    ltb (expected * r.den) (r.num + r.den) && ltb r.num (expected * r.den + r.den)

-- `toUpperCase`, on the ASCII letters
abbrev to_upper_code : ℕ → ℕ
to_upper_code c = if leb 97 c && leb c 122 then c - 32 else c

abbrev pub to_upper : Text → Text
to_upper = map to_upper_code

-- "USD"
abbrev pub usd : Text
usd = 85 ∷ 83 ∷ 68 ∷ []

abbrev pub currency_matches : Option Text → Option Text → Bool
currency_matches received expected =
    text_eq (to_upper (get_or received [])) (to_upper (get_or expected usd))

abbrev pub is_confirmed : Payment → Bool
is_confirmed p = elim (p.status) [ confirmed ↦ true | _ ↦ false ]

-- `notifyAdminsOfDispute`
notify_admins : ℕ → ℕ → JsNumber → Db → Db
notify_admins payment expected received db = record db {
  notifications =
      db.notifications
      ++ map (λ a. record { user_id = a; notice = payment_disputed payment expected received })
          db.admins;
}

abbrev pub set_status : PaymentStatus → Payment → Payment
set_status s p = record p { status = s }

abbrev pub is_paid : ProviderStatus → Bool
is_paid paid = true
is_paid _ = false

abbrev not_paid_status : ProviderStatus → PaymentStatus
not_paid_status failed = rejected
not_paid_status _ = PaymentStatus.expired

abbrev pub confirm : Env → Payment → Payment
confirm env p = record p { status = confirmed; confirmed_at = some env.now }

-- step 6: the transition and the minting share a transaction, then the buyer is told
confirm_and_mint : Env → ℕ → Payment → Action Db WebhookOutcome
unfolding finish
confirm_and_mint env event payment = do
  transaction (modify (on_payment (confirm env) payment.id) >> mint_for_payment env payment.id)
  modify (λ db. record db {
    notifications =
        db.notifications
        ++ record {
          user_id = payment.planner_id;
          notice = payment_confirmed payment.id payment.plan_code payment.quantity;
        }
          ∷ [];
  })
  finish env event webhook_confirmed false

dispute : Env → ℕ → Payment → ParsedWebhook → Action Db WebhookOutcome
unfolding finish notify_admins
dispute env event payment parsed = do
  modify (on_payment (set_status disputed) payment.id)
  modify (notify_admins payment.id payment.amount_usd parsed.amount)
  finish env event amount_mismatch true

decline : Env → ℕ → Payment → ProviderStatus → Action Db WebhookOutcome
unfolding finish
decline env event payment status = do
  modify (on_payment (set_status (not_paid_status status)) payment.id)
  finish env event not_paid true

abbrev pub is_as_issued : Payment → ParsedWebhook → Bool
is_as_issued payment parsed =
    amount_matches payment.amount_usd parsed.amount
    && currency_matches parsed.currency payment.currency

-- steps 4 to 6, on a payment that is not confirmed
pub settle : Env → ℕ → Payment → ParsedWebhook → Action Db WebhookOutcome
unfolding dispute decline confirm_and_mint
settle env event payment parsed =
    if not (is_as_issued payment parsed)
    then dispute env event payment parsed
    else if is_paid parsed.status
    then confirm_and_mint env event payment
    else decline env event payment parsed.status

abbrev pub is_referenced : Text → Text → Payment → Bool
is_referenced code ref p = text_eq p.provider code && holds (λ r. text_eq r ref) p.provider_ref

-- steps 3 to 6
match_payment : Env → ℕ → Text → ParsedWebhook → Action Db WebhookOutcome
unfolding finish settle
match_payment env event code parsed db =
    elim (first (is_referenced code parsed.provider_ref) db.payments) [
      | none ↦ finish env event payment_not_found true db
      | some payment ↦
          let db' = on_event (λ e. record e { payment_id = some payment.id }) event db in
          if is_confirmed payment
          then finish env event already_confirmed false db'
          else settle env event payment parsed db'
    ]

-- the body of a genuine webhook
after_signature : Env → ℕ → Text → Option ParsedWebhook → Action Db WebhookOutcome
unfolding finish match_payment
after_signature env event code none db = finish env event unparseable true db
after_signature env event code (some parsed) db = match_payment env event code parsed (
    on_event
      (λ e. record e { provider_ref = some parsed.provider_ref; event_type = parsed.event_type })
      event db)

-- steps 2 to 6
from_provider : Env → ℕ → PaymentProvider → Text → Text → Text → Action Db WebhookOutcome
unfolding finish after_signature
from_provider env event provider code body headers db =
    if not (provider.verify_signature body headers)
    then finish env event bad_signature true db
    else after_signature env event code (provider.parse_webhook body)
        (on_event (λ e. record e { signature_ok = true }) event db)

abbrev pub new_event : Env → Text → Text → Text → WebhookEvent
new_event env code body headers = record {
  id = env.new_id 0;
  provider = code;
  signature_ok = false;
  raw_body = body;
  headers = headers;
  provider_ref = none;
  event_type = none;
  payment_id = none;
  processed_at = none;
  has_error = false;
}

abbrev pub record_event : WebhookEvent → Db → Db
record_event e db = record db { events = db.events ++ e ∷ [] }

unfoldable pub process :
    Env → List PaymentProvider → (code body headers : Text) → Action Db WebhookOutcome
unfolding finish from_provider
process env providers code body headers db =
    let db' = record_event (new_event env code body headers) db in
    let event = env.new_id 0 in
    elim (by_code providers code) [
      | none ↦ finish env event recorded_unknown_provider true db'
      | some provider ↦ from_provider env event provider code body headers db'
    ]
