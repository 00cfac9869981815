-- ===== src/Payments/Reconcile.antt =====
-- src/scheduler/scheduler.service.ts, `doPaymentReconciliation`: stale intents age out, and the
-- providers that can be polled are asked.
pub mod Grants
use fann_api.Prelude.{
  ℕ, ◌+◌, ◌*◌, Bool, true, false, ◌&&◌, not, Option, none, some, List, [], ◌∷◌, ◌==◌, ltb, Text,
  text_eq, is_some, holds, rows, update, day_ms, if◌then◌else◌, Env,
}
use fann_api.Billing.{Payment, PaymentStatus, awaiting_provider, rejected, Db}
use fann_api.Payments.Providers.{
  PaymentProvider, ProviderStatus, failed, expired, paid, unknown, manual_code, pollable,
}
use fann_api.Payments.Webhooks.{on_payment, set_status}

-- MANUAL_INTENT_ABANDON_DAYS
abbrev manual_intent_abandon_days : ℕ
manual_intent_abandon_days = 30

abbrev pub is_awaiting : Payment → Bool
is_awaiting p = elim (p.status) [ awaiting_provider ↦ true | _ ↦ false ]

-- the intent of a provider, past its own time
abbrev pub is_run_out : ℕ → Payment → Bool
is_run_out now p =
    is_awaiting p
    && not (text_eq p.provider manual_code)
    && holds (λ e. ltb e now) p.intent_expires_at

-- a manual intent of which no transfer was reported
abbrev pub is_abandoned : ℕ → Payment → Bool
is_abandoned now p =
    is_awaiting p
    && text_eq p.provider manual_code
    && not (is_some p.reference_code)
    && ltb (p.created_at + manual_intent_abandon_days * day_ms) now

-- old enough not to race a webhook: 30 minutes
abbrev pub is_stale : ℕ → Text → Payment → Bool
is_stale now code p =
    is_awaiting p
    && text_eq p.provider code
    && is_some p.provider_ref
    && ltb (p.created_at + 1_800_000) now

abbrev pub expired_status : Payment → Payment
expired_status = set_status PaymentStatus.expired

-- what a poll writes; it never confirms, and the row is found by its id alone
unfoldable pub write_status : ℕ → ProviderStatus → Db → Db
write_status id failed db = on_payment (set_status rejected) id db
write_status id expired db = on_payment expired_status id db
write_status id paid db = db
write_status id unknown db = db

unfoldable pub poll : (Text → Option ProviderStatus) → List Payment → Db → Db
unfolding write_status
poll get_status [] db = db
poll get_status (p ∷ ps) db =
    let db' : Db = elim (p.provider_ref) [
      | none ↦ db
      | some r ↦ elim (get_status r) [ none ↦ db | some s ↦ write_status p.id s db ]
    ] in
    poll get_status ps db'

unfoldable pub poll_all : Env → List PaymentProvider → Db → Db
unfolding poll
poll_all env [] db = db
poll_all env (provider ∷ providers) db =
    let db' : Db = elim (provider.get_status) [
      | none ↦ db
      | some get_status ↦
          if text_eq provider.code manual_code
          then db
          else poll get_status (rows (is_stale env.now provider.code) db.payments) db
    ] in
    poll_all env providers db'

unfoldable pub do_payment_reconciliation : Env → List PaymentProvider → Db → Db
unfolding poll_all
do_payment_reconciliation env providers db =
    let aged = update (is_run_out env.now) expired_status db.payments in
    let kept = update (is_abandoned env.now) expired_status aged in
    poll_all env (pollable providers) (record db { payments = kept })
