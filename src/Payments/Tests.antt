-- ===== src/Payments/Tests.antt =====
-- Runs, and instances of the theorems.
use fann_api.Subscriptions.Mint.{Minted, mint_for_payment, chain_end}
use fann_api.Prelude.{
  ℕ, ◌≡◌, ◌<◌, ◌==◌, arith, is_missing, first, count, refl, ◌⊎◌, true, false, none, some, List, [],
  ◌∷◌, ok, nonnegative, Text, rows, Option, ◌&&◌,
}
use fann_api.Billing.{
  Db, Payment, month, write_subscriptions, one_active_per_user, insert_subscription,
}
use fann_api.Billing.Samples.{noon, later, mock, tables, order}
use fann_api.Payments.Providers.{PaymentProvider, ProviderStatus, paid, failed, manual_provider}
use fann_api.Payments.Webhooks.{
  process, usd, on_payment, is_confirmed, webhook_confirmed, already_confirmed,
}
use fann_api.Payments.Review.{
  AdminDb, ReviewPaymentDto, is_undecided, decided, review_payment, decide,
}
use fann_api.Payments.Review.Decision.{review_payment-eq-ok}
use fann_api.Payments.Reconcile.{is_stale, poll, do_payment_reconciliation}
use fann_api.Payments.Reconcile.Grants.{
  GrantsNothing, do_payment_reconciliation-GrantsNothing, poll_overwrites,
}
use fann_api.Payments.Webhooks.Retry.{process-process}
use fann_api.Payments.Webhooks.Outcomes.{process-IsSafe}

-- a provider that signs with the body itself, and reports the payment 7 as paid
abbrev mock_provider : PaymentProvider
mock_provider = record {
  code = mock;
  verify_signature = λ body headers. true;
  parse_webhook = λ body. some (record {
    provider_ref = 1 ∷ 2 ∷ [];
    status = paid;
    amount = nonnegative (record { num = 3330; den = 1 });
    currency = some usd;
    event_type = none;
  });
  get_status = none;
}

abbrev providers : List PaymentProvider
providers = manual_provider ∷ mock_provider ∷ []

process-IsSafe_example :
    let (r, db') = process noon providers mock [] [] (tables []) in
    (r ≡ ok webhook_confirmed) ⊎ (db'.subscriptions ≡ (tables []).subscriptions)
process-IsSafe_example = process-IsSafe noon providers mock [] [] (tables [])

abbrev after_webhook : Db
after_webhook = (process noon providers mock [] [] (tables [])).1

process-process_example :
    let (r', db'') = process later providers mock [] [] after_webhook in
    (r' ≡ ok already_confirmed) × (db'' ≡ record after_webhook { events = db''.events })
unfolding process mint_for_payment chain_end write_subscriptions one_active_per_user
    insert_subscription
process-process_example = process-process noon later providers mock [] [] (tables []) refl

-- the admin 9 confirms the payment 7
abbrev desk : AdminDb
desk = record { db = tables []; audit_log = [] }

abbrev approval : ReviewPaymentDto
approval = record { is_confirmation = true; rejection_reason = none }

review_payment-eq-ok_example :
    let db' = (review_payment noon 9 7 approval desk).1.db in
    let marked = on_payment (decided noon 9 approval) 7 (tables []) in
    (payment : Payment) × (first (λ p. p.id == 7) desk.db.payments ≡ some payment)
    × (is_undecided payment ≡ true)
    × ((approval.is_confirmation ≡ false) → is_missing approval.rejection_reason ≡ false)
    × ((approval.is_confirmation ≡ true)
        → ((m : Minted) × ((mint_for_payment noon 7 marked).0 ≡ ok m) × (2 ≡ m.minted))
          × (db'.subscriptions ≡ (mint_for_payment noon 7 marked).1.subscriptions))
    × ((approval.is_confirmation ≡ false)
        → (◌≡◌ {A = ℕ} 2 0)
          × (db'.subscriptions ≡ desk.db.subscriptions)
          × (db'.payments ≡ marked.payments))
unfolding review_payment mint_for_payment chain_end write_subscriptions one_active_per_user
    insert_subscription decide
review_payment-eq-ok_example = review_payment-eq-ok noon 9 7 approval desk 2 refl

-- no reason is given
abbrev refusal : ReviewPaymentDto
refusal = record { is_confirmation = false; rejection_reason = none }

do_payment_reconciliation-GrantsNothing_example :
    GrantsNothing (tables []) (do_payment_reconciliation later providers (tables []))
do_payment_reconciliation-GrantsNothing_example =
    do_payment_reconciliation-GrantsNothing later providers (tables [])

abbrev refused : Text → Option ProviderStatus
refused ref = some failed

-- the poll has read the payment 7 when the webhook confirms it
poll_overwrites_example :
    let stale = rows (is_stale 2_000_000 mock) (tables []).payments in
    let db' = poll refused stale after_webhook in
    (count is_confirmed db'.payments < count is_confirmed after_webhook.payments)
    × (count (λ q. (q.id == 7) && is_confirmed q) db'.payments ≡ 0)
    × (db'.subscriptions ≡ after_webhook.subscriptions)
unfolding process mint_for_payment chain_end write_subscriptions one_active_per_user
    insert_subscription
poll_overwrites_example =
    poll_overwrites 2_000_000 7 mock (1 ∷ 2 ∷ []) refused (order 7 month) (tables []) after_webhook
      refl refl refl (omega arith)
