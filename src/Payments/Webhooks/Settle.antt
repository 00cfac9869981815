-- ===== src/Payments/Webhooks/Settle.antt =====
-- Steps 4 to 6 of the handler, on a payment that is not confirmed.
use fann_api.Subscriptions.Mint.Frame.{mint_for_payment_frame}
use fann_api.Prelude.{ℕ, ◌≡◌, true, ◌⊎◌, inl, inr, arith, Env, ok, is_ok, Result, Bool-cases}
use fann_api.Billing.{Payment, Db}
use fann_api.Subscriptions.Mint.{mint_for_payment}
use fann_api.Payments.Providers.{ParsedWebhook}
use fann_api.Payments.Webhooks.{
  WebhookOutcome, webhook_confirmed, is_as_issued, is_paid, confirm, on_payment, confirm_and_mint,
  settle,
}

-- What a step of the handler leaves: either it confirmed, or it granted nothing.
abbrev pub IsSafe : Db → Result WebhookOutcome × Db → Type 0
IsSafe db (r, db') = (r ≡ ok webhook_confirmed) ⊎ (db'.subscriptions ≡ db.subscriptions)

-- The payment was matched and paid as issued, and exactly its minting was done.
pub record Settled (env : Env) (payment : Payment) (parsed : ParsedWebhook) (db db' : Db)
    : Type 0 where
  pub as_issued : is_as_issued payment parsed ≡ true
  pub is_paid_for : is_paid parsed.status ≡ true
  pub minted :
      db'.subscriptions
      ≡ (mint_for_payment env payment.id (on_payment (confirm env) payment.id db)).1.subscriptions
  pub minting_succeeded :
      is_ok (mint_for_payment env payment.id (on_payment (confirm env) payment.id db)).0 ≡ true
  pub marked : db'.payments ≡ (on_payment (confirm env) payment.id db).payments

module _ (env : Env) (event : ℕ) (payment : Payment) (db : Db) where
  mint-IsSafe : IsSafe db (confirm_and_mint env event payment db)
  unfolding confirm_and_mint
  mint-IsSafe = ground arith

  mint-eq-confirmed :
      (parsed : ParsedWebhook)
      → is_as_issued payment parsed ≡ true
      → is_paid parsed.status ≡ true
      → (confirm_and_mint env event payment db).0 ≡ ok webhook_confirmed
      → Settled env payment parsed db (confirm_and_mint env event payment db).1
  unfolding confirm_and_mint
  mint-eq-confirmed parsed a p e =
      let frame = mint_for_payment_frame env payment.id (on_payment (confirm env) payment.id db) in
      ground (arith, frame.payments)

  module _ (parsed : ParsedWebhook) where
    pub settle-IsSafe : IsSafe db (settle env event payment parsed db)
    unfolding settle
    settle-IsSafe = elim (Bool-cases (is_as_issued payment parsed)) [
      | inl same ↦ elim (Bool-cases (is_paid parsed.status)) [
        | inl done ↦ ground (arith, mint-IsSafe)
        | inr refused ↦ ground arith
      ]
      | inr other ↦ ground arith
    ]

    pub settle-eq-confirmed :
        (settle env event payment parsed db).0 ≡ ok webhook_confirmed
        → Settled env payment parsed db (settle env event payment parsed db).1
    unfolding settle
    settle-eq-confirmed e = elim (Bool-cases (is_as_issued payment parsed)) [
      | inl same ↦ elim (Bool-cases (is_paid parsed.status)) [
        | inl done ↦ rw (same, done) (mint-eq-confirmed parsed same done (rw (same, done) at e))
        | inr refused ↦ absurd (ground arith)
      ]
      | inr other ↦ absurd (ground arith)
    ]
