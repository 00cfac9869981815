-- ===== src/Payments/Review/Decision.antt =====
-- What a decision of an admin leaves.
use fann_api.Prelude.{
  ℕ, ◌≡◌, true, false, some, arith, ◌==◌, Env, ok, first, Option-cases, Result-cases, Bool-cases,
  inl, inr, is_missing,
}
use fann_api.Billing.{Payment}
use fann_api.Subscriptions.Mint.{Minted, mint_for_payment}
use fann_api.Payments.Webhooks.{on_payment}
use fann_api.Payments.Review.{
  AdminDb, ReviewPaymentDto, is_undecided, decided, decide, review_payment,
}

module _ (env : Env) (admin id : ℕ) (dto : ReviewPaymentDto) (s : AdminDb) where
  -- A decision that succeeds was made on a payment that awaited one, with a reason if it rejects.
  -- On a confirmation the subscriptions are those that its minting left, and that minting
  -- succeeded and gave the number that is returned; on a rejection none is written.
  pub review_payment-eq-ok :
      (n : ℕ)
      → (review_payment env admin id dto s).0 ≡ ok n
      → let db' = (review_payment env admin id dto s).1.db in
        let marked = on_payment (decided env admin dto) id s.db in
        (payment : Payment) × (first (λ p. p.id == id) s.db.payments ≡ some payment)
        × (is_undecided payment ≡ true)
        × ((dto.is_confirmation ≡ false) → is_missing dto.rejection_reason ≡ false)
        × ((dto.is_confirmation ≡ true)
            → ((m : Minted) × ((mint_for_payment env id marked).0 ≡ ok m) × (n ≡ m.minted))
              × (db'.subscriptions ≡ (mint_for_payment env id marked).1.subscriptions))
        × ((dto.is_confirmation ≡ false)
            → (n ≡ 0) × (db'.subscriptions ≡ s.db.subscriptions) × (db'.payments ≡ marked.payments))
  unfolding review_payment decide
  review_payment-eq-ok n e = elim (Option-cases (first (λ p. p.id == id) s.db.payments)) [
    | inl missing ↦ absurd (ground arith)
    | inr (payment, found) ↦ elim (Bool-cases dto.is_confirmation) [
      | inl yes_ ↦
          let marked = on_payment (decided env admin dto) id s.db in
          elim (Result-cases (mint_for_payment env id marked).0) [
            | inr (_, failed) ↦ absurd (ground arith)
            | inl (m, minted) ↦ (
              payment,
              found,
              ground arith,
              ground arith,
              λ _. ((m, minted, ground arith), ground arith),
              ground arith,
            )
          ]
      | inr no_ ↦ (payment, found, ground arith, ground arith, ground arith, ground arith)
    ]
  ]
