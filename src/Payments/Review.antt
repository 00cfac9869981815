-- ===== src/Payments/Review.antt =====
-- src/admin/admin.service.ts, `reviewPayment`: an admin confirms or rejects a payment.
pub mod Decision
use fann_api.Prelude.{
  ℕ, Bool, true, false, ◌&&◌, not, Option, none, some, List, [], ◌∷◌, ◌++◌, ◌==◌, first, Text,
  is_some, is_missing, if◌then◌else◌, Env, Action, Result, ok, err, not_found, bad_request, pure,
  require, raise_if, gets, modify, transaction, ◌>>=◌, ◌>>◌,
}
use fann_api.Billing.{
  Payment, PaymentStatus, pending, awaiting_provider, confirmed, rejected, Db, payment_confirmed,
  payment_rejected,
}
use fann_api.Subscriptions.Mint.{Minted, mint_for_payment}
use fann_api.Payments.Webhooks.{on_payment}

-- a row of `audit_log`; `confirmed` tells 'payment.confirmed' from 'payment.rejected'
pub record AuditEntry : Type 0 where
  pub admin_id : ℕ
  pub is_confirmation : Bool
  pub target_id : ℕ
  pub reason : Option Text
  pub payment_id : ℕ
  pub minted : ℕ

pub record AdminDb : Type 0 where
  pub db : Db
  pub audit_log : List AuditEntry

abbrev pub on_db : {A : Type 0} → Action Db A → Action AdminDb A
on_db m s = let (r, db) = m s.db in (r, record s { db = db })

pub record ReviewPaymentDto : Type 0 where
  pub is_confirmation : Bool
  pub rejection_reason : Option Text

abbrev pub is_undecided : Payment → Bool
is_undecided p = elim (p.status) [ pending ↦ true | awaiting_provider ↦ true | _ ↦ false ]

abbrev pub decided : Env → (admin : ℕ) → ReviewPaymentDto → Payment → Payment
decided env admin dto p = record p {
  status = if dto.is_confirmation then confirmed else rejected;
  rejection_reason = dto.rejection_reason;
  confirmed_by = if dto.is_confirmation then some admin else none;
  confirmed_at = if dto.is_confirmation then some env.now else none;
}

mint_if : Bool → Env → ℕ → Action Db ℕ
mint_if true env id = do result ← mint_for_payment env id; pure result.minted
mint_if false env id = pure 0

-- the body of the transaction; the result is the number of subscriptions
unfoldable pub decide : Env → (admin id : ℕ) → ReviewPaymentDto → Action Db ℕ
unfolding mint_if
decide env admin id dto = do
  modify (on_payment (decided env admin dto) id)
  mint_if dto.is_confirmation env id

write_audit : AuditEntry → Action AdminDb (Unit {0})
write_audit e = modify (λ s. record s { audit_log = s.audit_log ++ e ∷ [] })

-- the payer is told
tell : Bool → Payment → Action Db (Unit {0})
tell confirmation p = modify (λ db. record db {
  notifications =
      db.notifications
      ++ record {
        user_id = p.planner_id;
        notice =
            if confirmation
            then payment_confirmed p.id p.plan_code p.quantity
            else payment_rejected p.id;
      }
        ∷ [];
})

unfoldable pub review_payment : Env → (admin id : ℕ) → ReviewPaymentDto → Action AdminDb ℕ
unfolding write_audit tell
review_payment env admin id dto = do
  payment ← require (← gets (λ s. first (λ p. p.id == id) s.db.payments)) not_found
  raise_if (not (is_undecided payment)) bad_request
  raise_if (not dto.is_confirmation && is_missing dto.rejection_reason) bad_request
  minted ← on_db (transaction (decide env admin id dto))
  write_audit (record {
    admin_id = admin;
    is_confirmation = dto.is_confirmation;
    target_id = payment.planner_id;
    reason = dto.rejection_reason;
    payment_id = id;
    minted = minted;
  })
  on_db (tell dto.is_confirmation payment)
  pure minted
