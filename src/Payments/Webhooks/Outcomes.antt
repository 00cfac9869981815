-- ===== src/Payments/Webhooks/Outcomes.antt =====
-- A subscription is granted only for a genuine, matching and paid webhook.
use fann_api.Payments.Webhooks.Guards.{
  Reached, stops, stops_or_reaches, matched_db, reaches_settle, stop-ne-confirmed,
}
use fann_api.Payments.Webhooks.Settle.{settle-IsSafe, settle-eq-confirmed}
use fann_api.Prelude.{◌≡◌, refl, true, List, ◌⊎◌, inl, inr, Env, ok, is_ok, Text, sym, ap}
use fann_api.Billing.{Db}
use fann_api.Subscriptions.Mint.{mint_for_payment}
use fann_api.Payments.Providers.{PaymentProvider}
use fann_api.Payments.Webhooks.{
  webhook_confirmed, is_as_issued, is_paid, confirm, on_payment, settle, process,
}

-- A webhook that ended in a grant: it passed the guards, for the amount and in the currency that
-- were issued, and was reported as paid.
pub record Granted (env : Env) (providers : List PaymentProvider) (code body headers : Text)
    (db db' : Db) : Type 0 where
  pub reached : Reached env providers code body headers db
  pub as_issued : is_as_issued reached.payment reached.parsed ≡ true
  pub is_paid_for : is_paid reached.parsed.status ≡ true
  pub marked : db'.payments ≡ (on_payment (confirm env) reached.payment.id db).payments
  pub before : Db
  pub before_subscriptions : before.subscriptions ≡ db.subscriptions
  pub before_plans : before.plans ≡ db.plans
  pub before_payments : before.payments ≡ db'.payments
  pub minting_succeeded : is_ok (mint_for_payment env reached.payment.id before).0 ≡ true
  pub minted : db'.subscriptions ≡ (mint_for_payment env reached.payment.id before).1.subscriptions

module _ (env : Env) (providers : List PaymentProvider) (code body headers : Text) (db : Db) where
  settled :
      (r : Reached env providers code body headers db)
      → process env providers code body headers db
        ≡ settle env
            (env.new_id 0)
            r.payment
            r.parsed
            (matched_db env providers code body headers db r.parsed r.payment)
  settled r =
      reaches_settle env providers code body headers db r.provider r.parsed r.payment r.known
        r.genuine r.readable r.referenced r.open_before

  reached-Granted :
      (r : Reached env providers code body headers db)
      → (process env providers code body headers db).0 ≡ ok webhook_confirmed
      → Granted env providers code body headers db (process env providers code body headers db).1
  unfolding matched_db
  reached-Granted r e =
      let m = matched_db env providers code body headers db r.parsed r.payment in
      let s = settle-eq-confirmed env (env.new_id 0) r.payment m r.parsed (rw (← settled r) e) in
      rw (settled r) (record {
        reached = r;
        as_issued = s.as_issued;
        is_paid_for = s.is_paid_for;
        marked = s.marked;
        before = on_payment (confirm env) r.payment.id m;
        before_subscriptions = refl;
        before_plans = refl;
        before_payments = sym s.marked;
        minting_succeeded = s.minting_succeeded;
        minted = s.minted;
      })

  pub process-eq-confirmed :
      (process env providers code body headers db).0 ≡ ok webhook_confirmed
      → Granted env providers code body headers db (process env providers code body headers db).1
  process-eq-confirmed e = elim (stops_or_reaches env providers code body headers db) [
    | inl stop ↦
        let early = (stops env providers code body headers db stop).0 in
        absurd (stop-ne-confirmed env providers code body headers db stop (cc))
    | inr r ↦ reached-Granted r e
  ]

  -- Whatever arrives, and also where the minting throws, subscriptions change only on the outcome
  -- that confirms.
  pub process-IsSafe :
      let (r, db') = process env providers code body headers db in
      (r ≡ ok webhook_confirmed) ⊎ (db'.subscriptions ≡ db.subscriptions)
  unfolding matched_db
  process-IsSafe = elim (stops_or_reaches env providers code body headers db) [
    | inl stop ↦
        inr (ap (λ (x : Db). x.subscriptions) (stops env providers code body headers db stop).1)
    | inr r ↦ rw (settled r) (
        settle-IsSafe env (env.new_id 0) r.payment
          (matched_db env providers code body headers db r.parsed r.payment) r.parsed)
  ]
