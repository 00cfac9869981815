-- ===== src/Subscriptions/Mint/Once.antt =====
-- A retry of a confirmation mints nothing.
use fann_api.Prelude.{
  ℕ, suc, ◌≡◌, true, Option, none, some, [], ◌++◌, arith, get_or, All, Env, ok, any, any-append,
  ==_self,
}
use fann_api.Billing.{Db, Payment, Plan, PlanCode}
use fann_api.Billing.Index.{AtMostOneActive, HasExpiry}
use fann_api.Subscriptions.Mint.{
  MintInput, chain_end, mint_for_payment, find_payment, of_payment, dated_input,
}
use fann_api.Subscriptions.Mint.Rows.{dated_rows}
use fann_api.Subscriptions.Mint.Stacking.{IsDatedPurchase, minted_rows, mint_dated}

-- Once a row of the payment is in the table, a further call changes nothing and says so.
pub mint_again :
    (env : Env) (db : Db) (payment : Payment) (code : PlanCode)
    → find_payment payment.id db ≡ some payment
    → payment.plan_code ≡ some code
    → any (of_payment payment.id) db.subscriptions ≡ true
    → mint_for_payment env payment.id db
      ≡ (ok (record { minted = 0; already_minted = true; new_rows = [] }), db)
unfolding mint_for_payment
mint_again env db payment code found has_code minted = ground arith

any-dated_rows :
    (env : Env) (input : MintInput) (n i : ℕ) (end : Option ℕ)
    → any (of_payment input.payment_id) (dated_rows env input (suc n) i end) ≡ true
unfolding dated_rows
any-dated_rows env input n i none = ground (arith, ==_self input.payment_id)
any-dated_rows env input n i (some e) = ground (arith, ==_self input.payment_id)

any-minted_rows :
    (env : Env) (db : Db) (payment : Payment) (code : PlanCode) (plan : Plan) (n : ℕ)
    → get_or payment.quantity 1 ≡ suc n
    → any (of_payment payment.id) (minted_rows env db payment code plan) ≡ true
unfolding minted_rows dated_rows
any-minted_rows env db payment code plan n q =
    rw q (any-dated_rows env (dated_input payment plan) n 0 (chain_end env payment.planner_id db))

-- Confirming the purchase of a month or a year twice is confirming it once: the second call, at
-- any later time, adds no row.
pub mint_dated_once :
    (env later : Env) (db : Db) (payment : Payment) (code : PlanCode) (plan : Plan) (n : ℕ)
    → IsDatedPurchase db payment code plan
    → AtMostOneActive db.subscriptions
    → All HasExpiry db.subscriptions
    → get_or payment.quantity 1 ≡ suc n
    → let db' = (mint_for_payment env payment.id db).1 in
      mint_for_payment later payment.id db'
      ≡ (ok (record { minted = 0; already_minted = true; new_rows = [] }), db')
mint_dated_once env later db payment code plan n p h x q =
    let rows = minted_rows env db payment code plan in
    rw (mint_dated env db payment code plan p h x) (
      mint_again later (record db { subscriptions = db.subscriptions ++ rows }) payment code p.found
        p.has_code
        (ground (
          arith,
          any-append (of_payment payment.id) db.subscriptions rows,
          any-minted_rows env db payment code plan n q,
        )))
