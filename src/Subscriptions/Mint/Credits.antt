-- ===== src/Subscriptions/Mint/Credits.antt =====
-- Day passes are minted as credits.
use fann_api.Prelude.{
  ℕ, zero, suc, ◌≡◌, refl, false, true, some, List, ◌++◌, arith, get_or, length, Env, ok, any,
  count, count-append,
}
use fann_api.Billing.{Subscription, Db, Payment, Plan, PlanCode, plan_eq, day, active_of, is_ready}
use fann_api.Billing.Index.{AtMostOneActive, write_subscriptions-eq-ok}
use fann_api.Subscriptions.Access.{find_plan}
use fann_api.Subscriptions.Mint.{credits, mint_for_payment, find_payment, of_payment}

module _ (env : Env) (user payment : ℕ) (code : PlanCode) where
  credits_lem :
      (n i : ℕ)
      → (length (credits env user payment code n i) ≡ n)
        × (count is_ready (credits env user payment code n i) ≡ n)
        × ((u : ℕ) → count (active_of u) (credits env user payment code n i) ≡ 0)
  credits_lem zero i = (refl, refl, λ u. refl)
  credits_lem (suc n) i =
      let (l, r, a) = credits_lem n (suc i) in (omega arith, omega arith, λ u. ground (arith, a u))

-- A purchase of day passes, whatever else the user holds: as many credits are added as were
-- bought, all of them `ready`, so none of them starts or queues, and the statement cannot meet
-- the unique index.
pub mint_day :
    (env : Env) (db : Db) (payment : Payment) (code : PlanCode) (plan : Plan)
    → find_payment payment.id db ≡ some payment
    → payment.plan_code ≡ some code
    → any (of_payment payment.id) db.subscriptions ≡ false
    → find_plan code db.plans ≡ some plan
    → plan_eq plan.code day ≡ true
    → AtMostOneActive db.subscriptions
    → (new : List Subscription) × (mint_for_payment env payment.id db ≡ (
      ok (record { minted = get_or payment.quantity 1; already_minted = false; new_rows = new }),
      record db { subscriptions = db.subscriptions ++ new },
    ))
      × (count is_ready new ≡ get_or payment.quantity 1)
unfolding mint_for_payment
mint_day env db payment code plan found has_code fresh has_plan is_day h =
    let q = get_or payment.quantity 1 in
    let new = credits env payment.planner_id payment.id plan.code q 0 in
    let (l, r, a) = credits_lem env payment.planner_id payment.id plan.code q 0 in
    let h' : AtMostOneActive (db.subscriptions ++ new) =
      λ u. omega (arith, count-append (active_of u) db.subscriptions new, a u, h u) in
    (new, ground (arith, write_subscriptions-eq-ok (db.subscriptions ++ new) db h', l), r)
