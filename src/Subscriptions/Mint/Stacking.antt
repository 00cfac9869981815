-- ===== src/Subscriptions/Mint/Stacking.antt =====
-- Month and year purchases stack: how many rows are minted, and which of them starts now.
use fann_api.Prelude.{
  ℕ, suc, ◌≡◌, false, none, some, List, [], ◌++◌, arith, get_or, length, All, count, Env, ok, inl,
  inr, ◌⊎◌, ◌≢◌, Option-cases, any, first, ◌<◌,
}
use fann_api.Billing.{Subscription, Db, active_of, queued_of, Payment, Plan, PlanCode, plan_eq, day}
use fann_api.Billing.Index.{AtMostOneActive, HasExpiry}
use fann_api.Subscriptions.Access.{find_plan}
use fann_api.Subscriptions.Mint.{
  chain_end, active_row, queued_durations, mint_for_payment, dated_input, find_payment, of_payment,
}
use fann_api.Subscriptions.Mint.Rows.{dated_rows, mint_rows_lem}
use fann_api.Subscriptions.Mint.Chain.{
  chain_end-eq-none, chain_end_free, length-dated_rows, queued-dated_rows, active-dated_rows,
}

-- A payment for a month or a year that has not been minted.
pub record IsDatedPurchase (db : Db) (payment : Payment) (code : PlanCode) (plan : Plan)
    : Type 0 where
  pub found : find_payment payment.id db ≡ some payment
  pub has_code : payment.plan_code ≡ some code
  pub fresh : any (of_payment payment.id) db.subscriptions ≡ false
  pub has_plan : find_plan code db.plans ≡ some plan
  pub dated : plan_eq plan.code day ≡ false

module _ (env : Env) (db : Db) (payment : Payment) (code : PlanCode) (plan : Plan) where
  unfoldable pub minted_rows : List Subscription
  minted_rows =
      dated_rows env (dated_input payment plan) (get_or payment.quantity 1) 0
        (chain_end env payment.planner_id db)

  pub mint_dated :
      IsDatedPurchase db payment code plan
      → AtMostOneActive db.subscriptions
      → All HasExpiry db.subscriptions
      → mint_for_payment env payment.id db ≡ (
        ok (record { minted = length minted_rows; already_minted = false; new_rows = minted_rows }),
        record db { subscriptions = db.subscriptions ++ minted_rows },
      )
  unfolding mint_for_payment minted_rows
  mint_dated p h x = ground (
    arith,
    p.found,
    mint_rows_lem env (dated_input payment plan) (get_or payment.quantity 1) 0
        (chain_end env payment.planner_id db) db h
        (λ e. (chain_end-eq-none env payment.planner_id db x e).0),
  )

  module _ (p : IsDatedPurchase db payment code plan) (h : AtMostOneActive db.subscriptions)
      (x : All HasExpiry db.subscriptions) where
    -- The confirmed purchase of a month or a year by a user with nothing running and nothing
    -- queued: as many rows are added as were bought, the first is active from now for the plan's
    -- duration, all others are queued, and no insert meets the unique index.
    pub mint_starts_now :
        (n : ℕ)
        → get_or payment.quantity 1 ≡ suc n
        → count (active_of payment.planner_id) db.subscriptions ≡ 0
        → queued_durations payment.planner_id db ≡ []
        → (new : List Subscription) × (mint_for_payment env payment.id db ≡ (
          ok (record { minted = suc n; already_minted = false; new_rows = new }),
          record db { subscriptions = db.subscriptions ++ new },
        ))
          × (first (active_of payment.planner_id) new
              ≡ some (active_row env (dated_input payment plan) 0))
          × (count (active_of payment.planner_id) new ≡ 1)
          × (count (queued_of payment.planner_id) new ≡ n)
    unfolding minted_rows dated_rows
    mint_starts_now n q a e =
        let input = dated_input payment plan in
        let free = chain_end_free env payment.planner_id db a e in
        let (one, rest) = active-dated_rows env input n 0 in
        (
          dated_rows env input (suc n) 0 none,
          ground (arith, mint_dated p h x, q, free, length-dated_rows env input (suc n) 0 none),
          ground arith,
          one,
          rest,
        )

    -- The same purchase by a user with a running or a queued period: every new row is queued, so
    -- nobody jumps the line and no second period starts.
    pub mint_queues :
        (0 < count (active_of payment.planner_id) db.subscriptions)
          ⊎ (queued_durations payment.planner_id db ≢ [])
        → (new : List Subscription) × (mint_for_payment env payment.id db ≡ (
          ok (record {
            minted = get_or payment.quantity 1;
            already_minted = false;
            new_rows = new;
          }),
          record db { subscriptions = db.subscriptions ++ new },
        ))
          × (count (active_of payment.planner_id) new ≡ 0)
          × (count (queued_of payment.planner_id) new ≡ get_or payment.quantity 1)
    unfolding minted_rows
    mint_queues busy = elim (Option-cases (chain_end env payment.planner_id db)) [
      | inl free ↦
          let (a, e) = chain_end-eq-none env payment.planner_id db x free in absurd (ground arith)
      | inr (end, e) ↦
          let input = dated_input payment plan in
          let q = get_or payment.quantity 1 in
          let (none_active, all_queued) = queued-dated_rows env input q 0 end in
          (
            dated_rows env input q 0 (some end),
            ground (arith, mint_dated p h x, e, length-dated_rows env input q 0 (some end)),
            none_active,
            all_queued,
          )
    ]
