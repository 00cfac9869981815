-- ===== src/Subscriptions/Tests.antt =====
-- Runs, and instances of the theorems.
use fann_api.Prelude.{
  hundredths, product, sum, nearest, Error, ℕ, ◌<◌, ◌≡◌, refl, ◌⊎◌, inl, true, false, none, some,
  List, [], ◌∷◌, ◌++◌, arith, ok, err, conflict, not_found, Result, is_ok, ◌↔◌, count, first,
  update, add_days, map, unauthorized, payment_required,
}
use fann_api.Billing.{
  Payment, Subscription, SubscriptionStatus, Db, Plan, day, month, ready, active, queued, active_of,
  queued_of, is_ready, one_active_per_user, expired, write_subscriptions, awaiting_provider,
}
use fann_api.Billing.Samples.{noon, mock, later, order, held, tables, day_plan, month_plan}
use fann_api.Subscriptions.Access.{
  get_active_subscription, find_plan, can_activate, has_active_subscription, planner,
}
use fann_api.Subscriptions.Mint.{mint_for_payment, active_row, dated_input}
use fann_api.Subscriptions.Mint.Stacking.{mint_starts_now, mint_queues}
use fann_api.Subscriptions.Mint.Once.{mint_dated_once}
use fann_api.Subscriptions.Activate.{activate, activate_write, owned, ready_owned, start}
use fann_api.Subscriptions.Activate.Race.{activate_write_once, activate-eq-ok, activate_lapsed}
use fann_api.Vat.{default_vat_rate, vat_breakdown}
use fann_api.Subscriptions.Purchase.{
  CreatePaymentIntentDto, CreateIntentInput, PaymentIntent, on_sale, new_payment,
  create_payment_intent, intent_input,
}
use fann_api.Subscriptions.Purchase.Intents.{create_payment_intent_lem}
use fann_api.Subscriptions.Reminders.{find_due_renewal_reminders, do_renewal_reminders}
use fann_api.Subscriptions.Reminders.Sent.{remind_once}
use fann_api.Subscriptions.Access.Gate.{grants, can_activate_lem}
use fann_api.Subscriptions.Expire.{
  run_out, expire_and_promote, expire_due, promote_all, promote_next,
}
use fann_api.Subscriptions.Expire.Promotion.{IsValid}
use fann_api.Subscriptions.Expire.NobodyWaits.{expire_and_promote_lem}

mint_starts_now_example :
    (new : List Subscription) × (mint_for_payment noon 7 (tables [])
      ≡ (ok (record { minted = 2; already_minted = false; new_rows = new }), tables new))
    × (first (active_of 1) new ≡ some (active_row noon (dated_input (order 7 month) month_plan) 0))
    × (count (active_of 1) new ≡ 1)
    × (count (queued_of 1) new ≡ 1)
mint_starts_now_example =
    mint_starts_now noon (tables []) (order 7 month) month month_plan
      (record { found = refl; has_code = refl; fresh = refl; has_plan = refl; dated = refl })
      (λ u. omega arith) tt 1 refl refl refl

-- user 1 has a running month
abbrev running : Db
running = tables (held 50 month active (some 9000) ∷ [])

mint_queues_example :
    (new : List Subscription) × (mint_for_payment noon 7 running ≡ (
      ok (record { minted = 2; already_minted = false; new_rows = new }),
      record running { subscriptions = held 50 month active (some 9000) ∷ new },
    ))
    × (count (active_of 1) new ≡ 0)
    × (count (queued_of 1) new ≡ 2)
mint_queues_example =
    mint_queues noon running (order 7 month) month month_plan
      (record { found = refl; has_code = refl; fresh = refl; has_plan = refl; dated = refl })
      (λ u. ground arith) (λ e. refl, tt) (inl (omega arith))

mint_dated_once_example :
    let db' = (mint_for_payment noon 7 running).1 in
    mint_for_payment later 7 db'
    ≡ (ok (record { minted = 0; already_minted = true; new_rows = [] }), db')
mint_dated_once_example =
    mint_dated_once noon later running (order 7 month) month month_plan 1
      (record { found = refl; has_code = refl; fresh = refl; has_plan = refl; dated = refl })
      (λ u. ground arith) (λ e. refl, tt) refl

-- user 1 has a banked day pass
abbrev banked : Db
banked = tables (held 51 day ready none ∷ [])

abbrev running_day : Subscription
running_day = start noon day_plan (held 51 day ready none)

abbrev started : Db
started = tables (running_day ∷ [])

activate_write_once_example : activate_write later 1 51 day_plan started ≡ (err conflict, started)
unfolding activate_write write_subscriptions one_active_per_user
activate_write_once_example =
    activate_write_once noon later 1 51 day_plan day_plan banked running_day started refl

activate-eq-ok_example :
    (get_active_subscription 1000 banked.plans banked.subscriptions 1 ≡ none)
    × (credit : Subscription) × (plan : Plan) × (first (owned 1 51) banked.subscriptions
        ≡ some credit)
    × (is_ready credit ≡ true)
    × (find_plan credit.plan_code banked.plans ≡ some plan)
    × (running_day.status ≡ active)
    × (running_day.user_id ≡ 1)
    × (running_day.expires_at ≡ some (add_days 1000 plan.duration_days))
    × (started ≡ record banked {
      subscriptions = update (ready_owned 1 51) (start noon plan) banked.subscriptions;
    })
unfolding activate activate_write get_active_subscription write_subscriptions one_active_per_user
activate-eq-ok_example = activate-eq-ok noon 1 51 banked running_day started refl

-- the month of user 1 ran out at 900, and no job has marked it yet
abbrev lapsed : Db
lapsed = tables (held 50 month active (some 900) ∷ held 51 day ready none ∷ [])

activate_lapsed_example : activate noon 1 51 lapsed ≡ (err conflict, lapsed)
unfolding get_active_subscription
activate_lapsed_example =
    activate_lapsed noon 1 51 lapsed (held 51 day ready none) refl refl refl (omega arith) refl

-- and a second month is queued behind it
abbrev stacked : Db
stacked = tables (held 50 month active (some 900) ∷ held 52 month queued none ∷ [])

stacked-IsValid : IsValid stacked
stacked-IsValid = record {
  one_active = λ u. ground arith;
  distinct_ids = λ i. ground arith;
  has_plan = (refl, (refl, tt));
  lasting = omega arith;
}

expire_and_promote_lem_example :
    let (r, db') = expire_and_promote noon stacked in
    (is_ok r ≡ true)
    × IsValid db'
    × ((v : ℕ)
        → 0 < count (queued_of v) db'.subscriptions
        → count (active_of v) db'.subscriptions ≡ 1)
    × (count (run_out 1000) db'.subscriptions ≡ 0)
expire_and_promote_lem_example = expire_and_promote_lem noon stacked stacked-IsValid

promoted_month :
    map {B = ℕ × SubscriptionStatus}
      (λ s. (s.id, s.status))
      (expire_and_promote noon stacked).1.subscriptions
    ≡ (50, expired) ∷ (52, active) ∷ []
unfolding expire_and_promote expire_due promote_all promote_next write_subscriptions
    one_active_per_user
promoted_month = refl

-- the provider issues the reference 7
abbrev issue : CreateIntentInput → Result PaymentIntent
issue input =
    ok (record {
      provider_ref = 7 ∷ [];
      redirect_url = none;
      instructions = none;
      expires_at = none;
    })

-- three day passes
abbrev basket : CreatePaymentIntentDto
basket = record {
  plan_code = day;
  quantity = some 3;
  transfer_service = none;
  reference_code = none;
}

abbrev checkout : Result Payment × Db
checkout = create_payment_intent issue (λ u. none) noon default_vat_rate mock 1 basket (tables [])

abbrev row : Plan → Payment
row = new_payment noon default_vat_rate mock 1 basket

create_payment_intent_lem_example :
    let asked : Plan → CreateIntentInput =
      λ plan. intent_input issue (λ u. none) 1 basket (row plan) in
    ((first (on_sale day) (tables []).plans ≡ none) × (checkout ≡ (err not_found, tables [])))
    ⊎ (plan : Plan) × (first (on_sale day) (tables []).plans ≡ some plan)
      × (((e : Error) × (issue (asked plan) ≡ err e)
            × (checkout.0 ≡ err e)
            × (checkout.1
                ≡ record (tables []) { payments = (tables []).payments ++ row plan ∷ [] }))
          ⊎ ((intent : PaymentIntent) × (issue (asked plan) ≡ ok intent)
              × (checkout.0 ≡ ok (record (row plan) { status = awaiting_provider }))
              × (checkout.1 ≡ record (tables []) {
                payments =
                    (tables []).payments
                    ++ record (row plan) {
                      provider_ref = some intent.provider_ref;
                      status = awaiting_provider;
                      intent_expires_at = intent.expires_at;
                    }
                      ∷ [];
              })))
create_payment_intent_lem_example =
    create_payment_intent_lem issue (λ u. none) noon default_vat_rate mock 1 basket (tables []) refl

-- 15.00 USD and 1.65 USD of tax
checkout_amount : map (λ (p : Payment). p.amount_usd) checkout.1.payments ≡ 3330 ∷ 3330 ∷ 1665 ∷ []
unfolding create_payment_intent vat_breakdown hundredths product sum nearest
checkout_amount = refl

-- the month of user 1 ends in less than a day
abbrev ending : Db
ending = tables (held 50 month active (some 9000) ∷ [])

remind_once_example :
    find_due_renewal_reminders noon (do_renewal_reminders (λ u. true) noon ending) ≡ []
remind_once_example = remind_once (λ u. true) noon ending (refl, tt)

reminded :
    find_due_renewal_reminders noon ending
    ≡ record { subscription_id = 50; user_id = 1; plan_code = month; days = 3 } ∷ []
unfolding find_due_renewal_reminders
reminded = refl

-- the month ran out at 900, and no job has marked it yet: no access at 1000
can_activate_lem_example :
    let answer = can_activate 1000 stacked.plans stacked.subscriptions (some (1, planner)) none in
    (can_activate 1000 stacked.plans stacked.subscriptions none none ≡ err unauthorized)
    × ((answer ≡ ok true)
        ↔ ((false ≡ true) ⊎ (0 < count (grants 1000 stacked.plans 1) stacked.subscriptions)))
    × ((answer ≡ ok true) ⊎ (answer ≡ err payment_required))
can_activate_lem_example = can_activate_lem 1000 stacked.plans stacked.subscriptions 1 planner none

no_access :
    can_activate 1000 stacked.plans stacked.subscriptions (some (1, planner)) none
    ≡ err payment_required
unfolding can_activate has_active_subscription get_active_subscription
no_access = refl
