-- ===== src/Subscriptions/Purchase/Intents.antt =====
-- What a purchase leaves in the tables.
use fann_api.Prelude.{
  ℕ, ◌<◌, ◌≡◌, refl, ◌↔◌, ◌⊎◌, inl, inr, Bool, true, Option, none, some, List, [], ◌∷◌, ◌++◌, ◌==◌,
  map, arith, Text, Rate, Env, Result, Error, ok, err, not_found, is_ok, count, first, update,
  Option-cases, Bool-cases, ==_self, Result-cases,
}
use fann_api.Billing.{awaiting_provider, Plan, Payment, Db}
use fann_api.Subscriptions.Purchase.{
  CreatePaymentIntentDto, CreateIntentInput, PaymentIntent, on_sale, new_payment, with_intent,
  intent_input, create_payment_intent, report_transfer, reported, reportable,
}

update-append :
    (id : ℕ) (f : Payment → Payment) (ps : List Payment) (p : Payment)
    → count (λ q. q.id == id) ps ≡ 0
    → p.id ≡ id
    → update (λ q. q.id == id) f (ps ++ p ∷ []) ≡ ps ++ f p ∷ []
update-append id f [] p none_ same = rw same (ground (arith, ==_self id))
update-append id f (x ∷ ps) p none_ same = ground (arith, update-append id f ps p)

map-update :
    (g : Payment → Payment) (p : Payment → Bool) (f : Payment → Payment) (ps : List Payment)
    → ((x : Payment) → g (f x) ≡ g x)
    → map g (update p f ps) ≡ map g ps
map-update g p f [] h = refl
map-update g p f (x ∷ ps) h = elim (Bool-cases (p x)) [
  | inl e ↦ rw (e, h x, map-update g p f ps h) refl
  | inr e ↦ rw (e, map-update g p f ps h) refl
]

module _ (create_intent : CreateIntentInput → Result PaymentIntent) (account_code : ℕ → Option Text)
    (env : Env) (rate : Rate) (provider : Text) (user : ℕ) (dto : CreatePaymentIntentDto)
    (db : Db) where
  abbrev bought : Result Payment × Db
  bought = create_payment_intent create_intent account_code env rate provider user dto db

  -- what the provider is asked for
  abbrev asked : Plan → CreateIntentInput
  asked plan =
      intent_input create_intent account_code user dto (new_payment env rate provider user dto plan)

  -- A purchase, under an id that no payment has: either the plan is not on sale, and nothing is
  -- written; or the provider fails on the request of the row, its error is thrown and the row stays
  -- pending; or the row carries what the provider issued for it, and is returned as awaiting it.
  -- That row, priced from the table of plans, is all that is written, so that no subscription is
  -- granted.
  pub create_payment_intent_lem :
      count (λ p. p.id == env.new_id 0) db.payments ≡ 0
      → ((first (on_sale dto.plan_code) db.plans ≡ none) × (bought ≡ (err not_found, db)))
        ⊎ (plan : Plan) × (first (on_sale dto.plan_code) db.plans ≡ some plan)
          × (((e : Error) × (create_intent (asked plan) ≡ err e)
                × (bought.0 ≡ err e)
                × (bought.1 ≡ record db {
                  payments = db.payments ++ new_payment env rate provider user dto plan ∷ [];
                }))
              ⊎ ((intent : PaymentIntent) × (create_intent (asked plan) ≡ ok intent)
                  × (bought.0
                      ≡ ok (record (new_payment env rate provider user dto plan) {
                        status = awaiting_provider;
                      }))
                  × (bought.1 ≡ record db {
                    payments =
                        db.payments
                        ++ record (new_payment env rate provider user dto plan) {
                          provider_ref = some intent.provider_ref;
                          status = awaiting_provider;
                          intent_expires_at = intent.expires_at;
                        }
                          ∷ [];
                  })))
  unfolding create_payment_intent
  create_payment_intent_lem fresh = elim (Option-cases (first (on_sale dto.plan_code) db.plans)) [
    | inl missing ↦ inl (ground arith)
    | inr (plan, found) ↦
        let row = new_payment env rate provider user dto plan in
        elim (Result-cases (create_intent (intent_input create_intent account_code user dto row))) [
          | inr (e, failed) ↦ inr (plan, found, inl (e, failed, ground arith, ground arith))
          | inl (intent, made) ↦
              let w = update-append row.id (with_intent intent) db.payments row fresh refl in
              inr (plan, found, inr (intent, made, ground arith, ground arith))
        ]
  ]

-- A report of a transfer succeeds exactly when the user has such a payment that is not settled. It
-- changes nothing of a payment but the two fields of the transfer, and nothing else at all.
pub report_transfer_lem :
    (user id : ℕ) (service reference : Text) (db : Db)
    → let (r, db') = report_transfer user id service reference db in
      ((is_ok r ≡ true) ↔ (0 < count (reportable user id) db.payments))
      × (map (reported [] []) db'.payments ≡ map (reported [] []) db.payments)
      × (db' ≡ record db { payments = db'.payments })
unfolding report_transfer
report_transfer_lem user id service reference db = (
  ground arith,
  map-update (reported [] []) (reportable user id) (reported service reference) db.payments
      (λ p. refl),
  refl,
)
