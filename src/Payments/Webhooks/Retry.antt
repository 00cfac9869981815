-- ===== src/Payments/Webhooks/Retry.antt =====
-- A provider that delivers the same webhook again.
use fann_api.Prelude.{
  ◌≡◌, refl, Bool, true, some, List, [], ◌∷◌, ◌==◌, arith, ==_self, Env, ok, Text, first, update,
  Bool-cases, inl, inr, ap, ◌∙◌,
}
use fann_api.Billing.{Db}
use fann_api.Payments.Providers.{PaymentProvider}
use fann_api.Payments.Webhooks.{
  webhook_confirmed, already_confirmed, is_referenced, confirm, process,
}
use fann_api.Payments.Webhooks.Guards.{replayed, stops}
use fann_api.Payments.Webhooks.Outcomes.{process-eq-confirmed}

first-update :
    {A : Type 0} (p q : A → Bool) (f : A → A) (xs : List A) (r : A)
    → ((x : A) → p (f x) ≡ p x)
    → first p xs ≡ some r
    → q r ≡ true
    → first p (update q f xs) ≡ some (f r)
first-update p q f [] r k e h = cc
first-update p q f (x ∷ xs) r k e h = elim (Bool-cases (p x)) [
  | inl t ↦
      let same : x ≡ r = ground arith in
      let hit : q x ≡ true = rw same h in rw (hit, k x, t, same) refl
  | inr t ↦ elim (Bool-cases (q x)) [
    | inl u ↦ rw (u, k x, t) (first-update p q f xs r k (ground arith) h)
    | inr u ↦ rw (u, t) (first-update p q f xs r k (ground arith) h)
  ]
]

module _ (env later : Env) (providers : List PaymentProvider) (code body headers : Text)
    (db : Db) where
  -- A webhook that confirmed its payment, delivered again at any time with nothing in between, is
  -- answered as already confirmed, and changes nothing but the log of events: no second minting, no
  -- second notice.
  pub process-process :
      (process env providers code body headers db).0 ≡ ok webhook_confirmed
      → let db' = (process env providers code body headers db).1 in
        let (r', db'') = process later providers code body headers db' in
        (r' ≡ ok already_confirmed) × (db'' ≡ record db' { events = db''.events })
  process-process e =
      let g = process-eq-confirmed env providers code body headers db e in
      let w = g.reached in
      let found =
        first-update (is_referenced code w.parsed.provider_ref) (λ p. p.id == w.payment.id)
          (confirm env) db.payments w.payment (λ x. refl) w.referenced (==_self w.payment.id) in
      stops later providers code body headers (process env providers code body headers db).1 (
        replayed w.provider w.parsed (confirm env w.payment) w.known w.genuine w.readable
          (ap (first (is_referenced code w.parsed.provider_ref)) g.marked ∙ found) refl)
