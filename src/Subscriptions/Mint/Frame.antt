-- ===== src/Subscriptions/Mint/Frame.antt =====
-- Minting writes no table but `subscriptions`.
use fann_api.Prelude.{
  ℕ, zero, suc, ◌≡◌, refl, Bool, true, false, Option, none, some, List, [], ◌∷◌, ◌++◌, arith, Env,
  ok, err, Result, Action, add_days, ◌>>=◌, pure, inl, inr, get_or, Error, gets, require,
  if◌then◌else◌, >>=-ok, >>=-err,
}
use fann_api.Billing.{Subscription, Db, Payment, PlanCode, write_subscriptions, insert_subscription}
use fann_api.Billing.Index.{write_subscriptions-cases}
use fann_api.Subscriptions.Mint.{
  MintInput, active_row, queued_row, mint_rows, mint_dated_plan, mint_credits, mint_plan, mint_code,
  mint_for_payment, mint_optional,
}

-- Two states that differ in `subscriptions` at most.
pub record OnlySubscriptions (db db' : Db) : Type 0 where
  pub plans : db'.plans ≡ db.plans
  pub payments : db'.payments ≡ db.payments
  pub events : db'.events ≡ db.events
  pub notifications : db'.notifications ≡ db.notifications
  pub admins : db'.admins ≡ db.admins

-- An action that writes no other table, whether it returns or throws.
record Mints {A : Type 0} (m : Action Db A) : Type 0 where
  at : (db : Db) → OnlySubscriptions db (m db).1

same : (db : Db) → OnlySubscriptions db db
same db = ground arith

chain :
    (db db' db'' : Db)
    → OnlySubscriptions db db'
    → OnlySubscriptions db' db''
    → OnlySubscriptions db db''
chain db db' db'' p q = ground arith

module _ {A : Type 0} where
  Mints-pure : (a : A) → Mints (pure a)
  Mints-pure a = record { at = same }

  Mints-gets : (f : Db → A) → Mints (gets f)
  Mints-gets f = record { at = same }

  Mints-require : (o : Option A) (e : Error) → Mints (require o e)
  Mints-require none e = record { at = same }
  Mints-require (some a) e = record { at = same }

  Mints-if : (b : Bool) (m n : Action Db A) → Mints m → Mints n → Mints (if b then m else n)
  Mints-if true m n p q = p
  Mints-if false m n p q = q

module _ {A B : Type 0} where
  result_frame :
      (m : Action Db A) (f : A → Action Db B) (db : Db) (r : Result A)
      → (m db).0 ≡ r
      → Mints m
      → ((a : A) → Mints (f a))
      → OnlySubscriptions db ((m >>= f) db).1
  result_frame m f db (ok a) e p k =
      rw (>>=-ok m f db {a = a} {s' = (m db).1} (λ i. (e i, (m db).1)))
        (chain db (m db).1 (f a (m db).1).1 (p.at db) ((k a).at (m db).1))
  result_frame m f db (err x) e p k =
      rw (>>=-err m f db {e = x} {s' = (m db).1} (λ i. (e i, (m db).1))) (p.at db)

  Mints-bind :
      (m : Action Db A) (f : A → Action Db B) → Mints m → ((a : A) → Mints (f a)) → Mints (m >>= f)
  Mints-bind m f p k = record { at = λ db. result_frame m f db (m db).0 refl p k }

ruleset mints = (Mints-pure, Mints-gets, Mints-require, Mints-if, Mints-bind)

write_frame : (t : List Subscription) → Mints (write_subscriptions t)
write_frame t = record {
  at = λ db. elim (write_subscriptions-cases t db) [
    | inl (_, e) ↦ rw e (ground arith)
    | inr (_, e) ↦ rw e (same db)
  ];
}

insert_frame : (r : Subscription) → Mints (insert_subscription r)
unfolding insert_subscription
insert_frame r = record {
  at = λ db.
      (Mints-bind (write_subscriptions (db.subscriptions ++ r ∷ [])) (λ _. pure r)
          (write_frame (db.subscriptions ++ r ∷ [])) (λ _. Mints-pure r)).at
        db;
}

module _ (env : Env) (input : MintInput) where
  mint_rows_frame : (n i : ℕ) (end : Option ℕ) → Mints (mint_rows env input n i end)
  unfolding mint_rows
  mint_rows_frame zero i end = Mints-pure []
  mint_rows_frame (suc n) i none = Mints-bind _ _ (insert_frame (active_row env input i)) (λ a.
      Mints-bind _ _
        (mint_rows_frame n (suc i)
          (some (get_or a.expires_at (add_days env.node_now input.duration_days))))
        (λ rest. Mints-pure (a ∷ rest)))
  mint_rows_frame (suc n) i (some end) =
      Mints-bind _ _ (insert_frame (queued_row env input i end)) (λ a.
        Mints-bind _ _ (mint_rows_frame n (suc i) (some (add_days end input.duration_days)))
          (λ rest. Mints-pure (a ∷ rest)))

mint_plan_frame :
    (env : Env) (payment : Payment) (code : PlanCode) → Mints (mint_plan env payment code)
unfolding mint_plan mint_credits mint_dated_plan
mint_plan_frame env payment code = search (mints, write_frame, mint_rows_frame) depth 9

mint_code_frame :
    (env : Env) (payment : Payment) (code : PlanCode) → Mints (mint_code env payment code)
unfolding mint_code
mint_code_frame env payment code = search (mints, mint_plan_frame) depth 7

mint_optional_frame :
    (env : Env) (payment : Payment) (code : Option PlanCode)
    → Mints (mint_optional env payment code)
unfolding mint_optional
mint_optional_frame env payment none = Mints-pure _
mint_optional_frame env payment (some code) = mint_code_frame env payment code

mint_for_payment-Mints : (env : Env) (payment_id : ℕ) → Mints (mint_for_payment env payment_id)
unfolding mint_for_payment
mint_for_payment-Mints env payment_id = search (mints, mint_optional_frame) depth 7

pub mint_for_payment_frame :
    (env : Env) (payment_id : ℕ) (db : Db)
    → OnlySubscriptions db (mint_for_payment env payment_id db).1
mint_for_payment_frame env payment_id = (mint_for_payment-Mints env payment_id).at
