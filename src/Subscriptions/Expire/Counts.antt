-- ===== src/Subscriptions/Expire/Counts.antt =====
-- What one promotion does to the numbers of active and queued rows of each user.
use fann_api.Prelude.{
  ℕ, ◌∙◌, ap, All-first, All_mono, All-self, All-rows_of, count-eq-length-rows, ==_self, suc, ◌≤◌,
  ◌<◌, ◌≡◌, refl, Bool, true, ◌&&◌, Option, none, some, List, [], ◌∷◌, arith, count, rows, length,
  Bool-cases, inl, inr, is_some, All, head?, ◌==◌, place, order_by, leb, All-rows,
}
use fann_api.Billing.{plan_eq, Plan, Subscription, Db, queued_of}
use fann_api.Subscriptions.Access.{find_plan}
use fann_api.Subscriptions.Expire.{joined, with_plan, next_queued, queued_id}

-- The primary key.
abbrev pub DistinctIds : List Subscription → Type 0
DistinctIds t = (i : ℕ) → count (λ s. s.id == i) t ≤ 1

-- The foreign key to the plans.
abbrev pub HasPlan : List Plan → Subscription → Type 0
HasPlan plans s = is_some (find_plan s.plan_code plans) ≡ true

-- The joined rows are rows of the table, each with a plan.
module _ (P : Subscription → Type 0) (Q : Plan → Type 0) where
  All-joined :
      (s : Subscription) (o : Option Plan) (rest : List (Subscription × Plan))
      → P s
      → ((p : Plan) → o ≡ some p → Q p)
      → All (λ x. P x.0 × Q x.1) rest
      → All (λ x. P x.0 × Q x.1) (joined s o rest)
  All-joined s none rest h q r = r
  All-joined s (some p) rest h q r = ((h, q p refl), r)

  pub All-with_plan :
      (plans : List Plan) (t : List Subscription)
      → All Q plans
      → All P t
      → All (λ x. P x.0 × Q x.1) (with_plan plans t)
  All-with_plan plans [] q h = tt
  All-with_plan plans (s ∷ t) q h =
      All-joined s (find_plan s.plan_code plans) (with_plan plans t) h.0
        (λ p e. (All-first Q (λ x. plan_eq x.code s.plan_code) plans p q e).0)
        (All-with_plan plans t q h.1)

-- No row is lost in the join where every row has a plan.
length-with_plan :
    (plans : List Plan) (t : List Subscription)
    → All (HasPlan plans) t
    → length (with_plan plans t) ≡ length t
length-with_plan plans [] h = refl
length-with_plan plans (s ∷ t) h = ground (arith, h.0, length-with_plan plans t h.1)

length-order_by {ℓ} :
    {A : Type ℓ} (key : A → ℕ) (xs : List A) → length (order_by key xs) ≡ length xs
length-order_by key [] = refl
length-order_by key (x ∷ xs) = go (order_by key xs) ∙ ap suc (length-order_by key xs)
  where
    go : (ys : List _) → length (place key x ys) ≡ suc (length ys)
    go [] = refl
    go (y ∷ ys) = ground (arith, go ys)

module _ {A : Type 0} (P : A → Type 0) (key : A → ℕ) where
  All-place : (x : A) (xs : List A) → P x → All P xs → All P (place key x xs)
  All-place x [] p h = (p, tt)
  All-place x (y ∷ ys) p h = elim (Bool-cases (leb (key x) (key y))) [
    | inl e ↦ rw e (p, h)
    | inr e ↦ rw e (h.0, All-place x ys p h.1)
  ]

  pub All-order_by : (xs : List A) → All P xs → All P (order_by key xs)
  All-order_by [] h = tt
  All-order_by (x ∷ xs) h = All-place x (order_by key xs) h.0 (All-order_by xs h.1)

head-All : {A : Type 0} (P : A → Type 0) (xs : List A) (a : A) → head? xs ≡ some a → All P xs → P a
head-All P [] a e h = cc
head-All P (x ∷ xs) a e h = let same : x ≡ a = ground arith in rw (← same) h.0

length-head : {A : Type 0} (xs : List A) → head? xs ≡ none → length xs ≡ 0
length-head [] e = refl
length-head (x ∷ xs) e = cc

-- The job finds no row for a user only if none is queued.
pub next_queued-eq-none :
    (user : ℕ) (db : Db)
    → All (HasPlan db.plans) db.subscriptions
    → next_queued user db ≡ none
    → count (queued_of user) db.subscriptions ≡ 0
next_queued-eq-none user db h e =
    let q = rows (queued_of user) db.subscriptions in
    let empty =
      length-head (order_by (λ (x : Subscription × Plan). x.0.created_at) (with_plan db.plans q))
        e in
    omega (
      arith,
      empty,
      length-order_by (λ (x : Subscription × Plan). x.0.created_at) (with_plan db.plans q),
      length-with_plan db.plans q (All-rows (HasPlan db.plans) (queued_of user) db.subscriptions h),
      count-eq-length-rows (queued_of user) db.subscriptions,
    )

abbrev pub queued_row_of : ℕ → Subscription → Subscription → Bool
queued_row_of user s x = queued_id s.id x && (x.user_id == user)

-- The row that it finds is the user's, is queued, and stands in the table.
pub next_queued-eq-some :
    (user : ℕ) (db : Db) (s : Subscription) (plan : Plan)
    → All (λ (p : Plan). 0 < p.duration_days) db.plans
    → next_queued user db ≡ some (s, plan)
    → (0 < count (queued_row_of user s) db.subscriptions) × (0 < plan.duration_days)
next_queued-eq-some user db s plan d e =
    let P = λ (x : Subscription). 0 < count (queued_row_of user x) db.subscriptions in
    let Q = λ (p : Plan). 0 < p.duration_days in
    let self =
      All_mono (λ x. queued_row_of user x x ≡ true → P x) (λ x. queued_of user x ≡ true → P x)
        db.subscriptions (λ x k h. k (ground (arith, ==_self x.id)))
        (All-self (queued_row_of user) db.subscriptions) in
    head-All (λ x. P x.0 × Q x.1) _ (s, plan) e
      (All-order_by (λ x. P x.0 × Q x.1) (λ x. x.0.created_at) _
        (All-with_plan P Q db.plans _ d (All-rows_of P (queued_of user) db.subscriptions self)))
