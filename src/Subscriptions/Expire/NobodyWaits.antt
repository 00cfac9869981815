-- ===== src/Subscriptions/Expire/NobodyWaits.antt =====
-- After the hourly job nobody waits behind nothing, and nothing that has run out is active.
use fann_api.Prelude.{
  ℕ, ◌≤◌, ◌<◌, ◌≡◌, refl, Bool, true, false, ◌&&◌, List, [], ◌∷◌, arith, count, update, rows, Env,
  Bool-cases, inl, inr, ◌⊎◌, elem, any, any-count, map, distinct, ◌==◌, ==_iff, count-update_self,
  count-update_drop, count-update_same, All-update, count_mono, is_ok,
}
use fann_api.Billing.{Subscription, Db, active_of, queued_of}
use fann_api.Billing.Index.{AtMostOneActive, write_subscriptions-eq-ok}
use fann_api.Subscriptions.Expire.{
  run_out, expire, waiting, is_waiting, promote_next, promote_all, expire_and_promote,
}
use fann_api.Subscriptions.Expire.Counts.{HasPlan}
use fann_api.Subscriptions.Expire.Promotion.{IsValid, Promotes, promote_next-Promotes}

-- Whoever has a queued row has an active one, or is still to be served.
abbrev AreServed : List ℕ → List Subscription → Type 0
AreServed users t =
    (v : ℕ) → 0 < count (queued_of v) t → (0 < count (active_of v) t) ⊎ (elem v users ≡ true)

record Final (now : ℕ) (db' : Db) (ran_out : ℕ) : Type 0 where
  valid : IsValid db'
  served : AreServed [] db'.subscriptions
  lapsed : count (run_out now) db'.subscriptions ≤ ran_out

module _ (env : Env) where
  still_served :
      (u : ℕ) (users : List ℕ) (db db' : Db)
      → Promotes env.now u db db'
      → AreServed (u ∷ users) db.subscriptions
      → AreServed users db'.subscriptions
  still_served u users db db' p h v q =
      let before : 0 < count (queued_of v) db.subscriptions = omega (arith, p.drains v) in
      elim (h v before) [
        | inl running ↦ inl (omega (arith, p.keeps v))
        | inr listed ↦ elim (Bool-cases (v == u)) [
          | inl same ↦ inl (rw ((==_iff v u).0 same) (p.serves (rw (← (==_iff v u).0 same) before)))
          | inr other ↦ inr (ground arith)
        ]
      ]

  promote_all-Final :
      (users : List ℕ) (db : Db)
      → IsValid db
      → AreServed users db.subscriptions
      → Final env.now (promote_all env users db).1 (count (run_out env.now) db.subscriptions)
  unfolding promote_all
  promote_all-Final [] db valid h = record { valid = valid; served = h; lapsed = omega arith }
  promote_all-Final (u ∷ users) db valid h =
      let p = promote_next-Promotes env u db valid in
      let db' = (promote_next env u db).1 in
      let f = promote_all-Final users db' p.valid (still_served u users db db' p h) in
      record { valid = f.valid; served = f.served; lapsed = omega (arith, p.lasts, f.lapsed) }

elem-distinct : (v : ℕ) (l : List ℕ) → elem v (distinct l) ≡ elem v l
elem-distinct v [] = refl
elem-distinct v (x ∷ l) = ground (arith, elem-distinct v l, ==_iff v x)

elem-users :
    (v : ℕ) (p : Subscription → Bool) (t : List Subscription)
    → 0 < count (λ s. p s && (s.user_id == v)) t
    → elem v (map (λ s. s.user_id) (rows p t)) ≡ true
elem-users v p [] h = elim h [ ]
elem-users v p (s ∷ t) h = ground (arith, elem-users v p t)

waiting_complete : (t : List Subscription) → AreServed (waiting t) t
waiting_complete t v h = elim (Bool-cases (any (active_of v) t)) [
  | inl running ↦ inl (any-count (active_of v) t running)
  | inr idle ↦
      let more =
        count_mono (queued_of v) (λ s. is_waiting t s && (s.user_id == v)) t
          (λ x q.
            let same : x.user_id ≡ v = (==_iff x.user_id v).0 (ground arith) in
            let idle' : any (active_of x.user_id) t ≡ false = rw same idle in ground arith) in
      inr (
        rw (elem-distinct v (map (λ s. s.user_id) (rows (is_waiting t) t)))
          (elem-users v (is_waiting t) t (omega (arith, more))))
]

once :
    (t : List Subscription)
    → AtMostOneActive t
    → AreServed [] t
    → (v : ℕ) → 0 < count (queued_of v) t
    → count (active_of v) t ≡ 1
once t unique served v h = elim (served v h) [
  | inl running ↦ omega (arith, unique v)
  | inr nobody ↦ cc
]

module _ (env : Env) (db : Db) (valid : IsValid db) where
  expired_rows : List Subscription
  expired_rows = update (run_out env.now) expire db.subscriptions

  expired_db : Db
  expired_db = record db { subscriptions = expired_rows }

  expired_unique : AtMostOneActive expired_rows
  unfolding expired_rows
  expired_unique v = omega (
    arith,
    valid.one_active v,
    count-update_drop (active_of v) (run_out env.now) expire db.subscriptions (λ x h. ground arith),
  )

  expired-IsValid : IsValid expired_db
  unfolding expired_db expired_rows
  expired-IsValid = record {
    one_active = expired_unique;
    distinct_ids = λ i. omega (
      arith,
      valid.distinct_ids i,
      count-update_same (λ x. x.id == i) (run_out env.now) expire db.subscriptions (λ x h. refl),
    );
    has_plan =
        All-update (HasPlan db.plans) (run_out env.now) expire db.subscriptions (λ x h k. k)
          valid.has_plan;
    lasting = valid.lasting;
  }

  runs : (expire_and_promote env db).1 ≡ (promote_all env (waiting expired_rows) expired_db).1
  unfolding expire_and_promote expired_db expired_rows
  runs = ground (arith, write_subscriptions-eq-ok expired_rows db expired_unique)

  succeeds : is_ok (expire_and_promote env db).0 ≡ true
  unfolding expire_and_promote expired_db expired_rows
  succeeds = ground (arith, write_subscriptions-eq-ok expired_rows db expired_unique)

  none_run_out : count (run_out env.now) expired_db.subscriptions ≡ 0
  unfolding expired_db expired_rows
  none_run_out = count-update_self (run_out env.now) expire db.subscriptions (λ x h. ground arith)

  -- One run of the job on a database that meets the schema's constraints: it does not fail, the
  -- constraints still hold, every user with a queued period has exactly one active row, and no
  -- active row has run out.
  pub expire_and_promote_lem :
      let (r, db') = expire_and_promote env db in
      (is_ok r ≡ true)
      × IsValid db'
      × ((v : ℕ)
          → 0 < count (queued_of v) db'.subscriptions
          → count (active_of v) db'.subscriptions ≡ 1)
      × (count (run_out env.now) db'.subscriptions ≡ 0)
  unfolding expired_db expired_rows
  expire_and_promote_lem =
      let f =
        promote_all-Final env (waiting expired_rows) expired_db expired-IsValid
          (waiting_complete expired_rows) in
      let db' = (promote_all env (waiting expired_rows) expired_db).1 in
      let one = λ (v : ℕ) (h : 0 < count (queued_of v) db'.subscriptions).
        once db'.subscriptions f.valid.one_active f.served v h in
      rw runs (succeeds, f.valid, one, omega (arith, f.lapsed, none_run_out))
