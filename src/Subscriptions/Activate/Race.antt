-- ===== src/Subscriptions/Activate/Race.antt =====
-- Two requests may spend one credit: the conditional update decides.
use fann_api.Prelude.{
  ℕ, add_days, ◌≡◌, ◌<◌, true, none, some, arith, count, update, first, Env, ok, err, conflict,
  Option-cases, inl, inr, is_some, update-none, rows-eq-nil, count-update_self, count-update_add,
  updated-eq-some, ==_iff, count-first_and, head?, updated,
}
use fann_api.Billing.{active, Plan, Subscription, Db, is_ready, active_of, one_active_per_user}
use fann_api.Billing.Index.{
  AtMostOneActive, one_active_sound, write_subscriptions-cases, write_subscriptions-eq-ok,
}
use fann_api.Subscriptions.Access.{find_plan, get_active_subscription}
use fann_api.Subscriptions.Activate.{activate, activate_write, ready_owned, owned, start}

-- The update that finds no ready row of the user under the id changes nothing and is refused,
-- whatever the checks had seen.
pub activate_write_lost :
    (env : Env) (user id : ℕ) (plan : Plan) (db : Db)
    → AtMostOneActive db.subscriptions
    → count (ready_owned user id) db.subscriptions ≡ 0
    → activate_write env user id plan db ≡ (err conflict, db)
unfolding activate_write
activate_write_lost env user id plan db h none_ready = ground (
  arith,
  write_subscriptions-eq-ok db.subscriptions db h,
  update-none (ready_owned user id) (start env plan) db.subscriptions none_ready,
  rows-eq-nil (ready_owned user id) db.subscriptions none_ready,
)

activate_write_won :
    (env : Env) (user id : ℕ) (plan : Plan) (db : Db) (s : Subscription) (db' : Db)
    → activate_write env user id plan db ≡ (ok s, db')
    → (db' ≡ record db {
      subscriptions = update (ready_owned user id) (start env plan) db.subscriptions;
    })
      × (one_active_per_user db'.subscriptions ≡ true)
unfolding activate_write
activate_write_won env user id plan db s db' e =
    elim (write_subscriptions-cases (update (ready_owned user id) (start env plan) db.subscriptions)
      db) [ inl won ↦ ground arith | inr lost ↦ ground arith ]

activate_write_row :
    (env : Env) (user id : ℕ) (plan : Plan) (db : Db) (s : Subscription) (db' : Db)
    → activate_write env user id plan db ≡ (ok s, db')
    → head? (updated (ready_owned user id) (start env plan) db.subscriptions) ≡ some s
unfolding activate_write
activate_write_row env user id plan db s db' e =
    elim (write_subscriptions-cases (update (ready_owned user id) (start env plan) db.subscriptions)
      db) [ inl won ↦ ground arith | inr lost ↦ ground arith ]

started_row :
    (env : Env) (user id : ℕ) (plan : Plan) (db : Db) (s : Subscription)
    → head? (updated (ready_owned user id) (start env plan) db.subscriptions) ≡ some s
    → (s.status ≡ active)
      × (s.user_id ≡ user)
      × (s.expires_at ≡ some (add_days env.now plan.duration_days))
started_row env user id plan db s e =
    let (r, mine, same) =
      updated-eq-some (ready_owned user id) (start env plan) db.subscriptions s e in
    let owner : r.user_id ≡ user = (==_iff r.user_id user).0 (ground arith) in
    (rw same, rw same owner, rw same)

-- One credit is spent once: of two writes for the same credit, whatever each request had checked
-- before, the one that comes second is refused and changes nothing.
pub activate_write_once :
    (env later : Env) (user id : ℕ) (plan plan' : Plan) (db : Db) (s : Subscription) (db' : Db)
    → activate_write env user id plan db ≡ (ok s, db')
    → activate_write later user id plan' db' ≡ (err conflict, db')
activate_write_once env later user id plan plan' db s db' e =
    let (written, unique) = activate_write_won env user id plan db s db' e in
    let gone : count (ready_owned user id) db'.subscriptions ≡ 0 = rw written (
      count-update_self (ready_owned user id) (start env plan) db.subscriptions
        (λ x h. ground arith)) in
    activate_write_lost later user id plan' db' (one_active_sound db'.subscriptions unique) gone

-- A row of the user that is still marked active blocks the activation, also after it has run out:
-- the checks pass, since the row grants no access any more, and the write meets the unique index.
-- The answer is the 409 of a lost race, and the credit stays.
pub activate_lapsed :
    (env : Env) (user id : ℕ) (db : Db) (credit : Subscription)
    → first (owned user id) db.subscriptions ≡ some credit
    → is_ready credit ≡ true
    → is_some (find_plan credit.plan_code db.plans) ≡ true
    → 0 < count (active_of user) db.subscriptions
    → get_active_subscription env.now db.plans db.subscriptions user ≡ none
    → activate env user id db ≡ (err conflict, db)
unfolding activate
activate_lapsed env user id db credit found is_banked has_plan lapsed nothing =
    elim (Option-cases (find_plan credit.plan_code db.plans)) [
      | inl missing ↦ absurd (ground arith)
      | inr (plan, e) ↦
          let p = ready_owned user id in
          let t = update p (start env plan) db.subscriptions in
          let more =
            count-update_add (active_of user) p (start env plan) db.subscriptions
              (λ x h. ground arith) (λ x h. ground arith) in
          let one =
            count-first_and (owned user id) is_ready db.subscriptions credit found is_banked in
          elim (write_subscriptions-cases t db) [
            | inl (fine, _) ↦ absurd (omega (arith, more, one_active_sound t fine user))
            | inr (broken, r) ↦ ground (arith, r, e)
          ]
    ]

-- A successful activation spent a credit of the user while nothing was running for them, and the
-- row that it returns runs from now on for the plan's duration; every other row is as it was.
pub activate-eq-ok :
    (env : Env) (user id : ℕ) (db : Db) (s : Subscription) (db' : Db)
    → activate env user id db ≡ (ok s, db')
    → (get_active_subscription env.now db.plans db.subscriptions user ≡ none)
      × (credit : Subscription) × (plan : Plan) × (first (owned user id) db.subscriptions
          ≡ some credit)
      × (is_ready credit ≡ true)
      × (find_plan credit.plan_code db.plans ≡ some plan)
      × (s.status ≡ active)
      × (s.user_id ≡ user)
      × (s.expires_at ≡ some (add_days env.now plan.duration_days))
      × (db' ≡ record db {
        subscriptions = update (ready_owned user id) (start env plan) db.subscriptions;
      })
unfolding activate
activate-eq-ok env user id db s db' e =
    elim (Option-cases (first (owned user id) db.subscriptions)) [
      | inl missing ↦ absurd (ground arith)
      | inr (credit, found) ↦ elim (Option-cases (find_plan credit.plan_code db.plans)) [
        | inl missing ↦ absurd (ground arith)
        | inr (plan, planned) ↦
            let w : activate_write env user id plan db ≡ (ok s, db') = ground arith in
            let (written, unique) = activate_write_won env user id plan db s db' w in
            let (status, mine, until) =
              started_row env user id plan db s (activate_write_row env user id plan db s db' w) in
            (ground arith, credit, plan, found, ground arith, planned, status, mine, until, written)
      ]
    ]
