-- ===== src/Subscriptions/Expire.antt =====
-- `expireAndPromote`, the hourly job: what has run out expires, and then every user with nothing
-- running gets the oldest queued period.
pub mod Counts
pub mod Promotion
pub mod NobodyWaits
use fann_api.Prelude.{
  ℕ, Bool, true, false, ◌&&◌, not, Option, none, some, List, [], ◌∷◌, ◌==◌, if◌then◌else◌, leb,
  holds, head?, rows, update, updated, any, map, distinct, order_by, add_days, Env, Action, Result,
  ok, err, pure, raise, gets, ◌>>=◌, ◌>>◌,
}
use fann_api.Billing.{
  Plan, Subscription, active, expired, is_active, is_queued, active_of, queued_of, Db,
  write_subscriptions,
}
use fann_api.Subscriptions.Access.{find_plan}

-- `status = 'active' AND expires_at <= now()`
abbrev pub run_out : ℕ → Subscription → Bool
run_out now s = is_active s && holds (λ e. leb e now) s.expires_at

abbrev pub expire : Subscription → Subscription
expire s = record s { status = expired }

unfoldable pub expire_due : Env → Action Db (List Subscription)
expire_due env = do
  subs ← gets (λ db. db.subscriptions)
  write_subscriptions (update (run_out env.now) expire subs)
  pure (updated (run_out env.now) expire subs)

-- the users with a queued period and nothing running
abbrev pub is_waiting : List Subscription → Subscription → Bool
is_waiting subs s = is_queued s && not (any (active_of s.user_id) subs)

abbrev pub waiting : List Subscription → List ℕ
waiting subs = distinct (map (λ s. s.user_id) (rows (is_waiting subs) subs))

-- the join of queued rows with their plans
abbrev pub joined :
    Subscription → Option Plan → List (Subscription × Plan) → List (Subscription × Plan)
joined s none rest = rest
joined s (some p) rest = (s, p) ∷ rest

abbrev pub with_plan : List Plan → List Subscription → List (Subscription × Plan)
with_plan plans [] = []
with_plan plans (s ∷ subs) = joined s (find_plan s.plan_code plans) (with_plan plans subs)

abbrev pub next_queued : ℕ → Db → Option (Subscription × Plan)
next_queued user db =
    head?
      (order_by (λ x. x.0.created_at) (with_plan db.plans (rows (queued_of user) db.subscriptions)))

abbrev pub queued_id : ℕ → Subscription → Bool
queued_id id s = (s.id == id) && is_queued s

abbrev pub promote : Env → Plan → Subscription → Subscription
promote env plan s = record s {
  status = active;
  starts_at = some env.now;
  expires_at = some (add_days env.now plan.duration_days);
}

-- one round of the loop, without its `try`
unfoldable pub promote_next : Env → ℕ → Action Db (Option Subscription)
promote_next env user db = elim (next_queued user db) [
  | none ↦ (ok none, db)
  | some (s, plan) ↦
      let t = update (queued_id s.id) (promote env plan) db.subscriptions in
      let (r, db') = write_subscriptions t db in
      elim r [
        | ok _ ↦ (ok (head? (updated (queued_id s.id) (promote env plan) db.subscriptions)), db')
        | err e ↦ (err e, db')
      ]
]

abbrev pub collect : Result (Option Subscription) → List Subscription → List Subscription
collect (ok (some s)) rest = s ∷ rest
collect (ok none) rest = rest
collect (err e) rest = rest

-- the loop: a failed promotion is logged and the next user is served
unfoldable pub promote_all : Env → List ℕ → Db → List Subscription × Db
promote_all env [] db = ([], db)
promote_all env (u ∷ users) db =
    let (r, db') = promote_next env u db in
    let (rest, db'') = promote_all env users db' in (collect r rest, db'')

unfoldable pub expire_and_promote : Env → Action Db (List Subscription × List Subscription)
unfolding expire_due
expire_and_promote env = do
  gone ← expire_due env
  users ← gets (λ db. waiting db.subscriptions)
  λ db. let (promoted, db') = promote_all env users db in (ok (gone, promoted), db')
