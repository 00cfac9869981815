-- ===== src/Subscriptions/Access.antt =====
-- src/common/subscription.util.ts and src/common/subscription.guard.ts: who has paid access now.
pub mod Gate
use fann_api.Prelude.{
  ℕ, ◌-◌, Bool, true, false, ◌&&◌, ◌||◌, not, Option, none, some, List, [], ◌∷◌, ltb, leb, ◌==◌,
  if◌then◌else◌, holds, or_else, is_some, first, count, Result, ok, err, unauthorized,
  payment_required,
}
use fann_api.Billing.{PlanCode, plan_eq, Plan, Subscription, active_of}

-- a row of `messages`, as far as the cap looks at it
pub record SentMessage : Type 0 where
  pub sender_id : ℕ
  pub created_at : ℕ

abbrev pub find_plan : PlanCode → List Plan → Option Plan
find_plan code plans = first (λ p. plan_eq p.code code) plans

-- the row and its plan, as the inner join gives them
abbrev pub join_plan : List Plan → Option Subscription → Option (Subscription × Plan)
join_plan plans none = none
join_plan plans (some s) = elim (find_plan s.plan_code plans) [ none ↦ none | some p ↦ some (s, p) ]

-- `s.user_id = u AND s.status = 'active' AND s.expires_at > now()`
abbrev pub is_live : ℕ → ℕ → Subscription → Bool
is_live now u s = active_of u s && holds (λ e. ltb now e) s.expires_at

abbrev has_plan : List Plan → Subscription → Bool
has_plan plans s = is_some (find_plan s.plan_code plans)

unfoldable pub get_active_subscription :
    (now : ℕ) → List Plan → List Subscription → (user : ℕ) → Option (Subscription × Plan)
get_active_subscription now plans subs user =
    join_plan plans (first (λ s. is_live now user s && has_plan plans s) subs)

unfoldable pub has_active_subscription : ℕ → List Plan → List Subscription → ℕ → Bool
unfolding get_active_subscription
has_active_subscription now plans subs user = is_some (get_active_subscription now plans subs user)

abbrev pub sent_since : ℕ → ℕ → SentMessage → Bool
sent_since user start m = (m.sender_id == user) && leb start m.created_at

-- none: uncapped. `Math.max(0, cap - sent)` is the subtraction of natural numbers.
unfoldable pub remaining_messages : List SentMessage → Subscription × Plan → Option ℕ
remaining_messages messages (s, p) = elim (p.message_cap) [
  | none ↦ none
  | some cap ↦ elim (or_else s.starts_at s.activated_at) [
    | none ↦ none
    | some start ↦ some (cap - count (sent_since s.user_id start) messages)
  ]
]

pub data UserRole : Type 0 where
  artist planner admin : UserRole

abbrev pub role_eq : UserRole → UserRole → Bool
role_eq artist artist = true
role_eq planner planner = true
role_eq admin admin = true
role_eq _ _ = false

abbrev includes : List UserRole → UserRole → Bool
includes [] r = false
includes (x ∷ xs) r = role_eq r x || includes xs r

abbrev out_of_scope : Option (List UserRole) → UserRole → Bool
out_of_scope none r = false
out_of_scope (some []) r = false
out_of_scope (some (x ∷ xs)) r = not (includes (x ∷ xs) r)

-- `SubscriptionGuard.canActivate`: the session's user, and the roles that the route declares
unfoldable pub can_activate :
    ℕ → List Plan → List Subscription → Option (ℕ × UserRole) → Option (List UserRole) → Result Bool
unfolding has_active_subscription
can_activate now plans subs none scoped = err unauthorized
can_activate now plans subs (some (id, role)) scoped =
    if out_of_scope scoped role
    then ok true
    else if not (has_active_subscription now plans subs id)
    then err payment_required
    else ok true
