-- ===== src/Subscriptions/Access/Gate.antt =====
-- Who gets past the gate of paid routes.
use fann_api.Prelude.{
  ℕ, ◌<◌, ◌≡◌, refl, ◌⊎◌, inl, inr, ◌↔◌, Bool, true, ◌&&◌, Option, none, some, List, arith, ok, err,
  unauthorized, payment_required, first, count, Option-cases, Bool-cases, first-eq-some,
  first-eq-none, count-first,
}
use fann_api.Billing.{Plan, Subscription}
use fann_api.Subscriptions.Access.{
  UserRole, is_live, has_plan, get_active_subscription, has_active_subscription, out_of_scope,
  can_activate,
}

-- active for the user, not run out by the clock, and of a plan that exists
abbrev pub grants : ℕ → List Plan → ℕ → Subscription → Bool
grants now plans user s = is_live now user s && has_plan plans s

module _ (now : ℕ) (plans : List Plan) (subs : List Subscription) (user : ℕ) where
  pub has_active_subscription_iff :
      (has_active_subscription now plans subs user ≡ true)
      ↔ (0 < count (grants now plans user) subs)
  unfolding has_active_subscription get_active_subscription
  has_active_subscription_iff = elim (Option-cases (first (grants now plans user) subs)) [
    | inl nothing ↦ (
      λ e. absurd (ground arith),
      λ h. absurd (ground (arith, first-eq-none (grants now plans user) subs nothing)),
    )
    | inr (s, found) ↦ (
      λ e. count-first (grants now plans user) subs s found,
      λ h. ground (arith, found, first-eq-some (grants now plans user) subs s found),
    )
  ]

  -- Nobody gets past the gate without a session. A user whose role is outside the scope of the
  -- route gets past; any other exactly with a row that is active, has not run out by the clock and
  -- is of a plan that exists, whatever the hourly job has done; and is otherwise told to pay.
  pub can_activate_lem :
      (role : UserRole) (scoped : Option (List UserRole))
      → let answer = can_activate now plans subs (some (user, role)) scoped in
        (can_activate now plans subs none scoped ≡ err unauthorized)
        × ((answer ≡ ok true)
            ↔ ((out_of_scope scoped role ≡ true) ⊎ (0 < count (grants now plans user) subs)))
        × ((answer ≡ ok true) ⊎ (answer ≡ err payment_required))
  unfolding can_activate
  can_activate_lem role scoped =
      let (to, from) = has_active_subscription_iff in
      elim (Bool-cases (out_of_scope scoped role)) [
        | inl out ↦ (refl, (λ e. inl out, λ e. ground arith), ground arith)
        | inr in_ ↦ elim (Bool-cases (has_active_subscription now plans subs user)) [
          | inl paid ↦ (refl, (λ e. inr (to paid), λ e. ground arith), ground arith)
          | inr unpaid ↦ (
            refl,
            (
              λ e. absurd (ground arith),
              λ e. absurd (elim e [ inl a ↦ ground arith | inr b ↦ ground (arith, from b) ]),
            ),
            ground arith,
          )
        ]
      ]
