-- ===== src/Billing/Index.antt =====
-- The unique index, as a statement about each user.
use fann_api.Prelude.{
  >>=-ok, pure, ◌⊎◌, err, unique_violation, ℕ, ok, ◌≤◌, ◌≡◌, refl, true, false, List, [], ◌∷◌, ◌++◌,
  arith, count, count-append, is_some, Bool-cases, inl, inr, ==_iff,
}
use fann_api.Billing.{
  Db, write_subscriptions, insert_subscription, Subscription, active_of, is_active,
  one_active_per_user,
}

abbrev pub AtMostOneActive : List Subscription → Type 0
AtMostOneActive t = (u : ℕ) → count (active_of u) t ≤ 1

pub one_active_complete : (t : List Subscription) → AtMostOneActive t → one_active_per_user t ≡ true
unfolding one_active_per_user
one_active_complete [] h = refl
one_active_complete (r ∷ t) h =
    ground (arith, h r.user_id, one_active_complete t (λ u. let k = h u in ground arith))

pub one_active_sound : (t : List Subscription) → one_active_per_user t ≡ true → AtMostOneActive t
unfolding one_active_per_user
one_active_sound [] h u = omega arith
one_active_sound (r ∷ t) h u = elim (Bool-cases (one_active_per_user t)) [
  | inl rest ↦ ground (arith, one_active_sound t rest u, ==_iff r.user_id u)
  | inr broken ↦ ground arith
]

-- An active row has an expiry, which activation and promotion write.
abbrev pub HasExpiry : Subscription → Type 0
HasExpiry r = is_active r ≡ true → is_some r.expires_at ≡ true

pub write_subscriptions-eq-ok :
    (t : List Subscription) (db : Db)
    → AtMostOneActive t
    → write_subscriptions t db ≡ (ok tt, record db { subscriptions = t })
unfolding write_subscriptions
write_subscriptions-eq-ok t db h = rw (one_active_complete t h)

pub insert_subscription-eq-ok :
    (r : Subscription) (db : Db)
    → AtMostOneActive (db.subscriptions ++ r ∷ [])
    → insert_subscription r db ≡ (ok r, record db { subscriptions = db.subscriptions ++ r ∷ [] })
unfolding insert_subscription
insert_subscription-eq-ok r db h =
    >>=-ok (write_subscriptions (db.subscriptions ++ r ∷ [])) (λ _. pure r) db
      (write_subscriptions-eq-ok (db.subscriptions ++ r ∷ []) db h)

-- One more row that is not active, or that is its user's only active one.
pub AtMostOneActive-insert :
    (t : List Subscription) (r : Subscription)
    → AtMostOneActive t
    → (is_active r ≡ true → count (active_of r.user_id) t ≡ 0)
    → AtMostOneActive (t ++ r ∷ [])
AtMostOneActive-insert t r h free u =
    ground (arith, count-append (active_of u) t (r ∷ []), h u, ==_iff r.user_id u)

pub write_subscriptions-cases :
    (t : List Subscription) (db : Db)
    → ((one_active_per_user t ≡ true)
        × (write_subscriptions t db ≡ (ok tt, record db { subscriptions = t })))
      ⊎ ((one_active_per_user t ≡ false) × (write_subscriptions t db ≡ (err unique_violation, db)))
unfolding write_subscriptions
write_subscriptions-cases t db = elim (Bool-cases (one_active_per_user t)) [
  | inl e ↦ inl (e, rw e)
  | inr e ↦ inr (e, rw e)
]
