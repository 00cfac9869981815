-- ===== src/Subscriptions/Expire/Promotion.antt =====
-- What one round of the promotion loop does.
use fann_api.Prelude.{
  ℕ, Result, unique_violation, ◌+◌, ◌≤◌, ◌<◌, ◌≡◌, refl, false, none, some, List, arith, count,
  update, Env, ok, err, Option-cases, inl, inr, All, ◌≢◌, ◌==◌, count-update_same,
  count-update_split, count_disjoint, count_mono, count-update_drop, All-update,
}
use native.Mathlib.Decide.{ℕ_discrete}
use fann_api.Billing.{
  one_active_per_user, Plan, Subscription, Db, active_of, queued_of, write_subscriptions,
}
use fann_api.Billing.Index.{
  AtMostOneActive, one_active_complete, one_active_sound, write_subscriptions-cases,
}
use fann_api.Subscriptions.Expire.{run_out, next_queued, queued_id, promote, promote_next}
use fann_api.Subscriptions.Expire.Counts.{
  DistinctIds, HasPlan, queued_row_of, next_queued-eq-none, next_queued-eq-some,
}

-- The constraints of the schema: the unique index, the primary key, the foreign key to the
-- plans, and CHECK (duration_days > 0).
pub record IsValid (db : Db) : Type 0 where
  pub one_active : AtMostOneActive db.subscriptions
  pub distinct_ids : DistinctIds db.subscriptions
  pub has_plan : All (HasPlan db.plans) db.subscriptions
  pub lasting : All (λ (p : Plan). 0 < p.duration_days) db.plans

-- A promotion by the id of a queued row of `user`: every other user keeps their rows, and `user`
-- has one more active row.
module _ (env : Env) (user : ℕ) (s : Subscription) (plan : Plan) (t : List Subscription)
    (ids : DistinctIds t) (here : 0 < count (queued_row_of user s) t) where
  promoted_self :
      count (active_of user) (update (queued_id s.id) (promote env plan) t)
      ≡ count (active_of user) t + 1
  promoted_self = omega (
    arith,
    here,
    ids s.id,
    count-update_split (active_of user) (queued_id s.id) (λ x. x.user_id == user) (promote env plan)
        t (λ x h. ground arith) (λ x h. ground arith),
    count_mono (queued_id s.id) (λ x. x.id == s.id) t (λ x h. ground arith),
    count_mono (queued_row_of user s) (queued_id s.id) t (λ x h. ground arith),
  )

  promoted_other :
      (v : ℕ)
      → v ≢ user
      → count (active_of v) (update (queued_id s.id) (promote env plan) t) ≡ count (active_of v) t
  promoted_other v n = omega (
    arith,
    here,
    ids s.id,
    count-update_split (active_of v) (queued_id s.id) (λ x. x.user_id == v) (promote env plan) t
        (λ x h. ground arith) (λ x h. ground arith),
    count_mono (queued_id s.id) (λ x. x.id == s.id) t (λ x h. ground arith),
    count_disjoint (queued_id s.id) (λ x. x.user_id == user) (λ x. x.user_id == v) t
        (λ x h a b. n (ground arith)),
  )

-- What one round of the loop does for `user`, and for everybody.
pub record Promotes (now user : ℕ) (db db' : Db) : Type 0 where
  pub valid : IsValid db'
  pub keeps : (v : ℕ) → count (active_of v) db.subscriptions ≤ count (active_of v) db'.subscriptions
  pub drains :
      (v : ℕ) → count (queued_of v) db'.subscriptions ≤ count (queued_of v) db.subscriptions
  pub serves :
      0 < count (queued_of user) db.subscriptions → 0 < count (active_of user) db'.subscriptions
  pub lasts : count (run_out now) db'.subscriptions ≤ count (run_out now) db.subscriptions

module _ (env : Env) (user : ℕ) (db : Db) (valid : IsValid db) where
  promoted-Promotes :
      (s : Subscription) (plan : Plan)
      → 0 < count (queued_row_of user s) db.subscriptions
      → 0 < plan.duration_days
      → let t = update (queued_id s.id) (promote env plan) db.subscriptions in
        AtMostOneActive t → Promotes env.now user db (record db { subscriptions = t })
  promoted-Promotes s plan here long unique =
      let p = queued_id s.id in
      let f = promote env plan in
      let self = promoted_self env user s plan db.subscriptions valid.distinct_ids here in
      let other = promoted_other env user s plan db.subscriptions valid.distinct_ids here in
      record {
        valid = record {
          one_active = unique;
          distinct_ids = λ i. omega (
            arith,
            valid.distinct_ids i,
            count-update_same (λ x. x.id == i) p f db.subscriptions (λ x h. refl),
          );
          has_plan = All-update (HasPlan db.plans) p f db.subscriptions (λ x h k. k) valid.has_plan;
          lasting = valid.lasting;
        };
        keeps = λ v. elim (ℕ_discrete v user) [
          | yes e ↦ rw e (omega (arith, self))
          | no n ↦ omega (arith, other v n)
        ];
        drains = λ v. count-update_drop (queued_of v) p f db.subscriptions (λ x h. ground arith);
        serves = λ h. omega (arith, self);
        lasts = count-update_drop (run_out env.now) p f db.subscriptions (λ x h. ground arith);
      }

  same-Promotes :
      (0 < count (queued_of user) db.subscriptions → 0 < count (active_of user) db.subscriptions)
      → Promotes env.now user db db
  same-Promotes h = record {
    valid = valid;
    keeps = λ v. omega arith;
    drains = λ v. omega arith;
    serves = h;
    lasts = omega arith;
  }

  -- A failed write means that the user already has an active row.
  refused_has_active :
      (s : Subscription) (plan : Plan)
      → 0 < count (queued_row_of user s) db.subscriptions
      → one_active_per_user (update (queued_id s.id) (promote env plan) db.subscriptions) ≡ false
      → 0 < count (active_of user) db.subscriptions
  refused_has_active s plan here broken =
      elim (ℕ_discrete (count (active_of user) db.subscriptions) 0) [
        | yes free ↦
            let t = update (queued_id s.id) (promote env plan) db.subscriptions in
            let self = promoted_self env user s plan db.subscriptions valid.distinct_ids here in
            let fine : AtMostOneActive t = λ v. elim (ℕ_discrete v user) [
              | yes e ↦ rw e (omega (arith, self))
              | no n ↦ omega (
                arith,
                promoted_other env user s plan db.subscriptions valid.distinct_ids here v n,
                valid.one_active v,
              )
            ] in
            let ok_ = one_active_complete t fine in absurd (ground arith)
        | no n ↦ omega arith
      ]

  after_none : next_queued user db ≡ none → (promote_next env user db).1 ≡ db
  unfolding promote_next
  after_none e = ground arith

  module _ (s : Subscription) (plan : Plan) (found : next_queued user db ≡ some (s, plan)) where
    after_write :
        (r : Result (Unit {0})) (db' : Db)
        → write_subscriptions (update (queued_id s.id) (promote env plan) db.subscriptions) db
          ≡ (r, db')
        → (promote_next env user db).1 ≡ db'
    unfolding promote_next
    after_write (ok x) db' e = ground arith
    after_write (err x) db' e = ground arith

    some-Promotes : Promotes env.now user db (promote_next env user db).1
    some-Promotes =
        let (here, long) = next_queued-eq-some user db s plan valid.lasting found in
        elim (write_subscriptions-cases
          (update (queued_id s.id) (promote env plan) db.subscriptions) db) [
            | inl (fine, e) ↦
                rw (after_write (ok tt) _ e)
                  (promoted-Promotes s plan here long (one_active_sound _ fine))
            | inr (broken, e) ↦
                rw (after_write (err unique_violation) db e)
                  (same-Promotes (λ _. refused_has_active s plan here broken))
          ]

  pub promote_next-Promotes : Promotes env.now user db (promote_next env user db).1
  promote_next-Promotes = elim (Option-cases (next_queued user db)) [
    | inl nothing ↦ rw (after_none nothing) (
        same-Promotes
          (λ h. absurd (omega (arith, next_queued-eq-none user db valid.has_plan nothing))))
    | inr ((s, plan), found) ↦ some-Promotes s plan found
  ]
