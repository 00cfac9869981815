-- ===== src/Payments/Reconcile/Grants.antt =====
-- Polling never grants.
use fann_api.Prelude.{
  ℕ, ◌≤◌, ◌<◌, ◌&&◌, ◌≡◌, refl, ◌∙◌, ap, Option, List, [], ◌∷◌, arith, Env, Text, text_eq, count,
  update, count-update_drop, rows, first, Option-cases, Bool-cases, inl, inr, ◌==◌, Bool, not, some,
  ◌+◌, ==_iff,
}
use fann_api.Billing.{Payment, Db, rejected}
use fann_api.Payments.Providers.{
  PaymentProvider, ProviderStatus, failed, expired, paid, unknown, pollable, manual_code,
}
use fann_api.Payments.Webhooks.{is_confirmed, set_status}
use fann_api.Payments.Reconcile.{
  is_run_out, is_abandoned, is_stale, expired_status, write_status, poll, poll_all,
  do_payment_reconciliation,
}

-- Only payments are written, and no more of them are confirmed than before.
pub record GrantsNothing (db db' : Db) : Type 0 where
  pub only_payments : db' ≡ record db { payments = db'.payments }
  pub confirmed_payments : count is_confirmed db'.payments ≤ count is_confirmed db.payments

GrantsNothing-trans : (a b c : Db) → GrantsNothing a b → GrantsNothing b c → GrantsNothing a c
GrantsNothing-trans a b c p q = record {
  only_payments =
      q.only_payments ∙ ap (λ (d : Db). record d { payments = c.payments }) p.only_payments;
  confirmed_payments = omega (arith, p.confirmed_payments, q.confirmed_payments);
}

GrantsNothing-same : (db : Db) → GrantsNothing db db
GrantsNothing-same db = record { only_payments = refl; confirmed_payments = omega arith }

write_status-GrantsNothing :
    (id : ℕ) (s : ProviderStatus) (db : Db) → GrantsNothing db (write_status id s db)
unfolding write_status
write_status-GrantsNothing id failed db = record {
  only_payments = refl;
  confirmed_payments =
      count-update_drop is_confirmed (λ p. p.id == id) (set_status rejected) db.payments
        (λ x h. refl);
}
write_status-GrantsNothing id expired db = record {
  only_payments = refl;
  confirmed_payments =
      count-update_drop is_confirmed (λ p. p.id == id) expired_status db.payments (λ x h. refl);
}
write_status-GrantsNothing id paid db = GrantsNothing-same db
write_status-GrantsNothing id unknown db = GrantsNothing-same db

poll-GrantsNothing :
    (get_status : Text → Option ProviderStatus) (ps : List Payment) (db : Db)
    → GrantsNothing db (poll get_status ps db)
unfolding poll
poll-GrantsNothing get_status [] db = GrantsNothing-same db
poll-GrantsNothing get_status (p ∷ ps) db = elim (Option-cases p.provider_ref) [
  | inl missing ↦ rw missing (poll-GrantsNothing get_status ps db)
  | inr (r, e) ↦ elim (Option-cases (get_status r)) [
    | inl failed_ ↦ rw (e, failed_) (poll-GrantsNothing get_status ps db)
    | inr (s, answer) ↦
        rw (e, answer)
          (GrantsNothing-trans db (write_status p.id s db)
            (poll get_status ps (write_status p.id s db)) (write_status-GrantsNothing p.id s db)
            (poll-GrantsNothing get_status ps (write_status p.id s db)))
  ]
]

poll_all-GrantsNothing :
    (env : Env) (providers : List PaymentProvider) (db : Db)
    → GrantsNothing db (poll_all env providers db)
unfolding poll_all
poll_all-GrantsNothing env [] db = GrantsNothing-same db
poll_all-GrantsNothing env (provider ∷ providers) db = elim (Option-cases provider.get_status) [
  | inl silent ↦ rw silent (poll_all-GrantsNothing env providers db)
  | inr (g, e) ↦ elim (Bool-cases (text_eq provider.code manual_code)) [
    | inl manual ↦ rw (e, manual) (poll_all-GrantsNothing env providers db)
    | inr hosted ↦
        let db' = poll g (rows (is_stale env.now provider.code) db.payments) db in
        rw (e, hosted)
          (GrantsNothing-trans db db' (poll_all env providers db')
            (poll-GrantsNothing g (rows (is_stale env.now provider.code) db.payments) db)
            (poll_all-GrantsNothing env providers db'))
  ]
]

-- Whatever the providers report, the reconciliation job confirms no payment and grants nothing: it
-- writes to payments alone, and the number of confirmed ones does not grow.
pub do_payment_reconciliation-GrantsNothing :
    (env : Env) (providers : List PaymentProvider) (db : Db)
    → GrantsNothing db (do_payment_reconciliation env providers db)
unfolding do_payment_reconciliation
do_payment_reconciliation-GrantsNothing env providers db =
    let aged = update (is_run_out env.now) expired_status db.payments in
    let kept : Db = record db { payments = update (is_abandoned env.now) expired_status aged } in
    GrantsNothing-trans db kept (poll_all env (pollable providers) kept)
      (record {
        only_payments = refl;
        confirmed_payments = omega (
          arith,
          count-update_drop is_confirmed (is_run_out env.now) expired_status db.payments
              (λ x h. refl),
          count-update_drop is_confirmed (is_abandoned env.now) expired_status aged (λ x h. refl),
        );
      })
      (poll_all-GrantsNothing env (pollable providers) kept)

-- the confirmed payments of which the id meets a test
abbrev confirmed_of : (ℕ → Bool) → Payment → Bool
confirmed_of keep p = keep p.id && is_confirmed p

write_status-drops :
    (keep : ℕ → Bool) (id : ℕ) (s : ProviderStatus) (db : Db)
    → count (confirmed_of keep) (write_status id s db).payments
      ≤ count (confirmed_of keep) db.payments
unfolding write_status
write_status-drops keep id failed db =
    count-update_drop (confirmed_of keep) (λ p. p.id == id) (set_status rejected) db.payments
      (λ x h. ground arith)
write_status-drops keep id expired db =
    count-update_drop (confirmed_of keep) (λ p. p.id == id) expired_status db.payments
      (λ x h. ground arith)
write_status-drops keep id paid db = omega arith
write_status-drops keep id unknown db = omega arith

module _ (get_status : Text → Option ProviderStatus) where
  poll-drops :
      (keep : ℕ → Bool) (ps : List Payment) (db : Db)
      → count (confirmed_of keep) (poll get_status ps db).payments
        ≤ count (confirmed_of keep) db.payments
  unfolding poll
  poll-drops keep [] db = omega arith
  poll-drops keep (p ∷ ps) db = elim (Option-cases p.provider_ref) [
    | inl missing ↦ rw (poll, missing) (poll-drops keep ps db)
    | inr (r, e) ↦ elim (Option-cases (get_status r)) [
      | inl failed_ ↦ rw (poll, e, failed_) (poll-drops keep ps db)
      | inr (s, answer) ↦
          let written = write_status-drops keep p.id s db in
          let rest = poll-drops keep ps (write_status p.id s db) in
          rw (poll, e, answer) (omega (arith, written, rest))
    ]
  ]

  failed_clears :
      (id : ℕ) (ps : List Payment)
      → count (confirmed_of (λ n. n == id)) (update (λ p. p.id == id) (set_status rejected) ps) ≡ 0
  failed_clears id [] = refl
  failed_clears id (p ∷ ps) = ground (arith, failed_clears id ps)

  -- after a poll in which a row's answer is 'failed', no row of its id is confirmed
  poll_clears :
      (id : ℕ) (p : Payment) (ref : Text) (ps : List Payment) (db : Db)
      → first (λ q. q.id == id) ps ≡ some p
      → p.provider_ref ≡ some ref
      → get_status ref ≡ some failed
      → count (confirmed_of (λ n. n == id)) (poll get_status ps db).payments ≡ 0
  unfolding poll write_status
  poll_clears id p ref [] db found issued answer = cc
  poll_clears id p ref (q ∷ ps) db found issued answer = elim (Bool-cases (q.id == id)) [
    | inl t ↦
        let same : q ≡ p = ground arith in
        let own : q.id ≡ id = ground (arith, ==_iff q.id id) in
        let issued_ : q.provider_ref ≡ some ref = rw same issued in
        let rest = poll-drops (λ n. n == id) ps (write_status id failed db) in
        let cleared = failed_clears id db.payments in
        rw (poll, issued_, answer, own) (omega (arith, rest, cleared))
    | inr t ↦ poll_clears id p ref ps _ (ground arith) issued answer
  ]

split_confirmed :
    (id : ℕ) (ps : List Payment)
    → count is_confirmed ps
      ≡ count (confirmed_of (λ n. n == id)) ps + count (confirmed_of (λ n. not (n == id))) ps
split_confirmed id [] = refl
split_confirmed id (p ∷ ps) = ground (arith, split_confirmed id ps)

-- The poll works on the rows that it read, and writes by the id alone. If a payment among them was
-- confirmed between the read and the poll, whatever else changed in between, and the provider
-- answers 'failed' for it, then the poll takes the confirmation back, while every subscription
-- stays, those included that the confirmation granted.
pub poll_overwrites :
    (now id : ℕ) (code ref : Text) (get_status : Text → Option ProviderStatus) (p : Payment)
    (read db : Db)
    → first (λ q. q.id == id) (rows (is_stale now code) read.payments) ≡ some p
    → p.provider_ref ≡ some ref
    → get_status ref ≡ some failed
    → 0 < count (λ q. (q.id == id) && is_confirmed q) db.payments
    → let db' = poll get_status (rows (is_stale now code) read.payments) db in
      (count is_confirmed db'.payments < count is_confirmed db.payments)
      × (count (λ q. (q.id == id) && is_confirmed q) db'.payments ≡ 0)
      × (db'.subscriptions ≡ db.subscriptions)
poll_overwrites now id code ref get_status p read db found issued answer mine =
    let stale = rows (is_stale now code) read.payments in
    let cleared = poll_clears get_status id p ref stale db found issued answer in
    let others = poll-drops get_status (λ n. not (n == id)) stale db in
    let before = split_confirmed id db.payments in
    let after = split_confirmed id (poll get_status stale db).payments in
    (
      omega (arith, cleared, others, before, after, mine),
      cleared,
      ap (λ (x : Db). x.subscriptions) (poll-GrantsNothing get_status stale db).only_payments,
    )
