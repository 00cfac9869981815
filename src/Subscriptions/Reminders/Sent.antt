-- ===== src/Subscriptions/Reminders/Sent.antt =====
-- No reminder is sent twice.
use fann_api.Prelude.{
  ℕ, ◌≡◌, refl, inl, inr, Bool, true, ◌&&◌, ◌||◌, not, List, [], ◌∷◌, ◌++◌, ◌==◌, arith, Env, any,
  any-append, rows, All, Bool-cases, ==_self,
}
use fann_api.Billing.{Db, Notification}
use fann_api.Subscriptions.Reminders.{
  Reminder, candidates, tells, was_sent, is_running, find_due_renewal_reminders, warning, warnings,
  do_renewal_reminders,
}

-- Everyone who is warned is in the table of users.
abbrev pub HasUsers : (ℕ → Bool) → List Reminder → Type 0
HasUsers has_user cs = All (λ (c : Reminder). has_user c.user_id ≡ true) cs

-- a reminder among candidates that include its user, and its own warning
warned :
    (cs : List Reminder) (c : Reminder)
    → any (λ (d : Reminder). d.user_id == c.user_id) cs ≡ true
    → was_sent cs (warning c ∷ []) c ≡ true
warned cs c h = ground (arith, h, ==_self c.subscription_id, ==_self c.days)

was_sent-append :
    (cs : List Reminder) (xs ys : List Notification) (c : Reminder)
    → was_sent cs (xs ++ ys) c ≡ (was_sent cs xs c || was_sent cs ys c)
was_sent-append cs xs ys c =
    any-append (λ n. any (λ d. d.user_id == n.user_id) cs && tells c n.notice) xs ys

module _ (has_user : ℕ → Bool) (all : List Reminder) (old last : List Notification) where
  abbrev due : List Reminder → List Reminder
  due cs = rows (λ c. not (was_sent all old c)) cs

  -- The ones that were not sent before are told by their own warnings.
  all_sent :
      (cs : List Reminder)
      → HasUsers has_user cs
      → All (λ (c : Reminder). any (λ (d : Reminder). d.user_id == c.user_id) all ≡ true) cs
      → ((c : Reminder) → was_sent all old c ≡ true → was_sent all last c ≡ true)
      → ((c : Reminder)
          → was_sent all (warnings has_user (due cs)) c ≡ true
          → was_sent all last c ≡ true)
      → All (λ c. was_sent all last c ≡ true) cs
  all_sent [] u h keep add = tt
  all_sent (c ∷ cs) (u, us) (h, hs) keep add = elim (Bool-cases (was_sent all old c)) [
    | inl sent ↦ (keep c sent, all_sent cs us hs keep (λ x e. add x (ground arith)))
    | inr open_ ↦
        let w = warned all c h in
        (add c (ground arith), all_sent cs us hs keep (λ x e. add x (ground arith)))
  ]

rows_none :
    (p : Reminder → Bool) (cs : List Reminder)
    → All (λ c. p c ≡ true) cs
    → rows (λ c. not (p c)) cs ≡ []
rows_none p [] h = refl
rows_none p (c ∷ cs) h = ground (arith, rows_none p cs h.1)

-- every candidate is among the candidates
among :
    (all cs : List Reminder)
    → ((c : Reminder)
        → any (λ (d : Reminder). d.user_id == c.user_id) cs ≡ true
        → any (λ (d : Reminder). d.user_id == c.user_id) all ≡ true)
    → All (λ (c : Reminder). any (λ (d : Reminder). d.user_id == c.user_id) all ≡ true) cs
among all [] h = tt
among all (c ∷ cs) h =
    (h c (ground (arith, ==_self c.user_id)), among all cs (λ x e. h x (ground arith)))

-- Where the users of all candidates exist, a run of the job leaves nothing due: a second run at the
-- same time, or a retry of it, warns nobody.
pub remind_once :
    (has_user : ℕ → Bool) (env : Env) (db : Db)
    → HasUsers has_user (candidates env.node_now (rows (is_running env.now) db.subscriptions))
    → find_due_renewal_reminders env (do_renewal_reminders has_user env db) ≡ []
unfolding find_due_renewal_reminders do_renewal_reminders
remind_once has_user env db u =
    let cs = candidates env.node_now (rows (is_running env.now) db.subscriptions) in
    let new = warnings has_user (rows (λ c. not (was_sent cs db.notifications c)) cs) in
    rows_none (was_sent cs (db.notifications ++ new)) cs (
      all_sent has_user cs db.notifications (db.notifications ++ new) cs u (among cs cs (λ x e. e))
        (λ x e. ground (arith, was_sent-append cs db.notifications new x))
        (λ x e. ground (arith, was_sent-append cs db.notifications new x)))
