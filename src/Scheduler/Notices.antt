-- ===== src/Scheduler/Notices.antt =====
-- Who is told what by the hourly maintenance.
use fann_api.Prelude.{
  ℕ, ◌≤◌, ◌≡◌, refl, sym, ◌∙◌, inl, inr, Bool, true, false, not, Option, none, some, List, [], ◌∷◌,
  ◌+◌, ◌++◌, ◌==◌, map, arith, first, rows, update, any, count, any-zero, first-ne-none,
  count-append, Option-cases, Bool-cases, ==_iff,
}
use fann_api.Billing.{Subscription}
use fann_api.Scheduler.{
  MaintenanceNotification, of_user, expired_notice, rolled_over_notice, started_notice, set_entry,
  to_map, notices, build_maintenance_notifications,
}

abbrev pub told : ℕ → MaintenanceNotification → Bool
told u n = n.user_id == u

-- what a user is to be told: the end of a plan, its rollover into the next, or the start of one
abbrev pub message : Option Subscription → Option Subscription → List MaintenanceNotification
message none none = []
message none (some next) = started_notice next ∷ []
message (some ended) none = expired_notice ended ∷ []
message (some ended) (some next) = rolled_over_notice ended next ∷ []

told-started :
    (u : ℕ) (ps : List Subscription)
    → count (of_user u) ps ≤ 1
    → rows (told u) (map started_notice ps) ≡ message none (first (of_user u) ps)
told-started u [] h = refl
told-started u (p ∷ ps) h = elim (Bool-cases (of_user u p)) [
  | inl e ↦
      let rest : first (of_user u) ps ≡ none = first-ne-none (of_user u) ps (ground arith) in
      let tail = told-started u ps (ground arith) in rw (e, tail, rest) refl
  | inr e ↦ rw e (told-started u ps (ground arith))
]

count-rows_other :
    (u v : ℕ) (ps : List Subscription)
    → count (of_user u) (rows (λ p. not (of_user v p)) ps) ≤ count (of_user u) ps
count-rows_other u v [] = omega arith
count-rows_other u v (p ∷ ps) = ground (arith, count-rows_other u v ps)

first-rows_other :
    (u v : ℕ) (ps : List Subscription)
    → (v == u) ≡ false
    → first (of_user u) (rows (λ p. not (of_user v p)) ps) ≡ first (of_user u) ps
first-rows_other u v [] h = refl
first-rows_other u v (p ∷ ps) h =
    ground (arith, first-rows_other u v ps, ==_iff p.user_id u, ==_iff p.user_id v)

count-rows_own :
    (v : ℕ) (ps : List Subscription) → count (of_user v) (rows (λ p. not (of_user v p)) ps) ≡ 0
count-rows_own v [] = refl
count-rows_own v (p ∷ ps) = ground (arith, count-rows_own v ps)

first-same :
    (u v : ℕ) (ps : List Subscription)
    → (v == u) ≡ true
    → first (of_user v) ps ≡ first (of_user u) ps
first-same u v ps h = ground (arith, ==_iff v u)

count-rows_left :
    (u v : ℕ) (ps : List Subscription)
    → (v == u) ≡ true
    → count (of_user u) (rows (λ p. not (of_user v p)) ps) ≡ 0
count-rows_left u v ps h = ground (arith, ==_iff v u, count-rows_own u ps)

-- a plan's end, told to its owner, leaves nothing more to tell them
told_own :
    (u : ℕ) (e : Subscription) (es ps : List Subscription)
    → (e.user_id == u) ≡ true
    → ((qs : List Subscription)
        → count (of_user u) qs ≤ count (of_user u) ps
        → rows (told u) (notices es qs) ≡ message none (first (of_user u) qs))
    → count (of_user u) ps ≤ 1
    → rows (told u) (notices (e ∷ es) ps) ≡ message (some e) (first (of_user u) ps)
unfolding notices
told_own u e es ps own rest k = elim (Option-cases (first (of_user e.user_id) ps)) [
  | inl none_ ↦
      let same = first-same u e.user_id ps own in
      let here : first (of_user u) ps ≡ none = sym same ∙ none_ in
      let tail = rest ps (omega arith) in rw (notices, none_, own, tail, here) refl
  | inr (next, found) ↦
      let same = first-same u e.user_id ps own in
      let here : first (of_user u) ps ≡ some next = sym same ∙ found in
      let left = rows (λ p. not (of_user e.user_id p)) ps in
      let nothing : count (of_user u) left ≡ 0 = count-rows_left u e.user_id ps own in
      let tail = rest left (omega arith) in
      let over : first (of_user u) left ≡ none = first-ne-none (of_user u) left nothing in
      rw (notices, found, own, tail, here, over) refl
]

told_other :
    (u : ℕ) (e : Subscription) (es ps : List Subscription) (m : Option Subscription)
    → (e.user_id == u) ≡ false
    → ((qs : List Subscription)
        → count (of_user u) qs ≤ count (of_user u) ps
        → rows (told u) (notices es qs) ≡ message m (first (of_user u) qs))
    → rows (told u) (notices (e ∷ es) ps) ≡ message m (first (of_user u) ps)
unfolding notices
told_other u e es ps m other rest = elim (Option-cases (first (of_user e.user_id) ps)) [
  | inl none_ ↦ rw (notices, none_, other) (rest ps (omega arith))
  | inr (next, found) ↦
      let tail =
        rest (rows (λ p. not (of_user e.user_id p)) ps) (count-rows_other u e.user_id ps) in
      let kept = first-rows_other u e.user_id ps other in
      rw (notices, found, other, tail, kept) refl
]

told-notices :
    (u : ℕ) (es ps : List Subscription)
    → count (of_user u) es ≤ 1
    → count (of_user u) ps ≤ 1
    → rows (told u) (notices es ps) ≡ message (first (of_user u) es) (first (of_user u) ps)
unfolding notices
told-notices u [] ps h k = told-started u ps k
told-notices u (e ∷ es) ps h k = elim (Bool-cases (e.user_id == u)) [
  | inl own ↦
      let gone : first (of_user u) es ≡ none = first-ne-none (of_user u) es (ground arith) in
      let rest : (qs : List Subscription)
          → count (of_user u) qs ≤ count (of_user u) ps
          → rows (told u) (notices es qs) ≡ message none (first (of_user u) qs) =
        λ qs l. rw (← gone) (told-notices u es qs (ground arith) (omega arith)) in
      rw own (told_own u e es ps own rest k)
  | inr other ↦
      let rest : (qs : List Subscription)
          → count (of_user u) qs ≤ count (of_user u) ps
          → rows (told u) (notices es qs) ≡ message (first (of_user u) es) (first (of_user u) qs) =
        λ qs l. told-notices u es qs (ground arith) (omega arith) in
      rw other (told_other u e es ps (first (of_user u) es) other rest)
]

count-set_entry_other :
    (u : ℕ) (s : Subscription) (m : List Subscription)
    → (s.user_id == u) ≡ false
    → count (of_user u) (update (of_user s.user_id) (λ o. s) m) ≡ count (of_user u) m
count-set_entry_other u s [] h = refl
count-set_entry_other u s (o ∷ m) h =
    ground (arith, count-set_entry_other u s m h, ==_iff o.user_id u, ==_iff o.user_id s.user_id)

first-set_entry_other :
    (u : ℕ) (s : Subscription) (m : List Subscription)
    → (s.user_id == u) ≡ false
    → first (of_user u) (update (of_user s.user_id) (λ o. s) m) ≡ first (of_user u) m
first-set_entry_other u s [] h = refl
first-set_entry_other u s (o ∷ m) h =
    ground (arith, first-set_entry_other u s m h, ==_iff o.user_id u, ==_iff o.user_id s.user_id)

abbrev after : Option Subscription → Option Subscription → Option Subscription
after none o = o
after (some s) o = some s

first-append :
    (u : ℕ) (m ss : List Subscription)
    → first (of_user u) (m ++ ss) ≡ after (first (of_user u) m) (first (of_user u) ss)
first-append u [] ss = refl
first-append u (o ∷ m) ss = elim (Bool-cases (of_user u o)) [
  | inl e ↦ rw e refl
  | inr e ↦ rw e (first-append u m ss)
]

count-set_entry :
    (u : ℕ) (s : Subscription) (m : List Subscription)
    → (s.user_id == u) ≡ false
    → count (of_user u) (set_entry s m) ≡ count (of_user u) m
count-set_entry u s m h =
    ground (arith, count-set_entry_other u s m h, count-append (of_user u) m (s ∷ []))

first-set_entry :
    (u : ℕ) (s : Subscription) (m : List Subscription)
    → (s.user_id == u) ≡ false
    → first (of_user u) (set_entry s m) ≡ first (of_user u) m
first-set_entry u s m h = elim (Bool-cases (any (of_user s.user_id) m)) [
  | inl e ↦ rw e (first-set_entry_other u s m h)
  | inr e ↦
      let added = first-append u m (s ∷ []) in
      elim (Option-cases (first (of_user u) m)) [
        | inl n ↦ rw (e, added, n, h) refl
        | inr (r, n) ↦ rw (e, added, n) refl
      ]
]

-- the entry of a user with none yet goes to the end
set_entry_new :
    (u : ℕ) (s : Subscription) (m : List Subscription)
    → (s.user_id == u) ≡ true
    → count (of_user u) m ≡ 0
    → set_entry s m ≡ m ++ s ∷ []
set_entry_new u s m h z =
    let here : count (of_user s.user_id) m ≡ 0 = ground (arith, ==_iff s.user_id u) in
    let absent = any-zero (of_user s.user_id) m here in rw absent refl

count-to_map :
    (u : ℕ) (m ss : List Subscription)
    → count (of_user u) m + count (of_user u) ss ≤ 1
    → count (of_user u) (to_map m ss) ≤ 1
count-to_map u m [] h = omega arith
count-to_map u m (s ∷ ss) h = elim (Bool-cases (s.user_id == u)) [
  | inl own ↦
      let put = set_entry_new u s m own (ground arith) in
      let grown = count-append (of_user u) m (s ∷ []) in
      rw put (count-to_map u (m ++ s ∷ []) ss (ground arith))
  | inr other ↦
      let kept = count-set_entry u s m other in count-to_map u (set_entry s m) ss (ground arith)
]

first-to_map :
    (u : ℕ) (m ss : List Subscription)
    → count (of_user u) m + count (of_user u) ss ≤ 1
    → first (of_user u) (to_map m ss) ≡ after (first (of_user u) m) (first (of_user u) ss)
first-to_map u m [] h = elim (Option-cases (first (of_user u) m)) [
  | inl n ↦ rw n refl
  | inr (r, n) ↦ rw n refl
]
first-to_map u m (s ∷ ss) h = elim (Bool-cases (s.user_id == u)) [
  | inl own ↦
      let put = set_entry_new u s m own (ground arith) in
      let grown = count-append (of_user u) m (s ∷ []) in
      let before : first (of_user u) m ≡ none = first-ne-none (of_user u) m (ground arith) in
      let added = first-append u m (s ∷ []) in
      let tail = first-to_map u (m ++ s ∷ []) ss (ground arith) in
      rw (put, tail, added, before, own) refl
  | inr other ↦
      let kept = count-set_entry u s m other in
      let tail = first-to_map u (set_entry s m) ss (ground arith) in
      let same = first-set_entry u s m other in rw (tail, same, other) refl
]

-- Where a user has at most one plan that ended and at most one that started in a run of the
-- maintenance, the notices of the run for them are: none where neither happened, the end of the plan
-- or the start of the plan where one did, and a single one of the rollover where both did.
pub build_maintenance_notifications_lem :
    (u : ℕ) (expired promoted : List Subscription)
    → count (of_user u) expired ≤ 1
    → count (of_user u) promoted ≤ 1
    → rows (told u) (build_maintenance_notifications expired promoted)
      ≡ message (first (of_user u) expired) (first (of_user u) promoted)
unfolding build_maintenance_notifications
build_maintenance_notifications_lem u expired promoted h k =
    let single = count-to_map u [] promoted (ground arith) in
    let same = first-to_map u [] promoted (ground arith) in
    rw (told-notices u expired (to_map [] promoted) h single, same) refl
