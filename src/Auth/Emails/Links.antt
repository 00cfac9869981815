-- ===== src/Auth/Emails/Links.antt =====
-- What a link confirms: its token names the account alone, not the address that it was sent to.
use fann_api.Prelude.{
  ℕ, ◌≡◌, ◌≢◌, refl, sym, ap, subst, ◌∙◌, inl, inr, ◌⊎◌, Bool, true, false, not, ◌&&◌, none, some,
  List, [], ◌∷◌, ◌==◌, Env, Text, Error, bad_request, conflict, ◌++◌, ok, err, is_ok, arith, lower,
  text_eq, trim, Option-cases, Bool-cases, update, first, any, any-zero, count_mono,
  count-update_same, first-eq-none, lower-trim_idem, lower_idem, ==_iff, first-eq-some,
}
use fann_api.Users.{User, Db, find_by_id, find_by_email, has_email, normalize_email}
use fann_api.Users.Updates.{
  update_user, set_pending_email, apply_pending_email, is_taken, with_email,
}
use fann_api.Throttle.{live}
use fann_api.Redis.{
  Space, get, set_ex, delete_email_verify_token, get_email_verify_token, set_email_verify_token,
}
use fann_api.Auth.{Crypto, State, send_email_verification, verification_email}
use fann_api.Auth.Passwords.{is_wrong}
use fann_api.Auth.Emails.{verify_email, confirm_address, request_email_change}

first-update :
    {A : Type 0} (p : A → Bool) (f : A → A) (xs : List A) (x : A)
    → ((y : A) → p (f y) ≡ p y)
    → first p xs ≡ some x
    → first p (update p f xs) ≡ some (f x)
first-update p f [] x same e = cc
first-update p f (y ∷ ys) x same e = elim (Bool-cases (p y)) [
  | inl h ↦ let eq : y ≡ x = ground arith in rw (h, same y, h) (ap (λ z. some (f z)) eq)
  | inr h ↦ rw (h, h) (first-update p f ys x same (ground arith))
]

abbrev pub pending_of : Text → User → User
pending_of email u = record u { pending_email = some (normalize_email email) }

module _ (crypto : Crypto) (env : Env) (token user : ℕ) (email password : Text) (s : State) where
  -- the state after a change that was asked for
  abbrev asked : User → State
  asked u = record s {
    db = set_pending_email user email s.db;
    redis = set_email_verify_token env.now token u.id s.redis;
    outbox = s.outbox ++ verification_email email token ∷ [];
  }

  -- A change is asked for, or refused without a trace.
  request_email_change-cases :
      (u : User)
      → find_by_id user s.db ≡ some u
      → ((find_by_email email s.db ≡ none)
          × (request_email_change crypto env token user email password s ≡ (ok tt, asked u)))
        ⊎ ((e : Error) × (request_email_change crypto env token user email password s ≡ (err e, s)))
  unfolding request_email_change send_email_verification
  request_email_change-cases u found = elim (Bool-cases (is_wrong crypto password u)) [
    | inl w ↦ inr (bad_request, ground arith)
    | inr w ↦ elim (Bool-cases (text_eq (lower email) (lower u.email))) [
      | inl same ↦ inr (bad_request, ground arith)
      | inr other ↦ elim (Option-cases (find_by_email email s.db)) [
        | inl free ↦ inl (free, ground arith)
        | inr (o, taken) ↦ inr (conflict, ground arith)
      ]
    ]
  ]

find_by_id-id : (user : ℕ) (db : Db) (u : User) → find_by_id user db ≡ some u → u.id ≡ user
find_by_id-id user db u e =
    (==_iff u.id user).0 (first-eq-some (λ (x : User). x.id == user) db.users u e)

-- No account has an address that nobody had before it was asked for.
asked-free :
    (user : ℕ) (email : Text) (db : Db)
    → find_by_email email db ≡ none
    → is_taken user (normalize_email (normalize_email email)) (set_pending_email user email db)
      ≡ false
asked-free user email db free =
    let address = normalize_email email in
    let same : lower (normalize_email address) ≡ address =
      ap lower (lower-trim_idem email) ∙ lower_idem (trim email) in
    let users = update (λ (u : User). u.id == user) (pending_of email) db.users in
    let before = first-eq-none (has_email address) db.users free in
    let after =
      count-update_same (has_email address) (λ (u : User). u.id == user) (pending_of email) db.users
        (λ u e. refl) in
    let fewer =
      count_mono (λ u. not (u.id == user) && has_email address u) (has_email address) users
        (λ u e. ground arith) in
    rw same (
      any-zero (λ u. not (u.id == user) && has_email address u) users
        (omega (arith, before, after, fewer)))

module _ (env : Env) (token : ℕ) (s : State) (u : User) (address : Text) where
  abbrev confirmed : Db
  confirmed = update_user u.id (with_email env (normalize_email address)) s.db

  apply_pending_email-free :
      is_taken u.id (normalize_email address) s.db ≡ false
      → apply_pending_email env u.id address s.db ≡ (ok tt, confirmed)
  unfolding apply_pending_email
  apply_pending_email-free free = elim (Bool-cases (any (λ (o : User). o.id == u.id) s.db.users)) [
    | inl e ↦ rw (e, free) refl
    | inr e ↦ rw e refl
  ]

  confirm_address-pending :
      u.pending_email ≡ some address
      → is_taken u.id (normalize_email address) s.db ≡ false
      → confirm_address env u s ≡ (ok tt, record s { db = confirmed })
  unfolding confirm_address
  confirm_address-pending pending free =
      rw pending (ap (λ p. (p.0, record s { db = p.1 })) (apply_pending_email-free free))

  -- The state after a link whose account has an address waiting, which nobody has.
  pub verify_email-pending :
      get_email_verify_token env.now token s.redis ≡ some (u.id)
      → find_by_id u.id s.db ≡ some u
      → u.pending_email ≡ some address
      → is_taken u.id (normalize_email address) s.db ≡ false
      → verify_email env token s
        ≡ (ok tt, record s { db = confirmed; redis = delete_email_verify_token token s.redis })
  unfolding verify_email
  verify_email-pending linked found pending free =
      ground (arith, confirm_address-pending pending free)

-- A key that another one is set beside.
get-set_ex_other :
    (now now' seconds k v k' : ℕ) (keys : Space)
    → (k' == k) ≡ false
    → get now' k' (set_ex now seconds k v keys) ≡ get now' k' keys
get-set_ex_other now now' seconds k v k' keys e =
    let same : set_ex now seconds k v keys k' ≡ keys k' = ground arith in
    ap (λ o. elim (live now' o) [ none ↦ none | some e ↦ some (e.value) ]) same

-- A link that was sent before a change of address confirms the change, wherever it was sent: once the
-- account has asked for a new address that nobody has, the earlier link, while it lives, makes that
-- address the account's and marks it as verified.
pub verify_email-request_email_change :
    (crypto : Crypto) (env env' : Env) (token earlier user : ℕ) (email password : Text) (s : State)
    (u : User)
    → find_by_id user s.db ≡ some u
    → get_email_verify_token env'.now earlier s.redis ≡ some user
    → earlier ≢ token
    → is_ok (request_email_change crypto env token user email password s).0 ≡ true
    → let s' = (request_email_change crypto env token user email password s).1 in
      let (r, s'') = verify_email env' earlier s' in
      (r ≡ ok tt)
      × (find_by_id user s''.db
          ≡ some (with_email env' (normalize_email email) (pending_of email u)))
verify_email-request_email_change crypto env env' token earlier user email password s u found linked
      other done_ =
    elim (request_email_change-cases crypto env token user email password s u found) [
      | inr (e, refused) ↦ ground (arith, ap (λ p. is_ok (p.0)) refused)
      | inl (free, asked_) ↦
          let s1 = asked crypto env token user email password s u in
          let own : u.id ≡ user = find_by_id-id user s.db u found in
          let kept : find_by_id user s1.db ≡ some (pending_of email u) =
            first-update (λ (x : User). x.id == user) (pending_of email) s.db.users u (λ y. refl)
              found in
          let miss : (earlier == token) ≡ false = ground (arith, ==_iff earlier token) in
          let link : get_email_verify_token env'.now earlier s1.redis ≡ some (u.id) =
            get-set_ex_other env.now env'.now 86_400 token u.id earlier s.redis.email_verify miss
            ∙ linked
            ∙ ap (λ i. some i) (sym own) in
          let same : normalize_email (normalize_email email) ≡ normalize_email email =
            lower-trim_idem email in
          let mine : find_by_id u.id s1.db ≡ some (pending_of email u) =
            subst (λ i. find_by_id i s1.db ≡ some (pending_of email u)) (sym own) kept in
          let confirmed_ =
            verify_email-pending env' earlier s1 (pending_of email u) (normalize_email email) link
              mine refl
              (subst (λ i. is_taken i (normalize_email (normalize_email email)) s1.db ≡ false)
                (sym own) (asked-free user email s.db free)) in
          let db2 = confirmed env' earlier s1 (pending_of email u) (normalize_email email) in
          let last : find_by_id u.id db2
              ≡ some
                  (with_email env' (normalize_email (normalize_email email)) (pending_of email u)) =
            first-update (λ (x : User). x.id == u.id)
              (with_email env' (normalize_email (normalize_email email))) s1.db.users
              (pending_of email u) (λ y. refl) mine in
          let named : find_by_id user db2
              ≡ some
                  (with_email env' (normalize_email (normalize_email email)) (pending_of email u)) =
            subst
              (λ i.
                find_by_id i db2
                ≡ some (
                    with_email env' (normalize_email (normalize_email email)) (pending_of email u)))
              own last in
          rw (asked_, confirmed_)
            (refl, named ∙ ap (λ a. some (with_email env' a (pending_of email u))) same)
    ]
