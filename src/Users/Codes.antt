-- ===== src/Users/Codes.antt =====
-- `generate_account_code`: the count of a role, read before the insertion.
use fann_api.Prelude.{
  ◌≤◌, ◌≡◌, refl, inl, inr, Bool, true, false, Option, none, List, [], ◌∷◌, ◌++◌, arith, Text,
  count, any, All, All-append, All_mono, count-append, Bool-cases, Env, ok, lower, lower_idem,
  first-ne-none, any-zero, trim, lower-trim_idem, Option-cases,
}
use fann_api.Subscriptions.Access.{UserRole, artist, planner, admin, role_eq}
use fann_api.Users.{
  User, AccountCode, CodePrefix, art, pln, adm, ven, cmp, PlannerKind, Db, NewUser, has_email,
  has_code, prefix_eq, account_code_prefix, of_role, new_user, insert_profile, insert_account,
  create, generate_account_code, normalize_email, find_by_email,
}
use fann_api.Users.Keys.{has_id}
use fann_api.Users.Insertion.{insert_account-cases, insert_profile-users}

-- the prefixes of a role
abbrev fits : UserRole → CodePrefix → Bool
fits artist art = true
fits admin adm = true
fits planner pln = true
fits planner ven = true
fits planner cmp = true
fits _ _ = false

-- No account has a number above the count of its role, or the prefix of another role.
abbrev IsCounted : Db → User → Type 0
IsCounted db u =
    (u.account_code.number ≤ count (of_role u.role) db.users)
    × (fits u.role u.account_code.prefix ≡ true)

abbrev pub Counted : Db → Type 0
Counted db = All (IsCounted db) db.users

fits-account_code_prefix :
    (role : UserRole) (kind : Option PlannerKind) (type : Option Text)
    → fits role (account_code_prefix role kind type) ≡ true
fits-account_code_prefix artist kind type = refl
fits-account_code_prefix admin kind type = refl
fits-account_code_prefix planner kind type = ground arith

any-All : {A : Type 0} (p : A → Bool) (xs : List A) → All (λ x. p x ≡ false) xs → any p xs ≡ false
any-All p [] h = refl
any-All p (x ∷ xs) h = ground (arith, h.0, any-All p xs h.1)

fits-same :
    (r r' : UserRole) (p q : CodePrefix)
    → fits r p ≡ true
    → fits r' q ≡ true
    → prefix_eq p q ≡ true
    → r ≡ r'
fits-same r r' p q = ground arith

role_eq_self : (r : UserRole) → role_eq r r ≡ true
role_eq_self r = ground arith

next-has_code :
    (dto : NewUser) (db : Db) (u : User)
    → IsCounted db u
    → has_code (generate_account_code dto.role dto.planner_kind dto.booker_type db) u ≡ false
unfolding generate_account_code
next-has_code dto db u h =
    let code = generate_account_code dto.role dto.planner_kind dto.booker_type db in
    let prefix = account_code_prefix dto.role dto.planner_kind dto.booker_type in
    elim (Bool-cases (has_code code u)) [
      | inr miss ↦ miss
      | inl hit ↦
          let role : u.role ≡ dto.role =
            fits-same u.role dto.role u.account_code.prefix prefix h.1
              (fits-account_code_prefix dto.role dto.planner_kind dto.booker_type) (ground arith) in
          let bound : u.account_code.number ≤ count (of_role dto.role) db.users =
            rw (← role) (h.0) in
          ground arith
    ]

-- The next code is not taken.
pub next_free :
    (dto : NewUser) (db : Db)
    → Counted db
    → any (has_code (generate_account_code dto.role dto.planner_kind dto.booker_type db)) db.users
      ≡ false
next_free dto db h =
    let code = generate_account_code dto.role dto.planner_kind dto.booker_type db in
    any-All (has_code code) db.users (
      All_mono (IsCounted db) (λ u. has_code code u ≡ false) db.users (λ u. next-has_code dto db u)
        h)

module _ (env : Env) (dto : NewUser) (db : Db) where
  abbrev code : AccountCode
  code = generate_account_code dto.role dto.planner_kind dto.booker_type db

  abbrev pub registered : User
  registered = new_user env dto (normalize_email dto.email) code

  abbrev pub after : Db
  after = insert_profile env dto registered (record db { users = db.users ++ registered ∷ [] })

  after-IsCounted : (u : User) → IsCounted db u → IsCounted after u
  after-IsCounted u h =
      let same =
        insert_profile-users env dto registered
          (record db { users = db.users ++ registered ∷ [] }) in
      let grown = count-append (of_role u.role) db.users (registered ∷ []) in
      rw same (omega (arith, grown, h.0), h.1)

  registered-IsCounted : IsCounted after registered
  unfolding generate_account_code
  registered-IsCounted =
      let same =
        insert_profile-users env dto registered
          (record db { users = db.users ++ registered ∷ [] }) in
      let grown = count-append (of_role dto.role) db.users (registered ∷ []) in
      let own : role_eq dto.role dto.role ≡ true = role_eq_self dto.role in
      rw same (
        ground (arith, grown, own),
        fits-account_code_prefix dto.role dto.planner_kind dto.booker_type,
      )

  after-Counted : Counted db → Counted after
  unfolding insert_profile
  after-Counted h =
      let same =
        insert_profile-users env dto registered
          (record db { users = db.users ++ registered ∷ [] }) in
      rw same (
        All-append (IsCounted after) db.users (registered ∷ [])
          (All_mono (IsCounted db) (IsCounted after) db.users after-IsCounted h)
          (registered-IsCounted, tt))

  -- A registration, while no other runs, succeeds if no account has the address, in any spelling: no
  -- account has the next code, the new account is under the address in lower case, and its profile is
  -- inserted with it. The same holds of the next registration.
  pub create_lem :
      Counted db
      → any (has_id (env.new_id 0)) db.users ≡ false
      → count (has_email (normalize_email dto.email)) db.users ≡ 0
      → (create env dto db ≡ (ok registered, after)) × Counted after
  unfolding create
  create_lem h fresh free =
      let email = normalize_email dto.email in
      let same : normalize_email email ≡ email = lower-trim_idem dto.email in
      let missing : find_by_email email db ≡ none =
        rw same (first-ne-none (has_email email) db.users free) in
      let email_free : any (has_email (lower email)) db.users ≡ false =
        rw (lower_idem (trim dto.email)) (any-zero (has_email email) db.users free) in
      let made : insert_account env dto email code db ≡ (ok registered, after) =
        elim (insert_account-cases env dto email code db) [
          | inr (a, b, c, e) ↦ e
          | inl (e, taken, refused) ↦ ground (arith, next_free dto db h)
        ] in
      (rw missing made, after-Counted h)

  -- Whatever it answers, it keeps the codes counted.
  pub create-Counted : Counted db → Counted (create env dto db).1
  unfolding create
  create-Counted h = elim (Option-cases (find_by_email (normalize_email dto.email) db)) [
    | inr (u, found) ↦ rw found h
    | inl missing ↦ elim (insert_account-cases env dto (normalize_email dto.email) code db) [
      | inl (e, taken, refused) ↦ rw (missing, refused) h
      | inr (a, b, c, made) ↦ rw (missing, made) (after-Counted h)
    ]
  ]
