-- ===== src/Users/Insertion.antt =====
-- `create` of src/users/users.service.ts, and its transaction alone.
use fann_api.Prelude.{
  ◌≡◌, refl, ap, ◌⊎◌, inl, inr, Bool, true, false, ◌||◌, none, [], ◌∷◌, ◌++◌, arith, Text,
  text_eq_sound, lower, any, Error, ok, err, conflict, transaction-ok, transaction-err, >>=-ok,
  >>=-err, ◌>>=◌, ◌>>◌, modify, pure, unique_violation, any-append, All-append, All_mono,
  insert-UniqueBy, Bool-cases, Option-cases, ==_iff, ==_self, Env,
}
use fann_api.Users.{
  User, AccountCode, CodePrefix, Db, NewUser, has_email, has_code, prefix_eq, new_user, new_profile,
  insert_user, insert_profile, insert_account, create, generate_account_code, normalize_email,
  find_by_email,
}
use fann_api.Users.Keys.{has_id, owns, has_profile, WellFormed}

-- the users after the row of a new one
abbrev with_user : User → Db → Db
with_user u db = record db { users = db.users ++ u ∷ [] }

module _ (env : Env) (dto : NewUser) (u : User) (db : Db) where
  pub insert_profile-users : (insert_profile env dto u db).users ≡ db.users
  unfolding insert_profile
  insert_profile-users = ground arith

  insert_profile-has_profile :
      (v : User) → has_profile db v ≡ true → has_profile (insert_profile env dto u db) v ≡ true
  unfolding insert_profile
  insert_profile-has_profile v h = ground (
    arith,
    any-append (owns v) db.artist_profiles (new_profile env u none none ∷ []),
    any-append (owns v) db.planner_profiles
        (new_profile env u dto.planner_kind dto.booker_type ∷ []),
  )

  insert_profile-own : u.role ≡ dto.role → has_profile (insert_profile env dto u db) u ≡ true
  unfolding insert_profile
  insert_profile-own h = ground (
    arith,
    ==_self u.id,
    any-append (owns u) db.artist_profiles (new_profile env u none none ∷ []),
    any-append (owns u) db.planner_profiles
        (new_profile env u dto.planner_kind dto.booker_type ∷ []),
  )

prefix_eq_sound : (p q : CodePrefix) → prefix_eq p q ≡ true → p ≡ q
prefix_eq_sound p q e = ground arith

has_email-same :
    (k : Text) (x : User) (c : Text)
    → lower x.email ≡ k
    → has_email c x ≡ true
    → (y : User) → has_email c y ≡ true
    → has_email k y ≡ true
has_email-same k x c e h y g =
    let same : lower x.email ≡ c = text_eq_sound (lower x.email) c h in rw (← e, same) g

has_code-same :
    (k : AccountCode) (x : User) (c : AccountCode)
    → x.account_code ≡ k
    → has_code c x ≡ true
    → (y : User) → has_code c y ≡ true
    → has_code k y ≡ true
has_code-same k x c e h y g =
    let p : x.account_code.prefix ≡ c.prefix =
      prefix_eq_sound x.account_code.prefix c.prefix (ground arith) in
    let n : x.account_code.number ≡ c.number = ground arith in rw (← e, p, n) g

insert_user-WellFormed :
    (env : Env) (dto : NewUser) (email : Text) (code : AccountCode) (db : Db)
    → WellFormed db
    → any (has_id (env.new_id 0)) db.users ≡ false
    → any (has_code code) db.users ≡ false
    → any (has_email (lower email)) db.users ≡ false
    → WellFormed (
        insert_profile env dto
          (new_user env dto email code)
          (with_user (new_user env dto email code) db))
insert_user-WellFormed env dto email code db w id_free code_free email_free =
    let u = new_user env dto email code in
    let db' = with_user u db in
    let same = insert_profile-users env dto u db' in
    let ids =
      insert-UniqueBy has_id u.id u db.users (λ c e y h. ground (arith, ==_iff u.id c)) id_free
        (w.ids) in
    let emails =
      insert-UniqueBy has_email (lower email) u db.users
        (λ c e. has_email-same (lower email) u c refl e) email_free (w.emails) in
    let codes =
      insert-UniqueBy has_code code u db.users (λ c e. has_code-same code u c refl e) code_free
        (w.codes) in
    record {
      ids = rw same ids;
      emails = rw same emails;
      codes = rw same codes;
      profiles = rw same (
          All-append (λ v. has_profile (insert_profile env dto u db') v ≡ true) db.users (u ∷ [])
            (All_mono (λ v. has_profile db v ≡ true)
              (λ v. has_profile (insert_profile env dto u db') v ≡ true) db.users
              (λ v h. insert_profile-has_profile env dto u db' v h) (w.profiles))
            (insert_profile-own env dto u db' refl, tt));
    }

module _ (env : Env) (dto : NewUser) (email : Text) (code : AccountCode) (db : Db) where
  abbrev fresh_user : User
  fresh_user = new_user env dto email code

  -- a key of the new row that another account has
  abbrev pub key_taken : Bool
  key_taken =
      any (has_id (env.new_id 0)) db.users
      || any (has_code code) db.users
      || any (has_email (lower email)) db.users

  insert_user-cases :
      ((e : Error) × (key_taken ≡ true) × (insert_user env dto email code db ≡ (err e, db)))
      ⊎ ((any (has_id (env.new_id 0)) db.users ≡ false)
          × (any (has_code code) db.users ≡ false)
          × (any (has_email (lower email)) db.users ≡ false)
          × (insert_user env dto email code db ≡ (ok fresh_user, with_user fresh_user db)))
  unfolding insert_user
  insert_user-cases = elim (Bool-cases (any (has_id (env.new_id 0)) db.users)) [
    | inl e ↦ inl (unique_violation, rw e refl, rw e refl)
    | inr id_free ↦ elim (Bool-cases (any (has_code code) db.users)) [
      | inl e ↦ inl (conflict, rw (id_free, e) refl, rw (id_free, e) refl)
      | inr code_free ↦ elim (Bool-cases (any (has_email (lower email)) db.users)) [
        | inl e ↦ inl (conflict, rw (id_free, code_free, e) refl, rw (id_free, code_free, e) refl)
        | inr email_free ↦
            inr (id_free, code_free, email_free, rw (id_free, code_free, email_free) refl)
      ]
    ]
  ]

  -- What the transaction does: it refuses and writes nothing, or inserts both rows.
  pub insert_account-cases :
      ((e : Error) × (key_taken ≡ true) × (insert_account env dto email code db ≡ (err e, db)))
      ⊎ ((any (has_id (env.new_id 0)) db.users ≡ false)
          × (any (has_code code) db.users ≡ false)
          × (any (has_email (lower email)) db.users ≡ false)
          × (insert_account env dto email code db
              ≡ (ok fresh_user, insert_profile env dto fresh_user (with_user fresh_user db))))
  unfolding insert_account
  insert_account-cases = elim insert_user-cases [
    | inl (e, taken, refused) ↦
        let k = λ (u : User). modify (insert_profile env dto u) >> pure u in
        let m = insert_user env dto email code in
        inl (e, taken, transaction-err (m >>= k) db db e (>>=-err m k db refused))
    | inr (id_free, code_free, email_free, made) ↦
        let k = λ (u : User). modify (insert_profile env dto u) >> pure u in
        let m = insert_user env dto email code in
        let db' = insert_profile env dto fresh_user (with_user fresh_user db) in
        inr (
          id_free,
          code_free,
          email_free,
          transaction-ok (m >>= k) db db' fresh_user (>>=-ok m k db made),
        )
  ]

pub insert_account-WellFormed :
    (env : Env) (dto : NewUser) (email : Text) (code : AccountCode) (db : Db)
    → WellFormed db
    → WellFormed (insert_account env dto email code db).1
insert_account-WellFormed env dto email code db w =
    elim (insert_account-cases env dto email code db) [
      | inl (e, taken, refused) ↦ rw refused w
      | inr (id_free, code_free, email_free, done_) ↦
          rw done_ (insert_user-WellFormed env dto email code db w id_free code_free email_free)
    ]

pub create-WellFormed :
    (env : Env) (dto : NewUser) (db : Db) → WellFormed db → WellFormed (create env dto db).1
unfolding create
create-WellFormed env dto db w = ground (
  arith,
  w,
  insert_account-WellFormed env dto (normalize_email dto.email)
      (generate_account_code dto.role dto.planner_kind dto.booker_type db) db w,
)

-- What a registration does: it refuses and writes nothing, or inserts a new row and its profile.
pub create-cases :
    (env : Env) (dto : NewUser) (db : Db)
    → let u =
        new_user env dto
          (normalize_email dto.email)
          (generate_account_code dto.role dto.planner_kind dto.booker_type db) in
      ((e : Error) × (create env dto db ≡ (err e, db)))
      ⊎ (create env dto db ≡ (ok u, insert_profile env dto u (with_user u db)))
unfolding create
create-cases env dto db =
    let email = normalize_email dto.email in
    let code = generate_account_code dto.role dto.planner_kind dto.booker_type db in
    elim (Option-cases (find_by_email email db)) [
      | inr (o, found) ↦ inl (conflict, rw found refl)
      | inl missing ↦ elim (insert_account-cases env dto email code db) [
        | inl (x, taken, refused) ↦ inl (x, rw missing refused)
        | inr (a, b, c, made) ↦ inr (rw missing made)
      ]
    ]

-- An account that `create` gives is a new row of its argument.
pub create-eq-new :
    (env : Env) (dto : NewUser) (db : Db) (u : User)
    → (create env dto db).0 ≡ ok u
    → u
      ≡ new_user env dto
          (normalize_email dto.email)
          (generate_account_code dto.role dto.planner_kind dto.booker_type db)
create-eq-new env dto db u e = elim (create-cases env dto db) [
  | inl (x, refused) ↦ ground (arith, ap (λ p. p.0) refused)
  | inr made ↦ ground (arith, ap (λ p. p.0) made)
]
