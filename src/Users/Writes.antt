-- ===== src/Users/Writes.antt =====
-- The updates of src/users/users.service.ts keep the keys and the profiles.
use fann_api.Prelude.{
  ℕ, ◌≡◌, refl, sym, ap, inl, inr, true, false, ◌&&◌, arith, Text, text_eq, text_eq_sound, lower,
  any, any-none, update-none, All-update, UniqueBy, update-UniqueBy, keep-UniqueBy, Bool-cases, Env,
}
use fann_api.Users.{User, Db, has_email, has_code, normalize_email, is_link}
use fann_api.Users.Updates.{
  link_oauth_account, update_user, is_taken, with_email, apply_pending_email, as_deleted,
  soft_delete_account,
}
use fann_api.Users.Keys.{has_id, has_profile, WellFormed}

has_profile-same :
    (db : Db) (u v : User)
    → u.id ≡ v.id
    → u.role ≡ v.role
    → has_profile db u ≡ true
    → has_profile db v ≡ true
has_profile-same db u v i r h = ground arith

-- An update of one account that leaves its keys, its role and so its profile.
update_user-WellFormed :
    (id : ℕ) (f : User → User) (db : Db)
    → ((u : User) → (f u).id ≡ u.id)
    → ((u : User) → (f u).role ≡ u.role)
    → ((u : User) → (f u).account_code ≡ u.account_code)
    → UniqueBy has_email (update_user id f db).users
    → WellFormed db
    → WellFormed (update_user id f db)
update_user-WellFormed id f db ids roles codes emails w = record {
  ids = keep-UniqueBy has_id (has_id id) f db.users (λ c u. rw (ids u) refl) (w.ids);
  emails = emails;
  codes = keep-UniqueBy has_code (has_id id) f db.users (λ c u. rw (codes u) refl) (w.codes);
  profiles =
      All-update (λ u. has_profile db u ≡ true) (has_id id) f db.users
        (λ u e h. has_profile-same db u (f u) (sym (ids u)) (sym (roles u)) h) (w.profiles);
}

-- ... and its address
pub update_user-keeps :
    (id : ℕ) (f : User → User) (db : Db)
    → ((u : User) → (f u).id ≡ u.id)
    → ((u : User) → (f u).role ≡ u.role)
    → ((u : User) → (f u).account_code ≡ u.account_code)
    → ((u : User) → (f u).email ≡ u.email)
    → WellFormed db
    → WellFormed (update_user id f db)
update_user-keeps id f db ids roles codes emails w =
    update_user-WellFormed id f db ids roles codes
      (keep-UniqueBy has_email (has_id id) f db.users (λ c u. rw (emails u) refl) (w.emails)) w

-- ... or takes an address that no other account has.
update_user-takes :
    (id : ℕ) (email : Text) (f : User → User) (db : Db)
    → ((u : User) → (f u).id ≡ u.id)
    → ((u : User) → (f u).role ≡ u.role)
    → ((u : User) → (f u).account_code ≡ u.account_code)
    → ((u : User) → (f u).email ≡ email)
    → is_taken id email db ≡ false
    → WellFormed db
    → WellFormed (update_user id f db)
update_user-takes id email f db ids roles codes emails free w =
    update_user-WellFormed id f db ids roles codes
      (update-UniqueBy has_email (lower email) (has_id id) f db.users
        (λ c. elim (Bool-cases (text_eq (lower email) c)) [
          | inl e ↦
              let same : lower email ≡ c = text_eq_sound (lower email) c e in
              inl ((λ y h. rw same h), λ u. rw (emails u) e)
          | inr e ↦ inr (λ u. rw (emails u) e)
        ])
        (w.ids id) free (w.emails))
      w

-- The write of an address, where the index was asked if the account exists.
write_email-WellFormed :
    (id : ℕ) (email : Text) (f : User → User) (db : Db)
    → ((u : User) → (f u).id ≡ u.id)
    → ((u : User) → (f u).role ≡ u.role)
    → ((u : User) → (f u).account_code ≡ u.account_code)
    → ((u : User) → (f u).email ≡ email)
    → (any (has_id id) db.users && is_taken id email db) ≡ false
    → WellFormed db
    → WellFormed (update_user id f db)
write_email-WellFormed id email f db ids roles codes emails free w =
    elim (Bool-cases (any (has_id id) db.users)) [
      | inl found ↦ update_user-takes id email f db ids roles codes emails (ground arith) w
      | inr missing ↦
          let none_ = any-none (has_id id) db.users missing in
          let same : update_user id f db ≡ db =
            ap (λ us. record db { users = us }) (update-none (has_id id) f db.users none_) in
          rw same w
    ]

pub link_oauth_account-WellFormed :
    (user : ℕ) (provider uid : Text) (db : Db)
    → WellFormed db
    → WellFormed (link_oauth_account user provider uid db)
unfolding link_oauth_account
link_oauth_account-WellFormed user provider uid db w =
    elim (Bool-cases (any (is_link provider uid) db.oauth_accounts)) [
      | inl e ↦ rw e w
      | inr e ↦
          rw e (record { ids = w.ids; emails = w.emails; codes = w.codes; profiles = w.profiles })
    ]

pub apply_pending_email-WellFormed :
    (env : Env) (id : ℕ) (email : Text) (db : Db)
    → WellFormed db
    → WellFormed (apply_pending_email env id email db).1
unfolding apply_pending_email
apply_pending_email-WellFormed env id email db w =
    let address = normalize_email email in
    elim (Bool-cases (any (has_id id) db.users && is_taken id address db)) [
      | inl e ↦ rw e w
      | inr e ↦ rw e (
          write_email-WellFormed id address (with_email env address) db (λ u. refl) (λ u. refl)
            (λ u. refl) (λ u. refl) e w)
    ]

pub soft_delete_account-WellFormed :
    (deleted_email : ℕ → Text) (env : Env) (id : ℕ) (db : Db)
    → WellFormed db
    → WellFormed (soft_delete_account deleted_email env id db).1
unfolding soft_delete_account
soft_delete_account-WellFormed f env id db w =
    elim (Bool-cases (any (has_id id) db.users && is_taken id (f id) db)) [
      | inl e ↦ rw e w
      | inr e ↦ rw e (
          write_email-WellFormed id (f id) (as_deleted env (f id)) db (λ u. refl) (λ u. refl)
            (λ u. refl) (λ u. refl) e w)
    ]
