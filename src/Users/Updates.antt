-- ===== src/Users/Updates.antt =====
-- The writes of src/users/users.service.ts to an account that exists, and the public view of it.
use fann_api.Prelude.{
  ℕ, Bool, ◌&&◌, not, Option, none, some, List, [], ◌∷◌, ◌++◌, ◌==◌, Text, lower, first, update,
  any, if◌then◌else◌, Env, Action, ok, err, conflict, not_found, unique_violation, require, gets,
  ◌>>=◌,
}
use fann_api.Subscriptions.Access.{UserRole, artist, planner, admin}
use fann_api.Users.{
  User, UserStatus, banned, Db, Profile, has_email, is_link, normalize_email, find_by_id,
}

-- `.onConflict(['provider', 'provider_uid']).ignore()`
unfoldable pub link_oauth_account : (user : ℕ) → (provider uid : Text) → Db → Db
link_oauth_account user provider uid db =
    if any (is_link provider uid) db.oauth_accounts then db else record db {
      oauth_accounts =
          db.oauth_accounts
          ++ record { user_id = user; provider = provider; provider_uid = uid } ∷ [];
    }

-- `.where({ id }).update(...)`
abbrev pub update_user : ℕ → (User → User) → Db → Db
update_user id f db = record db { users = update (λ (u : User). u.id == id) f db.users }

abbrev pub mark_email_verified : Env → ℕ → Db → Db
mark_email_verified env id = update_user id (λ u. record u { email_verified_at = some (env.now) })

abbrev pub mark_phone_verified : Env → ℕ → Db → Db
mark_phone_verified env id = update_user id (λ u. record u { phone_verified_at = some (env.now) })

abbrev pub update_phone : (id phone : ℕ) → Db → Db
update_phone id phone = update_user id (λ u. record u { phone = some phone })

abbrev pub update_password : (id hash : ℕ) → Db → Db
update_password id hash = update_user id (λ u. record u { password_hash = some hash })

abbrev pub set_pending_email : ℕ → Text → Db → Db
set_pending_email id email =
    update_user id (λ u. record u { pending_email = some (normalize_email email) })

abbrev pub update_status : ℕ → UserStatus → Db → Db
update_status id status = update_user id (λ u. record u { status = status })

abbrev pub update_last_login : Env → ℕ → Db → Db
update_last_login env id = update_user id (λ u. record u { last_login_at = some (env.now) })

-- another row under an address that is about to be written
abbrev pub is_taken : ℕ → Text → Db → Bool
is_taken id email db = any (λ u. not (u.id == id) && has_email (lower email) u) db.users

abbrev pub with_email : Env → Text → User → User
with_email env email u = record u {
  email = email;
  pending_email = none;
  email_verified_at = some (env.now);
}

unfoldable pub apply_pending_email : Env → ℕ → Text → Action Db (Unit {0})
apply_pending_email env id new_email db =
    let email = normalize_email new_email in
    if any (λ u. u.id == id) db.users && is_taken id email db
    then (err conflict, db)
    else (ok tt, update_user id (with_email env email) db)

abbrev pub as_deleted : Env → Text → User → User
as_deleted env email u = record u { status = banned; deleted_at = some (env.now); email = email }

-- `deleted_email` is 'deleted-' || id || '@deleted.aynu.local'.
unfoldable pub soft_delete_account : (deleted_email : ℕ → Text) → Env → ℕ → Action Db (Unit {0})
soft_delete_account deleted_email env id db =
    if any (λ u. u.id == id) db.users && is_taken id (deleted_email id) db
    then (err unique_violation, db)
    else (ok tt, update_user id (as_deleted env (deleted_email id)) db)

-- What `getPublicInfo` answers of a profile: the name and the picture are not modelled.
pub record PublicInfo : Type 0 where
  pub id : ℕ
  pub role : UserRole
  pub profile_id : Option ℕ

abbrev profile_of : ℕ → List Profile → Option ℕ
profile_of id ps = elim (first (λ (p : Profile). p.user_id == id) ps) [
  | none ↦ none
  | some p ↦ some (p.id)
]

unfoldable pub get_public_info : ℕ → Action Db PublicInfo
get_public_info id = gets (find_by_id id) >>= λ found. require found not_found >>= λ u. gets (λ db.
    record {
      id = id;
      role = u.role;
      profile_id = elim (u.role) [
        | admin ↦ none
        | artist ↦ profile_of id db.artist_profiles
        | planner ↦ profile_of id db.planner_profiles
      ];
    })
