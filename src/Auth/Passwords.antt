-- ===== src/Auth/Passwords.antt =====
-- The passwords of src/auth/auth.service.ts: the reset by an emailed token, the change, and the
-- deletion of an account. A reset token is never the empty string.
use fann_api.Prelude.{
  ℕ, Bool, false, not, none, some, Text, is_some, if◌then◌else◌, Env, Action, ok, bad_request,
  raise_if, require, gets, ◌>>=◌, ◌>>◌,
}
use fann_api.Users.{User, find_by_email, find_by_id}
use fann_api.Users.Updates.{update_password, soft_delete_account}
use fann_api.Redis.{
  set_password_reset_token, get_password_reset_token, delete_password_reset_token,
  delete_refresh_token,
}
use fann_api.Auth.{Crypto, State, password_reset_email, on_db, write_db, write_redis, send}

-- The answer is the same in both cases.
unfoldable pub forgot_password : Env → (token : ℕ) → Text → Action State (Unit {0})
forgot_password env token email s = elim (find_by_email email s.db) [
  | none ↦ (ok tt, s)
  | some u ↦
      if is_some u.password_hash
      then (write_redis (set_password_reset_token env.now token u.id)
            >> send (password_reset_email u.email token))
          s
      else (ok tt, s)
]

-- it writes nothing
abbrev pub is_password_reset_token_valid : Env → (token : ℕ) → State → Bool
is_password_reset_token_valid env token s = is_some (get_password_reset_token env.now token s.redis)

module _ (crypto : Crypto) where
  unfoldable pub reset_password : Env → (salt token : ℕ) → Text → Action State (Unit {0})
  reset_password env salt token new_password =
      gets (λ s. get_password_reset_token env.now token s.redis) >>= λ found.
      require found bad_request >>= λ user.
      write_db (update_password user (crypto.bcrypt_hash salt new_password))
      >> write_redis (delete_password_reset_token token)
      >> write_redis (delete_refresh_token user)

  unfoldable pub change_password : (salt user : ℕ) → (current new : Text) → Action State (Unit {0})
  change_password salt user current new = gets (λ s. find_by_id user s.db) >>= λ found.
      require found bad_request >>= λ u. require u.password_hash bad_request >>= λ hash.
      raise_if (not (crypto.bcrypt_compare current hash)) bad_request
      >> write_db (update_password user (crypto.bcrypt_hash salt new))

  -- the check of a password, which an account of a provider does not have
  abbrev pub is_wrong : Text → User → Bool
  is_wrong password u = elim (u.password_hash) [
    | none ↦ false
    | some hash ↦ not (crypto.bcrypt_compare password hash)
  ]

  unfoldable pub delete_account :
      (deleted_email : ℕ → Text) → Env → (user : ℕ) → (password : Text) → Action State (Unit {0})
  unfolding soft_delete_account
  delete_account deleted_email env user password = gets (λ s. find_by_id user s.db) >>= λ found.
      require found bad_request >>= λ u.
      raise_if (is_wrong password u) bad_request
      >> on_db (soft_delete_account deleted_email env user)
      >> write_redis (delete_refresh_token user)
