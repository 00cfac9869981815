-- ===== src/Auth/Emails.antt =====
-- The addresses of src/auth/auth.service.ts: the link that verifies one, and the change of one.
pub mod Links
use fann_api.Prelude.{
  ℕ, Bool, true, false, not, ◌&&◌, Option, none, some, List, [], ◌∷◌, Text, text_eq, lower, is_some,
  if◌then◌else◌, Env, Action, Result, ok, err, bad_request, conflict, pure, raise, raise_if,
  require, gets, modify, ◌>>=◌, ◌>>◌,
}
use fann_api.Users.{User, find_by_email, find_by_id}
use fann_api.Users.Updates.{mark_email_verified, apply_pending_email, set_pending_email}
use fann_api.Redis.{get_email_verify_token, delete_email_verify_token}
use fann_api.Auth.{Crypto, State, on_db, write_db, write_redis, send_email_verification}
use fann_api.Auth.Passwords.{is_wrong}

-- The answer is the same in all cases.
unfoldable pub resend_email_verification : Env → (token : ℕ) → Text → Action State (Unit {0})
unfolding send_email_verification
resend_email_verification env token email s = elim (find_by_email email s.db) [
  | none ↦ (ok tt, s)
  | some u ↦
      if not (is_some u.email_verified_at) && not (is_some u.deleted_at)
      then send_email_verification env token u s
      else (ok tt, s)
]

-- the pending address replaces the current one; otherwise the current one is verified
unfoldable pub confirm_address : Env → User → Action State (Unit {0})
unfolding apply_pending_email
confirm_address env u = elim (u.pending_email) [
  | some address ↦ on_db (apply_pending_email env u.id address)
  | none ↦ write_db (mark_email_verified env u.id)
]

unfoldable pub verify_email : Env → (token : ℕ) → Action State (Unit {0})
unfolding confirm_address
verify_email env token = gets (λ s. get_email_verify_token env.now token s.redis) >>= λ owner.
    require owner bad_request >>= λ user. gets (λ s. find_by_id user s.db) >>= λ found.
    require found bad_request >>= λ u.
    confirm_address env u >> write_redis (delete_email_verify_token token)

unfoldable pub request_email_change :
    Crypto → Env → (token user : ℕ) → (new_email password : Text) → Action State (Unit {0})
unfolding send_email_verification
request_email_change crypto env token user new_email password =
    gets (λ s. find_by_id user s.db) >>= λ found. require found bad_request >>= λ u.
    raise_if (is_wrong crypto password u) bad_request
    >> raise_if (text_eq (lower new_email) (lower u.email)) bad_request
    >> gets (λ s. find_by_email new_email s.db)
    >>= λ existing.
        raise_if (is_some existing) conflict
        >> write_db (set_pending_email user new_email)
        >> send_email_verification env token (record u { email = new_email })
