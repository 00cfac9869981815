-- ===== src/Auth/Sessions.antt =====
-- The sessions of src/auth/auth.service.ts, as its answers tell them: a session is open from the answer
-- that carries its refresh token until another one is opened, or the answer that closes it.
pub mod Refinement
use fann_api.Prelude.{
  ℕ, ◌+◌, ◌*◌, ◌<◌, ◌≡◌, refl, sym, ap, ◌∙◌, ◌↔◌, inl, inr, Bool, true, false, not, Option, none,
  some, List, [], ◌∷◌, ◌++◌, ◌==◌, ltb, arith, Env, Error, Action, Result, ok, err, Text, is_ok,
  is_some, Option-cases, Result-cases, Bool-cases, ==_iff, ==_self, if◌then◌else◌,
}
use fann_api.Throttle.{Key}
use fann_api.Users.{User, Db, find_by_id}
use fann_api.Consent.{ConsentContext}
use fann_api.Redis.{Redis, Space, get_refresh_token, get_password_reset_token}
use fann_api.Auth.{
  Crypto, State, RegisterDto, register, login, refresh, logout, issue_tokens, login_oauth_user,
  Tokens, jwt_refresh_secret, JwtPayload,
}
use fann_api.Auth.Passwords.{forgot_password, reset_password, change_password, delete_account}
use fann_api.Auth.Emails.{resend_email_verification, verify_email, request_email_change}
use fann_api.Auth.Phones.{send_otp, verify_otp}
use fann_api.Auth.Oauth.{OauthData, find_or_create_oauth_user}

-- what the answers of the API say of a user's session
pub data Event : Type 0 where
  opened : (user token at : ℕ) → Event
  closed : (user : ℕ) → Event

-- the session of a user after some events: its token, and the time at which it was opened
abbrev pub session_after : Option (ℕ × ℕ) → Event → ℕ → Option (ℕ × ℕ)
session_after before (opened user token at) u = if u == user then some (token, at) else before
session_after before (closed user) u = if u == user then none else before

abbrev pub sessions_after : (ℕ → Option (ℕ × ℕ)) → List Event → ℕ → Option (ℕ × ℕ)
sessions_after before [] u = before u
sessions_after before (e ∷ es) u = sessions_after (λ v. session_after (before v) e v) es u

pub data Request : Type 0 where
  registers : Env → (salt token : ℕ) → RegisterDto → ConsentContext → Request
  logs_in logs_in_by_oauth : Env → User → Request
  refreshes : Env → (token : ℕ) → Request
  logs_out : (user : ℕ) → Request
  forgets_password : Env → (token : ℕ) → Text → Request
  resets_password : Env → (salt token : ℕ) → Text → Request
  changes_password : Env → (salt user : ℕ) → (current new : Text) → Request
  deletes_account : Env → (deleted_email : ℕ → Text) → (user : ℕ) → (password : Text) → Request
  asks_for_link : Env → (token : ℕ) → Text → Request
  verifies_email : Env → (token : ℕ) → Request
  changes_email : Env → (token user : ℕ) → (new_email password : Text) → Request
  asks_for_code : Env → (phone code : ℕ) → (delivered : Bool) → Request
  enters_code : Env → (user phone code : ℕ) → Request
  comes_by_oauth : Env → OauthData → ConsentContext → Request

abbrev opens : Env → User → Result Tokens → List Event
opens env u (ok t) = opened u.id t.refresh_token env.now ∷ []
opens env u (err e) = []

abbrev closes : {A : Type 0} → ℕ → Result A → List Event
closes user (ok a) = closed user ∷ []
closes user (err e) = []

abbrev closes_of : Option ℕ → List Event
closes_of none = []
closes_of (some user) = closed user ∷ []

module _ (crypto : Crypto) where
  -- the state after a request, and the events of its answer
  unfoldable pub handle : Request → State → State × List Event
  handle (registers env salt token dto context) s =
      ((register crypto env salt token dto context s).1, [])
  handle (logs_in env u) s = let (r, s') = login crypto env u s in (s', opens env u r)
  handle (logs_in_by_oauth env u) s =
      let (r, s') = login_oauth_user crypto env u s in (s', opens env u r)
  handle (refreshes env token) s = ((refresh crypto env token s).1, [])
  handle (logs_out user) s = let (r, s') = logout user s in (s', closes user r)
  handle (forgets_password env token email) s = ((forgot_password env token email s).1, [])
  handle (resets_password env salt token password) s = (
    (reset_password crypto env salt token password s).1,
    closes_of (get_password_reset_token env.now token s.redis),
  )
  handle (changes_password env salt user current new) s =
      ((change_password crypto salt user current new s).1, [])
  handle (deletes_account env deleted_email user password) s =
      let (r, s') = delete_account crypto deleted_email env user password s in (s', closes user r)
  handle (asks_for_link env token email) s = ((resend_email_verification env token email s).1, [])
  handle (verifies_email env token) s = ((verify_email env token s).1, [])
  handle (changes_email env token user new_email password) s =
      ((request_email_change crypto env token user new_email password s).1, [])
  handle (asks_for_code env phone code delivered) s = ((send_otp env phone code delivered s).1, [])
  handle (enters_code env user phone code) s = ((verify_otp env user phone code s).1, [])
  handle (comes_by_oauth env dto context) s = ((find_or_create_oauth_user env dto context s).1, [])

  unfoldable pub handle_all : List Request → State → State × List Event
  handle_all [] s = (s, [])
  handle_all (q ∷ qs) s =
      let (s', es) = handle q s in let (s'', fs) = handle_all qs s' in (s'', es ++ fs)

  -- the key of a session: the hash of its token, for 30 days
  abbrev pub key_of : Option (ℕ × ℕ) → Option Key
  key_of none = none
  key_of (some (token, at)) =
      some (record { value = crypto.sha256 token; expires_at = some (at + 2_592_000 * 1000) })

  -- the refresh keys are those of the sessions
  abbrev pub Represents : (ℕ → Option (ℕ × ℕ)) → Space → Type 0
  Represents sessions keys = (u : ℕ) → keys u ≡ key_of (sessions u)
