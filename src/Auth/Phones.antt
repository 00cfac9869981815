-- ===== src/Auth/Phones.antt =====
-- The one-time codes of src/auth/auth.service.ts. A request to WhatsApp is its outcome.
pub mod Guesses
use fann_api.Prelude.{
  ℕ, Bool, true, false, not, Option, none, some, List, [], ◌∷◌, ◌==◌, leb, if◌then◌else◌, Env,
  Action, Result, ok, err, bad_request, internal_server_error, pure, raise, raise_if, require, gets,
  modify, ◌>>=◌, ◌>>◌,
}
use fann_api.Users.Updates.{update_phone, mark_phone_verified}
use fann_api.Redis.{set_otp, get_otp, delete_otp, record_otp_failure}
use fann_api.Auth.{State, whatsapp_otp, write_db, write_redis, send}

-- MAX_OTP_ATTEMPTS
abbrev pub max_otp_attempts : ℕ
max_otp_attempts = 5

-- `delivered`: WhatsApp answers, and with success
unfoldable pub send_otp : Env → (phone code : ℕ) → (delivered : Bool) → Action State (Unit {0})
send_otp env phone code delivered =
    write_redis (set_otp env.now phone code)
    >> raise_if (not delivered) internal_server_error
    >> send (whatsapp_otp phone code)

-- a wrong code is counted, and the code goes with the last of the budget
unfoldable pub count_wrong_code : Env → (phone : ℕ) → Action State (Unit {0})
count_wrong_code env phone s =
    let (attempts, redis') = record_otp_failure env.now phone s.redis in
    let spent = if leb max_otp_attempts attempts then delete_otp phone redis' else redis' in
    (err bad_request, record s { redis = spent })

unfoldable pub accept_code : Env → (user phone : ℕ) → Action State (Unit {0})
accept_code env user phone =
    write_db (update_phone user phone)
    >> write_db (mark_phone_verified env user)
    >> write_redis (delete_otp phone)

unfoldable pub verify_otp : Env → (user phone code : ℕ) → Action State (Unit {0})
unfolding count_wrong_code accept_code
verify_otp env user phone code = gets (λ s. get_otp env.now phone s.redis) >>= λ found.
    require found bad_request >>= λ stored.
    (if stored == code then accept_code env user phone else count_wrong_code env phone)
