-- ===== src/Redis.antt =====
-- src/redis/redis.service.ts: the typed helpers over the Redis keys. Times are in milliseconds, and
-- a string that the code only compares (a code, a token, a hash, an id) is a number.
use fann_api.Prelude.{ℕ, ◌+◌, ◌*◌, Option, none, some, ◌==◌, if◌then◌else◌}
use fann_api.Throttle.{Key, live, incr, pexpire}

-- the keys of one prefix, by what follows the prefix
abbrev pub Space : Type 0
Space = ℕ → Option Key

abbrev pub put : ℕ → Option Key → Space → Space
put k v s k' = if k' == k then v else s k'

-- `SET key value EX seconds`, which replaces the expiry as well
abbrev pub set_ex : (now seconds : ℕ) → (key value : ℕ) → Space → Space
set_ex now seconds k v s =
    put k (some (record { value = v; expires_at = some (now + seconds * 1000) })) s

-- `GET key`
abbrev pub get : ℕ → ℕ → Space → Option ℕ
get now k s = elim (live now (s k)) [ none ↦ none | some e ↦ some (e.value) ]

abbrev pub del : ℕ → Space → Space
del k s = put k none s

pub record Redis : Type 0 where
  pub otp : Space
  pub otp_attempts : Space
  pub refresh : Space
  pub email_verify : Space
  pub password_reset : Space

abbrev pub set_otp : (now phone code : ℕ) → Redis → Redis
set_otp now phone code r = record r { otp = set_ex now 600 phone code r.otp }

abbrev pub get_otp : (now phone : ℕ) → Redis → Option ℕ
get_otp now phone r = get now phone r.otp

abbrev pub delete_otp : ℕ → Redis → Redis
delete_otp phone r = record r { otp = del phone r.otp; otp_attempts = del phone r.otp_attempts }

-- The count after it, and the keys: the expiry is set on the first failure alone.
abbrev pub record_otp_failure : (now phone : ℕ) → Redis → ℕ × Redis
record_otp_failure now phone r =
    let k = incr now (r.otp_attempts phone) in
    (
      k.value,
      record r {
        otp_attempts =
            put phone (if k.value == 1 then pexpire now 600_000 k else some k) r.otp_attempts;
      },
    )

abbrev pub set_refresh_token : (now user hash : ℕ) → Redis → Redis
set_refresh_token now user hash r = record r { refresh = set_ex now 2_592_000 user hash r.refresh }

abbrev pub get_refresh_token : (now user : ℕ) → Redis → Option ℕ
get_refresh_token now user r = get now user r.refresh

abbrev pub delete_refresh_token : ℕ → Redis → Redis
delete_refresh_token user r = record r { refresh = del user r.refresh }

abbrev pub set_email_verify_token : (now token user : ℕ) → Redis → Redis
set_email_verify_token now token user r = record r {
  email_verify = set_ex now 86_400 token user r.email_verify;
}

abbrev pub get_email_verify_token : (now token : ℕ) → Redis → Option ℕ
get_email_verify_token now token r = get now token r.email_verify

abbrev pub delete_email_verify_token : ℕ → Redis → Redis
delete_email_verify_token token r = record r { email_verify = del token r.email_verify }

abbrev pub set_password_reset_token : (now token user : ℕ) → Redis → Redis
set_password_reset_token now token user r = record r {
  password_reset = set_ex now 3_600 token user r.password_reset;
}

abbrev pub get_password_reset_token : (now token : ℕ) → Redis → Option ℕ
get_password_reset_token now token r = get now token r.password_reset

abbrev pub delete_password_reset_token : ℕ → Redis → Redis
delete_password_reset_token token r = record r { password_reset = del token r.password_reset }
