-- ===== src/Auth/Tests.antt =====
-- Runs, and instances of the theorems.
use fann_api.Prelude.{
  ℕ, ◌+◌, ◌≡◌, ◌≢◌, refl, ◌↔◌, ◌⊎◌, true, false, Option, none, some, List, [], ◌∷◌, ◌==◌, length,
  Env, Error, ok, err, bad_request, conflict, arith, is_ok, is_some,
}
use fann_api.Subscriptions.Access.{artist, admin}
use fann_api.Users.{User, active, art, find_by_id, find_by_email, find_by_oauth, normalize_email}
use fann_api.Users.Updates.{link_oauth_account, with_email}
use fann_api.Consent.{ConsentContext}
use fann_api.Redis.{Redis}
use fann_api.Auth.{Crypto, State, JwtPayload, login, issue_tokens, refresh, send_email_verification}
use fann_api.Auth.Sessions.{
  opened, sessions_after, Request, logs_in, enters_code, handle, handle_all, Represents,
}
use fann_api.Auth.Sessions.Refinement.{handle_all-Represents, IsAccepted, refresh-eq-ok}
use fann_api.Auth.Phones.{send_otp, verify_otp}
use fann_api.Auth.Phones.Guesses.{Guess, guess_all, guess_all-verify_otp}
use fann_api.Auth.Emails.{request_email_change, verify_email}
use fann_api.Auth.Emails.Links.{pending_of, verify_email-request_email_change}
use fann_api.Auth.Oauth.{OauthData, find_or_create_oauth_user}
use fann_api.Auth.Oauth.Takeover.{find_or_create_oauth_user_lem}

abbrev at : ℕ → Env
at n = record { now = n; node_now = n; new_id = λ i. n + i }

abbrev ana : User
ana = record {
  id = 1;
  email = 97 ∷ [];
  phone = none;
  password_hash = some 2;
  role = artist;
  status = active;
  account_code = record { prefix = art; number = 1 };
  email_verified_at = some 5;
  phone_verified_at = none;
  created_at = 3;
  deleted_at = none;
  pending_email = none;
  last_login_at = none;
}

abbrev ana_payload : JwtPayload
ana_payload = record {
  sub = 1;
  email = 97 ∷ [];
  role = artist;
  status = active;
  account_code = record { prefix = art; number = 1 };
}

-- a password is checked by its length; every token above 1000 is ana's
abbrev toy : Crypto
toy = record {
  bcrypt_hash = λ salt password. length password;
  bcrypt_compare = λ password hash. length password == hash;
  sha256 = λ t. t;
  jwt_sign = λ secret payload iat exp. payload.sub + iat + 1000;
  jwt_verify = λ secret now token. some ana_payload;
}

abbrev redis : Redis
redis = record {
  otp = λ k. none;
  otp_attempts = λ k. none;
  refresh = λ k. none;
  email_verify = λ k. none;
  password_reset = λ k. none;
}

abbrev start : State
start = record {
  db = record {
    users = ana ∷ [];
    artist_profiles = [];
    planner_profiles = [];
    planner_interests = [];
    oauth_accounts = [];
  };
  consents = [];
  verifications = [];
  redis = redis;
  outbox = [];
}

abbrev day : List Request
day = logs_in (at 10_000) ana ∷ enters_code (at 12_000) 1 7 9 ∷ logs_in (at 20_000) ana ∷ []

events_of_day : (handle_all toy day start).1 ≡ opened 1 1011 10_000 ∷ opened 1 1021 20_000 ∷ []
unfolding handle_all handle login issue_tokens verify_otp
events_of_day = refl

abbrev evening : State
evening = (handle_all toy day start).0

abbrev sessions : ℕ → Option (ℕ × ℕ)
sessions = sessions_after (λ u. none) (handle_all toy day start).1

handle_all-Represents_example : Represents toy sessions evening.redis.refresh
handle_all-Represents_example = handle_all-Represents toy day (λ u. none) start (λ u. refl)

refresh-eq-ok_example :
    let (r, s') = refresh toy (at 30_000) 1021 evening in
    ((is_ok r ≡ true) ↔ IsAccepted toy (at 30_000) 1021 sessions evening) × (s' ≡ evening)
refresh-eq-ok_example =
    refresh-eq-ok toy (λ a b e. e) (at 30_000) 1021 sessions evening
      (handle_all-Represents toy day (λ u. none) start (λ u. refl))

abbrev guess : ℕ → ℕ → Guess
guess n code = record { env = at n; user = 1; code = code }

abbrev wrong_ones : List Guess
wrong_ones = guess 11 1 ∷ guess 12 2 ∷ guess 13 3 ∷ guess 14 4 ∷ guess 15 5 ∷ []

guess_all-verify_otp_example :
    let s' = guess_all 7 wrong_ones (send_otp (at 10) 7 9 true start).1 in
    verify_otp (at 16) 1 7 9 s' ≡ (err bad_request, s')
guess_all-verify_otp_example =
    guess_all-verify_otp (at 10) 7 9 true start wrong_ones refl
      (
        (refl, omega arith, omega arith),
        (
          (refl, omega arith, omega arith),
          (
            (refl, omega arith, omega arith),
            ((refl, omega arith, omega arith), ((refl, omega arith, omega arith), tt)),
          ),
        ),
      )
      (omega arith) (guess 16 9)

accepted_before : (verify_otp (at 16) 1 7 9 (send_otp (at 10) 7 9 true start).1).0 ≡ ok tt
unfolding verify_otp send_otp
accepted_before = refl

-- the link 77 was sent to ana's first address
abbrev linked : State
linked = (send_email_verification (at 100) 77 ana start).1

verify_email-request_email_change_example :
    let s' = (request_email_change toy (at 200) 78 1 (98 ∷ []) (0 ∷ 0 ∷ []) linked).1 in
    let (r, s'') = verify_email (at 300) 77 s' in
    (r ≡ ok tt)
    × (find_by_id 1 s''.db
        ≡ some (with_email (at 300) (normalize_email (98 ∷ [])) (pending_of (98 ∷ []) ana)))
unfolding request_email_change send_email_verification
verify_email-request_email_change_example =
    verify_email-request_email_change toy (at 200) (at 300) 78 77 1 (98 ∷ []) (0 ∷ 0 ∷ []) linked
      ana refl refl (omega arith) refl

abbrev google : OauthData
google = record { provider = 103 ∷ []; provider_uid = 49 ∷ []; email = 97 ∷ []; role = admin }

abbrev nowhere : ConsentContext
nowhere = record { ip_address = none; user_agent = none; contact_email = none }

find_or_create_oauth_user_lem_example :
    let (r, s') = find_or_create_oauth_user (at 9) google nowhere start in
    ((u : User) × (find_by_oauth google.provider google.provider_uid start.db ≡ some u)
      × (r ≡ ok u)
      × (s' ≡ start))
    ⊎ ((find_by_oauth google.provider google.provider_uid start.db ≡ none)
        × (((u : User) × (find_by_email google.email start.db ≡ some u)
              × (((is_some u.email_verified_at ≡ true)
                    × (r ≡ ok u)
                    × (s' ≡ record start {
                      db = link_oauth_account u.id google.provider google.provider_uid start.db;
                    }))
                  ⊎ ((is_some u.email_verified_at ≡ false) × (r ≡ err conflict) × (s' ≡ start))))
            ⊎ ((find_by_email google.email start.db ≡ none)
                × (((e : Error) × (r ≡ err e))
                    ⊎ ((u : User) × (r ≡ ok u) × (u.role ≢ admin) × (u.password_hash ≡ none))))))
find_or_create_oauth_user_lem_example = find_or_create_oauth_user_lem (at 9) google nowhere start
