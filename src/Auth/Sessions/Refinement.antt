-- ===== src/Auth/Sessions/Refinement.antt =====
-- The refresh keys are the sessions that the answers tell of.
use fann_api.Prelude.{
  ℕ, ◌+◌, ◌*◌, ◌/◌, ◌<◌, ◌≡◌, refl, sym, ap, ◌∙◌, ◌↔◌, inl, inr, Bool, true, false, Option, none,
  some, List, [], ◌∷◌, ◌++◌, ◌==◌, arith, Env, Action, Result, ok, err, Text, is_ok, is_some, subst,
  unauthorized, Option-cases, Result-cases, Bool-cases, if◌then◌else◌,
}
use fann_api.Throttle.{live}
use fann_api.Users.{User, find_by_id}
use fann_api.Users.Updates.{soft_delete_account}
use fann_api.Redis.{Space, get_refresh_token, get_password_reset_token}
use fann_api.Auth.{
  Crypto, State, same_hash, sign_access_token, login, refresh, logout, issue_tokens,
  login_oauth_user, jwt_refresh_secret, JwtPayload, is_blocked,
}
use fann_api.Auth.Passwords.{reset_password, delete_account, is_wrong}
use fann_api.Auth.Frame.{Keeps}
use fann_api.Auth.Frames.{
  register-Keeps, forgot_password-Keeps, resend-Keeps, verify_email-Keeps,
  request_email_change-Keeps, change_password-Keeps, send_otp-Keeps, verify_otp-Keeps,
  find_or_create-Keeps, refresh-Keeps,
}
use fann_api.Auth.Sessions.{
  Event, opened, closed, session_after, sessions_after, Request, registers, logs_in,
  logs_in_by_oauth, refreshes, logs_out, forgets_password, resets_password, changes_password,
  deletes_account, asks_for_link, verifies_email, changes_email, asks_for_code, enters_code,
  comes_by_oauth, handle, handle_all, key_of, Represents,
}

module _ (crypto : Crypto) (sessions : ℕ → Option (ℕ × ℕ)) (s : State)
    (agree : Represents crypto sessions s.redis.refresh) where
  kept :
      {A : Type 0} (m : Action State A) → Keeps m → Represents crypto sessions (m s).1.redis.refresh
  kept m k u = ap (λ (f : Space). f u) (k.at s) ∙ agree u

  opened-Represents :
      (env : Env) (user token : ℕ) (keys : Space)
      → ((u : ℕ)
          → keys u
            ≡ (if u == user then key_of crypto (some (token, env.now)) else s.redis.refresh u))
      → Represents crypto (sessions_after sessions (opened user token env.now ∷ [])) keys
  opened-Represents env user token keys new u = elim (Bool-cases (u == user)) [
    | inl e ↦ rw (new u, e) refl
    | inr e ↦ rw (new u, e) (agree u)
  ]

  closed-Represents :
      (user : ℕ) (keys : Space)
      → ((u : ℕ) → keys u ≡ (if u == user then none else s.redis.refresh u))
      → Represents crypto (sessions_after sessions (closed user ∷ [])) keys
  closed-Represents user keys new u = elim (Bool-cases (u == user)) [
    | inl e ↦ rw (new u, e) refl
    | inr e ↦ rw (new u, e) (agree u)
  ]

  login-Represents :
      (env : Env) (u : User)
      → let (s', es) = handle crypto (logs_in env u) s in
        Represents crypto (sessions_after sessions es) s'.redis.refresh
  unfolding handle login issue_tokens
  login-Represents env u = elim (Bool-cases (is_some u.deleted_at)) [
    | inl e ↦ rw e agree
    | inr e ↦ elim (Bool-cases (is_blocked u)) [
      | inl b ↦ rw (e, b) agree
      | inr b ↦ elim (Bool-cases (is_some u.email_verified_at)) [
        | inr v ↦ rw (e, b, v) agree
        | inl v ↦ rw (e, b, v) (opened-Represents env u.id _ _ (λ v. refl))
      ]
    ]
  ]

  login_oauth-Represents :
      (env : Env) (u : User)
      → let (s', es) = handle crypto (logs_in_by_oauth env u) s in
        Represents crypto (sessions_after sessions es) s'.redis.refresh
  unfolding handle login_oauth_user issue_tokens
  login_oauth-Represents env u = opened-Represents env u.id _ _ (λ v. refl)

  logout-Represents :
      (user : ℕ)
      → let (s', es) = handle crypto (logs_out user) s in
        Represents crypto (sessions_after sessions es) s'.redis.refresh
  unfolding handle logout
  logout-Represents user = closed-Represents user _ (λ v. refl)

  reset_password-Represents :
      (env : Env) (salt token : ℕ) (password : Text)
      → let (s', es) = handle crypto (resets_password env salt token password) s in
        Represents crypto (sessions_after sessions es) s'.redis.refresh
  unfolding handle reset_password
  reset_password-Represents env salt token password =
      elim (Option-cases (get_password_reset_token env.now token s.redis)) [
        | inl e ↦ rw e agree
        | inr (user, e) ↦ rw e (closed-Represents user _ (λ v. refl))
      ]

  delete_account-Represents :
      (env : Env) (deleted_email : ℕ → Text) (user : ℕ) (password : Text)
      → let (s', es) = handle crypto (deletes_account env deleted_email user password) s in
        Represents crypto (sessions_after sessions es) s'.redis.refresh
  unfolding handle delete_account
  delete_account-Represents env deleted_email user password =
      elim (Option-cases (find_by_id user s.db)) [
        | inl e ↦ rw e agree
        | inr (u, e) ↦ elim (Bool-cases (is_wrong crypto password u)) [
          | inl w ↦ rw (e, w) agree
          | inr w ↦ elim (Result-cases (soft_delete_account deleted_email env user s.db).0) [
            | inr (x, f) ↦ rw (e, w, f) agree
            | inl (a, f) ↦ rw (e, w, f) (closed-Represents user _ (λ v. refl))
          ]
        ]
      ]

some-injective : {A : Type 0} {a b : A} → some a ≡ some b → a ≡ b
some-injective e = ground arith

module _ (crypto : Crypto) where
  handle-Represents :
      (q : Request) (sessions : ℕ → Option (ℕ × ℕ)) (s : State)
      → Represents crypto sessions s.redis.refresh
      → let (s', es) = handle crypto q s in
        Represents crypto (sessions_after sessions es) s'.redis.refresh
  unfolding handle
  handle-Represents (registers env salt token dto context) ss s h =
      kept crypto ss s h _ (register-Keeps crypto env salt token dto context)
  handle-Represents (logs_in env u) ss s h = login-Represents crypto ss s h env u
  handle-Represents (logs_in_by_oauth env u) ss s h = login_oauth-Represents crypto ss s h env u
  handle-Represents (refreshes env token) ss s h =
      kept crypto ss s h _ (refresh-Keeps crypto env token)
  handle-Represents (logs_out user) ss s h = logout-Represents crypto ss s h user
  handle-Represents (forgets_password env token email) ss s h =
      kept crypto ss s h _ (forgot_password-Keeps crypto env token email)
  handle-Represents (resets_password env salt token password) ss s h =
      reset_password-Represents crypto ss s h env salt token password
  handle-Represents (changes_password env salt user current new) ss s h =
      kept crypto ss s h _ (change_password-Keeps crypto env salt user current new)
  handle-Represents (deletes_account env deleted_email user password) ss s h =
      delete_account-Represents crypto ss s h env deleted_email user password
  handle-Represents (asks_for_link env token email) ss s h =
      kept crypto ss s h _ (resend-Keeps crypto env token email)
  handle-Represents (verifies_email env token) ss s h =
      kept crypto ss s h _ (verify_email-Keeps crypto env token)
  handle-Represents (changes_email env token user new_email password) ss s h =
      kept crypto ss s h _ (request_email_change-Keeps crypto env token user new_email password)
  handle-Represents (asks_for_code env phone code delivered) ss s h =
      kept crypto ss s h _ (send_otp-Keeps crypto env phone code delivered)
  handle-Represents (enters_code env user phone code) ss s h =
      kept crypto ss s h _ (verify_otp-Keeps crypto env user phone code)
  handle-Represents (comes_by_oauth env dto context) ss s h =
      kept crypto ss s h _ (find_or_create-Keeps crypto env dto context)

  sessions_after-append :
      (es fs : List Event) (sessions : ℕ → Option (ℕ × ℕ)) (u : ℕ)
      → sessions_after sessions (es ++ fs) u ≡ sessions_after (sessions_after sessions es) fs u
  sessions_after-append [] fs sessions u = refl
  sessions_after-append (e ∷ es) fs sessions u =
      sessions_after-append es fs (λ v. session_after (sessions v) e v) u

  -- The refresh keys implement the sessions that the answers tell of: after any requests, in any order,
  -- the key of each user holds the hash of the refresh token that was last answered to a sign-in of
  -- theirs, with an expiry 30 days after that answer; and there is no key where they have logged out,
  -- deleted the account or reset the password since.
  pub handle_all-Represents :
      (qs : List Request) (sessions : ℕ → Option (ℕ × ℕ)) (s : State)
      → Represents crypto sessions s.redis.refresh
      → let (s', es) = handle_all crypto qs s in
        Represents crypto (sessions_after sessions es) s'.redis.refresh
  unfolding handle_all
  handle_all-Represents [] sessions s h = h
  handle_all-Represents (q ∷ qs) sessions s h =
      let (s', es) = handle crypto q s in
      let (s'', fs) = handle_all crypto qs s' in
      let now_ = handle-Represents q sessions s h in
      let rest = handle_all-Represents qs (sessions_after sessions es) s' now_ in
      λ u. rest u ∙ ap (key_of crypto) (sym (sessions_after-append es fs sessions u))

  abbrev pub IsAccepted : Env → (token : ℕ) → (ℕ → Option (ℕ × ℕ)) → State → Type 0
  IsAccepted env token sessions s =
      (payload : JwtPayload) × (u : User) × (at : ℕ) × (crypto.jwt_verify jwt_refresh_secret
          (env.node_now / 1000) token
        ≡ some payload)
      × (find_by_id payload.sub s.db ≡ some u)
      × (sessions payload.sub ≡ some (token, at))
      × (env.now < at + 2_592_000 * 1000)

  abbrev IsOpen : Env → (token : ℕ) → Option (ℕ × ℕ) → Type 0
  IsOpen env token session =
      (at : ℕ) × (session ≡ some (token, at)) × (env.now < at + 2_592_000 * 1000)

  same_hash-stored :
      ((a b : ℕ) → crypto.sha256 a ≡ crypto.sha256 b → a ≡ b)
      → (env : Env) (token : ℕ) (session : Option (ℕ × ℕ))
      → (same_hash crypto
            (crypto.sha256 token)
            (elim (live env.now (key_of crypto session)) [ none ↦ none | some e ↦ some (e.value) ])
          ≡ true)
        ↔ IsOpen env token session
  same_hash-stored injective env token none = (λ e. cc, λ (at, e, l). cc)
  same_hash-stored injective env token (some (t, at)) = (
    λ e.
        let alive : env.now < at + 2_592_000 * 1000 = ground arith in
        let hashes : crypto.sha256 t ≡ crypto.sha256 token = ground arith in
        (at, ap (λ x. some (x, at)) (injective t token hashes), alive),
    λ (at', e, l).
        let tokens : t ≡ token = ground arith in
        let times : at ≡ at' = ground arith in ground (arith, ap crypto.sha256 tokens),
  )

  same_hash-key :
      ((a b : ℕ) → crypto.sha256 a ≡ crypto.sha256 b → a ≡ b)
      → (env : Env) (token user : ℕ) (sessions : ℕ → Option (ℕ × ℕ)) (s : State)
      → Represents crypto sessions s.redis.refresh
      → (same_hash crypto (crypto.sha256 token) (get_refresh_token env.now user s.redis) ≡ true)
        ↔ IsOpen env token (sessions user)
  same_hash-key injective env token user sessions s h =
      subst
        (λ k.
          (same_hash crypto (crypto.sha256 token)
              (elim (live env.now k) [ none ↦ none | some e ↦ some (e.value) ])
            ≡ true)
          ↔ IsOpen env token (sessions user))
        (sym (h user)) (same_hash-stored injective env token (sessions user))

  module _ (env : Env) (token : ℕ) (sessions : ℕ → Option (ℕ × ℕ)) (s : State) where
    abbrev answer : Result ℕ × State
    answer = refresh crypto env token s

    abbrev Right : Type 0
    Right = ((is_ok (answer.0) ≡ true) ↔ IsAccepted env token sessions s) × (answer.1 ≡ s)

    abbrev verified_as : Option JwtPayload
    verified_as = crypto.jwt_verify jwt_refresh_secret (env.node_now / 1000) token

    rejected : (IsAccepted env token sessions s → ⊥) → answer ≡ (err unauthorized, s) → Right
    rejected no_ e = rw e ((λ x. cc, λ a. absurd (no_ a)), refl)

    refresh-unverified : verified_as ≡ none → answer ≡ (err unauthorized, s)
    unfolding refresh
    refresh-unverified bad = ground arith

    module _ (payload : JwtPayload) (verified : verified_as ≡ some payload) where
      abbrev matches : Bool
      matches =
          same_hash crypto (crypto.sha256 token) (get_refresh_token env.now payload.sub s.redis)

      refresh-unmatched : matches ≡ false → answer ≡ (err unauthorized, s)
      unfolding refresh
      refresh-unmatched no_ = ground arith

      refresh-missing :
          matches ≡ true → find_by_id payload.sub s.db ≡ none → answer ≡ (err unauthorized, s)
      unfolding refresh
      refresh-missing same missing = ground arith

      refresh-found :
          (u : User)
          → matches ≡ true
          → find_by_id payload.sub s.db ≡ some u
          → answer ≡ (ok (sign_access_token crypto env u), s)
      unfolding refresh
      refresh-found u same found = ground arith

      refresh-answer : (matches ≡ true) ↔ IsOpen env token (sessions payload.sub) → Right
      refresh-answer (open_, close_) = elim (Bool-cases matches) [
        | inr no_ ↦
            rejected
              (λ (p, u, at, v, f, o, l).
                let same : p ≡ payload = some-injective (sym v ∙ verified) in
                let hit : matches ≡ true = close_ (at, rw (← same) o, l) in ground arith)
              (refresh-unmatched no_)
        | inl same ↦ elim (Option-cases (find_by_id payload.sub s.db)) [
          | inl missing ↦
              rejected
                (λ (p, u, at, v, f, o, l).
                  let same : p ≡ payload = some-injective (sym v ∙ verified) in
                  let found : find_by_id payload.sub s.db ≡ some u = rw (← same) f in ground arith)
                (refresh-missing same missing)
          | inr (u, found) ↦
              let (at, o, l) = open_ same in
              rw (refresh-found u same found)
                ((λ e. (payload, u, at, verified, found, o, l), λ a. refl), refl)
        ]
      ]

  -- A refresh token is accepted exactly when it verifies and is the token of the open session of the
  -- account that it names, opened less than 30 days ago, where no two tokens have the same hash: so
  -- no token of an earlier sign-in, none after a logout and none after a reset. It writes nothing.
  pub refresh-eq-ok :
      ((a b : ℕ) → crypto.sha256 a ≡ crypto.sha256 b → a ≡ b)
      → (env : Env) (token : ℕ) (sessions : ℕ → Option (ℕ × ℕ)) (s : State)
      → Represents crypto sessions s.redis.refresh
      → let (r, s') = refresh crypto env token s in
        ((is_ok r ≡ true) ↔ IsAccepted env token sessions s) × (s' ≡ s)
  refresh-eq-ok injective env token sessions s h =
      elim (Option-cases (crypto.jwt_verify jwt_refresh_secret (env.node_now / 1000) token)) [
        | inl bad ↦
            rejected env token sessions s (λ (p, u, at, v, f, o, l). ground arith)
              (refresh-unverified env token sessions s bad)
        | inr (payload, verified) ↦
            refresh-answer env token sessions s payload verified
              (same_hash-key injective env token payload.sub sessions s h)
      ]
