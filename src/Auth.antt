-- ===== src/Auth.antt =====
-- src/auth/auth.service.ts. Passwords are texts; a hash, a token, a code and a telephone number are
-- numbers, which the code only compares; random values are arguments. bcrypt, SHA-256 and JWT are
-- libraries, which `Crypto` stands for; the outbox holds what `emailService` and WhatsApp are told
-- to send.
mod Tests
pub mod Frame
pub mod Frames
pub mod Sessions
pub mod Passwords
pub mod Emails
pub mod Phones
pub mod Oauth
use fann_api.Prelude.{
  ℕ, ◌/◌, Bool, true, false, not, Option, none, some, List, [], ◌∷◌, ◌++◌, ◌==◌, Text, is_some,
  if◌then◌else◌, Env, Action, Result, ok, err, unauthorized, email_not_verified, pure, raise,
  raise_if, require, gets, modify, ◌>>=◌, ◌>>◌,
}
use fann_api.Subscriptions.Access.{UserRole}
use fann_api.Users.{
  User, UserStatus, pending_review, active, suspended, banned, AccountCode, Db, NewUser, create,
  find_by_email, find_by_id,
}
use fann_api.Users.Updates.{update_last_login}
use fann_api.Consent.{
  ConsentContext, Consents, ConsentDocument, terms, privacy, marketing, record_consents,
}
use fann_api.Verification.{VerificationRecord, open_for_signup}
use fann_api.Redis.{
  Redis, set_refresh_token, get_refresh_token, delete_refresh_token, set_email_verify_token,
}

pub record JwtPayload : Type 0 where
  pub sub : ℕ
  pub email : Text
  pub role : UserRole
  pub status : UserStatus
  pub account_code : AccountCode

pub data Secret : Type 0 where
  jwt_secret jwt_refresh_secret : Secret

-- the functions of the libraries: the salt and the time are arguments, in seconds
pub record Crypto : Type 0 where
  pub bcrypt_hash : (salt : ℕ) → (password : Text) → ℕ
  pub bcrypt_compare : (password : Text) → (hash : ℕ) → Bool
  pub sha256 : ℕ → ℕ
  pub jwt_sign : Secret → JwtPayload → (issued_at expires_in : ℕ) → ℕ
  pub jwt_verify : Secret → (now token : ℕ) → Option JwtPayload

pub data Mail : Type 0 where
  verification_email password_reset_email : (to : Text) → (token : ℕ) → Mail
  whatsapp_otp : (phone code : ℕ) → Mail

pub record State : Type 0 where
  pub db : Db
  pub consents : Consents
  pub verifications : List VerificationRecord
  pub redis : Redis
  pub outbox : List Mail

-- an operation of the users' service, and one of the Redis service
abbrev pub on_db : {A : Type 0} → Action Db A → Action State A
on_db m s = let (r, db') = m s.db in (r, record s { db = db' })

abbrev pub write_db : (Db → Db) → Action State (Unit {0})
write_db f = modify (λ s. record s { db = f s.db })

abbrev pub write_redis : (Redis → Redis) → Action State (Unit {0})
write_redis f = modify (λ s. record s { redis = f s.redis })

abbrev pub send : Mail → Action State (Unit {0})
send m = modify (λ s. record s { outbox = s.outbox ++ m ∷ [] })

pub record Tokens : Type 0 where
  pub access_token : ℕ
  pub refresh_token : ℕ

abbrev pub payload_of : User → JwtPayload
payload_of u = record {
  sub = u.id;
  email = u.email;
  role = u.role;
  status = u.status;
  account_code = u.account_code;
}

unfoldable pub send_email_verification : Env → (token : ℕ) → User → Action State (Unit {0})
send_email_verification env token u =
    write_redis (set_email_verify_token env.now token u.id)
    >> send (verification_email u.email token)

pub record RegisterDto : Type 0 where
  pub account : NewUser
  pub password : Text
  pub accepted_marketing : Bool

abbrev documents_of : RegisterDto → List ConsentDocument
documents_of dto =
    if dto.accepted_marketing then terms ∷ privacy ∷ marketing ∷ [] else terms ∷ privacy ∷ []

-- the consents of a new account, then its verification record
unfoldable pub open_account :
    Env → (user : ℕ) → List ConsentDocument → ConsentContext → Text → State → State
open_account env user documents context email s =
    let consents' =
      record_consents env user documents (record context { contact_email = some email })
        s.consents in
    record s {
      consents = consents';
      verifications = open_for_signup env user context consents' s.verifications;
    }

abbrev pub is_blocked : User → Bool
is_blocked u = elim (u.status) [ suspended ↦ true | banned ↦ true | _ ↦ false ]

module _ (crypto : Crypto) where
  -- the password of the DTO is hashed, and so no field of `account`
  unfoldable pub register :
      Env → (salt token : ℕ) → RegisterDto → ConsentContext → Action State (Unit {0})
  unfolding create open_account send_email_verification
  register env salt token dto context =
      let hash = crypto.bcrypt_hash salt dto.password in
      on_db (create env (record dto.account { password_hash = some hash })) >>= λ u.
      modify (open_account env u.id (documents_of dto) context dto.account.email)
      >> send_email_verification env token u

  -- it writes nothing: none is a rejection
  unfoldable pub validate_local_user : (email password : Text) → Db → Option User
  validate_local_user email password db = elim (find_by_email email db) [
    | none ↦ none
    | some u ↦ elim (u.password_hash) [
      | none ↦ none
      | some hash ↦ if crypto.bcrypt_compare password hash then some u else none
    ]
  ]

  abbrev pub sign_access_token : Env → User → ℕ
  sign_access_token env u = crypto.jwt_sign jwt_secret (payload_of u) (env.node_now / 1000) 900

  abbrev pub sign_refresh_token : Env → User → ℕ
  sign_refresh_token env u =
      crypto.jwt_sign jwt_refresh_secret (payload_of u) (env.node_now / 1000) 2_592_000

  unfoldable pub issue_tokens : Env → User → Action State Tokens
  issue_tokens env u =
      let refresh_token = sign_refresh_token env u in
      write_redis (set_refresh_token env.now u.id (crypto.sha256 refresh_token))
      >> pure (record { access_token = sign_access_token env u; refresh_token = refresh_token })

  unfoldable pub login : Env → User → Action State Tokens
  unfolding issue_tokens
  login env u =
      raise_if (is_some u.deleted_at) unauthorized
      >> raise_if (is_blocked u) unauthorized
      >> raise_if (not (is_some u.email_verified_at)) email_not_verified
      >> write_db (update_last_login env u.id)
      >> issue_tokens env u

  abbrev pub same_hash : ℕ → Option ℕ → Bool
  same_hash h none = false
  same_hash h (some k) = k == h

  -- the payload of the token, then the hash that is stored, then the account; it writes nothing
  unfoldable pub refresh : Env → (token : ℕ) → Action State ℕ
  refresh env token =
      require (crypto.jwt_verify jwt_refresh_secret (env.node_now / 1000) token) unauthorized
      >>= λ payload. gets (λ s. get_refresh_token env.now payload.sub s.redis) >>= λ stored.
          raise_if (not (same_hash (crypto.sha256 token) stored)) unauthorized
          >> gets (λ s. find_by_id payload.sub s.db)
          >>= λ found. require found unauthorized >>= λ u. pure (sign_access_token env u)

unfoldable pub logout : (user : ℕ) → Action State (Unit {0})
logout user = write_redis (delete_refresh_token user)

unfoldable pub login_oauth_user : Crypto → Env → User → Action State Tokens
unfolding issue_tokens
login_oauth_user crypto env u = write_db (update_last_login env u.id) >> issue_tokens crypto env u

-- `JwtStrategy.validate`: on every request with an access token
unfoldable pub validate : JwtPayload → Action State User
validate payload = gets (λ s. find_by_id payload.sub s.db) >>= λ found.
    require found unauthorized >>= λ u. raise_if (is_blocked u) unauthorized >> pure u
