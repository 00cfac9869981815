-- ===== src/Auth/Frames.antt =====
-- The operations of src/auth/auth.service.ts that leave the refresh keys alone.
use fann_api.Prelude.{ℕ, refl, inl, inr, Bool, Env, modify, Option-cases, Text, arith}
use fann_api.Users.{User, find_by_oauth, find_by_email}
use fann_api.Consent.{ConsentContext}
use fann_api.Auth.{Crypto, RegisterDto, register, open_account, send_email_verification, refresh}
use fann_api.Auth.Frame.{Keeps, keeps}
use fann_api.Auth.Passwords.{forgot_password, change_password}
use fann_api.Auth.Emails.{
  confirm_address, resend_email_verification, verify_email, request_email_change,
}
use fann_api.Auth.Phones.{accept_code, count_wrong_code, send_otp, verify_otp}
use fann_api.Auth.Oauth.{OauthData, link_existing, sign_up, find_or_create_oauth_user}

send_email_verification-Keeps :
    (env : Env) (token : ℕ) (u : User) → Keeps (send_email_verification env token u)
unfolding send_email_verification
send_email_verification-Keeps env token u = search keeps depth 7

open_account-Keeps :
    (env : Env) (user : ℕ) (documents : _) (context : ConsentContext) (email : Text)
    → Keeps (modify (open_account env user documents context email))
unfolding open_account
open_account-Keeps env user documents context email = record { at = λ s. refl }

module _ (crypto : Crypto) (env : Env) where
  pub register-Keeps :
      (salt token : ℕ) (dto : RegisterDto) (context : ConsentContext)
      → Keeps (register crypto env salt token dto context)
  unfolding register
  register-Keeps salt token dto context =
      search (keeps, open_account-Keeps, send_email_verification-Keeps) depth 7

  pub forgot_password-Keeps : (token : ℕ) (email : Text) → Keeps (forgot_password env token email)
  unfolding forgot_password
  forgot_password-Keeps token email = record { at = λ s. ground arith }

  pub resend-Keeps : (token : ℕ) (email : Text) → Keeps (resend_email_verification env token email)
  unfolding resend_email_verification send_email_verification
  resend-Keeps token email = record { at = λ s. ground arith }

  pub confirm_address-Keeps : (u : User) → Keeps (confirm_address env u)
  unfolding confirm_address
  confirm_address-Keeps u = record { at = λ s. ground arith }

  pub verify_email-Keeps : (token : ℕ) → Keeps (verify_email env token)
  unfolding verify_email
  verify_email-Keeps token = search (keeps, confirm_address-Keeps) depth 12

  pub request_email_change-Keeps :
      (token user : ℕ) (new_email password : Text)
      → Keeps (request_email_change crypto env token user new_email password)
  unfolding request_email_change
  request_email_change-Keeps token user new_email password =
      search (keeps, send_email_verification-Keeps) depth 16

  pub change_password-Keeps :
      (salt user : ℕ) (current new : Text) → Keeps (change_password crypto salt user current new)
  unfolding change_password
  change_password-Keeps salt user current new = search keeps depth 12

  pub send_otp-Keeps :
      (phone code : ℕ) (delivered : Bool) → Keeps (send_otp env phone code delivered)
  unfolding send_otp
  send_otp-Keeps phone code delivered = search keeps depth 9

  pub accept_code-Keeps : (user phone : ℕ) → Keeps (accept_code env user phone)
  unfolding accept_code
  accept_code-Keeps user phone = search keeps depth 9

  pub count_wrong_code-Keeps : (phone : ℕ) → Keeps (count_wrong_code env phone)
  unfolding count_wrong_code
  count_wrong_code-Keeps phone = record { at = λ s. ground arith }

  pub verify_otp-Keeps : (user phone code : ℕ) → Keeps (verify_otp env user phone code)
  unfolding verify_otp
  verify_otp-Keeps user phone code =
      search (keeps, accept_code-Keeps, count_wrong_code-Keeps) depth 9

  pub link_existing-Keeps : (dto : OauthData) (u : User) → Keeps (link_existing dto u)
  unfolding link_existing
  link_existing-Keeps dto u = search keeps depth 9

  pub sign_up-Keeps : (dto : OauthData) (context : ConsentContext) → Keeps (sign_up env dto context)
  unfolding sign_up
  sign_up-Keeps dto context = search (keeps, open_account-Keeps) depth 14

  pub find_or_create-Keeps :
      (dto : OauthData) (context : ConsentContext)
      → Keeps (find_or_create_oauth_user env dto context)
  unfolding find_or_create_oauth_user
  find_or_create-Keeps dto context = record {
    at = λ s. elim (Option-cases (find_by_oauth dto.provider dto.provider_uid s.db)) [
      | inr (u, found) ↦ rw (find_or_create_oauth_user, found) refl
      | inl unlinked ↦ elim (Option-cases (find_by_email dto.email s.db)) [
        | inr (u, found) ↦
            rw (find_or_create_oauth_user, unlinked, found) ((link_existing-Keeps dto u).at s)
        | inl missing ↦
            rw (find_or_create_oauth_user, unlinked, missing) ((sign_up-Keeps dto context).at s)
      ]
    ];
  }

  pub refresh-Keeps : (token : ℕ) → Keeps (refresh crypto env token)
  unfolding refresh
  refresh-Keeps token = search keeps depth 12
