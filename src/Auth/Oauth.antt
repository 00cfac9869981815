-- ===== src/Auth/Oauth.antt =====
-- The sign-in by Google or Apple of src/auth/auth.service.ts.
pub mod Takeover
use fann_api.Prelude.{
  ℕ, Bool, true, false, not, Option, none, some, List, [], ◌∷◌, Text, is_some, if◌then◌else◌, Env,
  Action, Result, ok, err, conflict, pure, raise, raise_if, gets, modify, ◌>>=◌, ◌>>◌,
}
use fann_api.Subscriptions.Access.{UserRole, artist, planner, admin}
use fann_api.Users.{User, NewUser, create, find_by_email, find_by_oauth}
use fann_api.Users.Updates.{link_oauth_account, mark_email_verified}
use fann_api.Consent.{ConsentContext, terms, privacy}
use fann_api.Auth.{State, on_db, write_db, open_account}

pub record OauthData : Type 0 where
  pub provider : Text
  pub provider_uid : Text
  pub email : Text
  pub role : UserRole

-- SELF_SERVICE_ROLES, with the role that stands for any other
abbrev pub self_service_role : UserRole → UserRole
self_service_role artist = artist
self_service_role planner = planner
self_service_role admin = artist

abbrev pub new_oauth_user : OauthData → NewUser
new_oauth_user dto = record {
  email = dto.email;
  password_hash = none;
  role = self_service_role dto.role;
  phone = none;
  planner_kind = none;
  booker_type = none;
  interests = [];
}

-- the third case: a new account
unfoldable pub sign_up : Env → OauthData → ConsentContext → Action State User
unfolding create open_account link_oauth_account
sign_up env dto context = on_db (create env (new_oauth_user dto)) >>= λ u.
    write_db (link_oauth_account u.id dto.provider dto.provider_uid)
    >> modify (open_account env u.id (terms ∷ privacy ∷ []) context dto.email)
    >> write_db (mark_email_verified env u.id)
    >> pure u

-- the second case: an account has the address
unfoldable pub link_existing : OauthData → User → Action State User
unfolding link_oauth_account
link_existing dto u =
    raise_if (not (is_some u.email_verified_at)) conflict
    >> write_db (link_oauth_account u.id dto.provider dto.provider_uid)
    >> pure u

unfoldable pub find_or_create_oauth_user : Env → OauthData → ConsentContext → Action State User
find_or_create_oauth_user env dto context s =
    elim (find_by_oauth dto.provider dto.provider_uid s.db) [
      | some u ↦ (ok u, s)
      | none ↦ elim (find_by_email dto.email s.db) [
        | some u ↦ link_existing dto u s
        | none ↦ sign_up env dto context s
      ]
    ]
