-- ===== src/Users.antt =====
-- src/users/users.service.ts. The checks of `create` and the transaction that inserts are two steps,
-- between which other requests may run; the primary key and the unique indexes of `users` are checked
-- where a statement writes the columns. A password hash and a telephone number are numbers.
pub mod Updates
pub mod Keys
pub mod Insertion
pub mod Writes
pub mod Accounts
pub mod Codes
mod Tests
use fann_api.Prelude.{
  ℕ, ◌+◌, Bool, true, false, ◌&&◌, ◌||◌, not, Option, none, some, List, [], ◌∷◌, ◌++◌, ◌==◌, map,
  Text, text_eq, lower, trim, is_some, first, count, rows, update, any, if◌then◌else◌, Env, Action,
  Result, ok, err, conflict, not_found, unique_violation, pure, raise, raise_if, gets, modify,
  transaction, ◌>>=◌, ◌>>◌,
}
use fann_api.Subscriptions.Access.{UserRole, artist, planner, admin, role_eq}

pub data UserStatus : Type 0 where
  pending_review active suspended banned : UserStatus

pub data PlannerKind : Type 0 where
  individual company : PlannerKind

pub data BookerInterest : Type 0 where
  musical_acts performance_acts photo_video djs_and_services venues : BookerInterest

pub data CodePrefix : Type 0 where
  art pln adm ven cmp : CodePrefix

-- printed as ART-000001, with at least six digits
pub record AccountCode : Type 0 where
  pub prefix : CodePrefix
  pub number : ℕ

pub record User : Type 0 where
  pub id : ℕ
  pub email : Text
  pub phone : Option ℕ
  pub password_hash : Option ℕ
  pub role : UserRole
  pub status : UserStatus
  pub account_code : AccountCode
  pub email_verified_at : Option ℕ
  pub phone_verified_at : Option ℕ
  pub created_at : ℕ
  pub deleted_at : Option ℕ
  pub pending_email : Option Text
  pub last_login_at : Option ℕ

-- a row of artist_profiles or planner_profiles, as far as `create` fills it in
pub record Profile : Type 0 where
  pub id : ℕ
  pub user_id : ℕ
  pub planner_kind : Option PlannerKind
  pub booker_type : Option Text

pub record PlannerInterest : Type 0 where
  pub planner_profile_id : ℕ
  pub interest : BookerInterest

pub record OauthAccount : Type 0 where
  pub user_id : ℕ
  pub provider : Text
  pub provider_uid : Text

pub record Db : Type 0 where
  pub users : List User
  pub artist_profiles : List Profile
  pub planner_profiles : List Profile
  pub planner_interests : List PlannerInterest
  pub oauth_accounts : List OauthAccount

-- the argument of `create`
pub record NewUser : Type 0 where
  pub email : Text
  pub password_hash : Option ℕ
  pub role : UserRole
  pub phone : Option ℕ
  pub planner_kind : Option PlannerKind
  pub booker_type : Option Text
  pub interests : List BookerInterest

-- 'Venue'
abbrev venue : Text
venue = 86 ∷ 101 ∷ 110 ∷ 117 ∷ 101 ∷ []

abbrev pub account_code_prefix : UserRole → Option PlannerKind → Option Text → CodePrefix
account_code_prefix artist kind type = art
account_code_prefix admin kind type = adm
account_code_prefix planner (some company) (some type) = if text_eq type venue then ven else cmp
account_code_prefix planner (some company) none = cmp
account_code_prefix planner (some individual) type = pln
account_code_prefix planner none type = pln

abbrev pub normalize_email : Text → Text
normalize_email email = lower (trim email)

-- `lower(email) = ?`
abbrev pub has_email : Text → User → Bool
has_email address u = text_eq (lower u.email) address

abbrev pub find_by_id : ℕ → Db → Option User
find_by_id id db = first (λ u. u.id == id) db.users

abbrev pub find_by_email : Text → Db → Option User
find_by_email email db = first (has_email (normalize_email email)) db.users

abbrev pub is_link : (provider uid : Text) → OauthAccount → Bool
is_link provider uid oa = text_eq oa.provider provider && text_eq oa.provider_uid uid

-- the inner join of the links with their users
find_by_links : List OauthAccount → Db → Option User
find_by_links [] db = none
find_by_links (oa ∷ links) db = elim (find_by_id oa.user_id db) [
  | none ↦ find_by_links links db
  | some u ↦ some u
]

unfoldable pub find_by_oauth : (provider uid : Text) → Db → Option User
unfolding find_by_links
find_by_oauth provider uid db = find_by_links (rows (is_link provider uid) db.oauth_accounts) db

abbrev pub of_role : UserRole → User → Bool
of_role role u = role_eq u.role role

unfoldable pub generate_account_code :
    UserRole → Option PlannerKind → Option Text → Db → AccountCode
generate_account_code role kind type db = record {
  prefix = account_code_prefix role kind type;
  number = count (of_role role) db.users + 1;
}

abbrev pub prefix_eq : CodePrefix → CodePrefix → Bool
prefix_eq art art = true
prefix_eq pln pln = true
prefix_eq adm adm = true
prefix_eq ven ven = true
prefix_eq cmp cmp = true
prefix_eq _ _ = false

abbrev pub has_code : AccountCode → User → Bool
has_code c u = prefix_eq u.account_code.prefix c.prefix && (u.account_code.number == c.number)

abbrev pub new_user : Env → NewUser → Text → AccountCode → User
new_user env dto email code = record {
  id = env.new_id 0;
  email = email;
  phone = dto.phone;
  password_hash = dto.password_hash;
  role = dto.role;
  status = pending_review;
  account_code = code;
  email_verified_at = none;
  phone_verified_at = none;
  created_at = env.now;
  deleted_at = none;
  pending_email = none;
  last_login_at = none;
}

-- the INSERT into `users`, and the translation of its unique violations
unfoldable pub insert_user : Env → NewUser → Text → AccountCode → Action Db User
insert_user env dto email code db =
    let u = new_user env dto email code in
    if any (λ o. o.id == u.id) db.users
    then (err unique_violation, db)
    else if any (has_code code) db.users || any (has_email (lower email)) db.users
    then (err conflict, db)
    else (ok u, record db { users = db.users ++ u ∷ [] })

abbrev pub interest_eq : BookerInterest → BookerInterest → Bool
interest_eq musical_acts musical_acts = true
interest_eq performance_acts performance_acts = true
interest_eq photo_video photo_video = true
interest_eq djs_and_services djs_and_services = true
interest_eq venues venues = true
interest_eq _ _ = false

-- `[...new Set(interests)]`
abbrev pub unique : List BookerInterest → List BookerInterest
unique [] = []
unique (i ∷ is) = i ∷ rows (λ j. not (interest_eq j i)) (unique is)

abbrev pub new_profile : Env → User → Option PlannerKind → Option Text → Profile
new_profile env u kind type = record {
  id = env.new_id 1;
  user_id = u.id;
  planner_kind = kind;
  booker_type = type;
}

-- the profile of the role's table, and a planner's interests
unfoldable pub insert_profile : Env → NewUser → User → Db → Db
insert_profile env dto u db = elim (dto.role) [
  | admin ↦ db
  | artist ↦ record db { artist_profiles = db.artist_profiles ++ new_profile env u none none ∷ [] }
  | planner ↦ record db {
    planner_profiles =
        db.planner_profiles ++ new_profile env u dto.planner_kind dto.booker_type ∷ [];
    planner_interests =
        db.planner_interests
        ++ map (λ i. record { planner_profile_id = env.new_id 1; interest = i })
            (unique dto.interests);
  }
]

unfoldable pub insert_account : Env → NewUser → Text → AccountCode → Action Db User
unfolding insert_user insert_profile
insert_account env dto email code =
    transaction
      (insert_user env dto email code >>= λ u. modify (insert_profile env dto u) >> pure u)

unfoldable pub create : Env → NewUser → Action Db User
unfolding insert_account generate_account_code
create env dto =
    let email = normalize_email dto.email in
    gets (find_by_email email) >>= λ existing.
    raise_if (is_some existing) conflict
    >> gets (generate_account_code dto.role dto.planner_kind dto.booker_type)
    >>= λ code. insert_account env dto email code
