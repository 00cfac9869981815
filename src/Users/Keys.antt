-- ===== src/Users/Keys.antt =====
-- What every account of src/users/users.service.ts has: keys of its own, and a profile.
use fann_api.Prelude.{ℕ, ◌≡◌, Bool, true, ◌==◌, any, All, UniqueBy}
use fann_api.Subscriptions.Access.{artist, planner, admin}
use fann_api.Users.{User, Db, Profile, has_email, has_code}

abbrev pub has_id : ℕ → User → Bool
has_id i u = u.id == i

abbrev pub owns : User → Profile → Bool
owns u p = p.user_id == u.id

-- the row of the role's profile table is there
abbrev pub has_profile : Db → User → Bool
has_profile db u = elim (u.role) [
  | admin ↦ true
  | artist ↦ any (owns u) db.artist_profiles
  | planner ↦ any (owns u) db.planner_profiles
]

pub record WellFormed (db : Db) : Type 0 where
  pub ids : UniqueBy has_id db.users
  pub emails : UniqueBy has_email db.users
  pub codes : UniqueBy has_code db.users
  pub profiles : All (λ u. has_profile db u ≡ true) db.users
