-- ===== src/Users/Accounts.antt =====
-- What holds of the accounts whatever the order of the requests: the unique indexes, and a profile
-- for every account that needs one.
use fann_api.Prelude.{ℕ, refl, List, [], ◌∷◌, Text, Env}
use fann_api.Users.{UserStatus, AccountCode, Db, NewUser, insert_account, create}
use fann_api.Users.Updates.{
  link_oauth_account, mark_email_verified, mark_phone_verified, update_phone, update_password,
  set_pending_email, update_status, update_last_login, apply_pending_email, soft_delete_account,
}
use fann_api.Users.Keys.{WellFormed}
use fann_api.Users.Insertion.{create-WellFormed, insert_account-WellFormed}
use fann_api.Users.Writes.{
  update_user-keeps, apply_pending_email-WellFormed, soft_delete_account-WellFormed,
  link_oauth_account-WellFormed,
}

-- One request, or the transaction of `create` after checks that any earlier state answered.
pub data Step : Type 0 where
  creates : Env → NewUser → Step
  inserts : Env → NewUser → (email : Text) → AccountCode → Step
  links : (user : ℕ) → (provider uid : Text) → Step
  verifies_email verifies_phone logs_in : Env → ℕ → Step
  sets_phone sets_password : ℕ → ℕ → Step
  sets_pending_email : ℕ → Text → Step
  sets_status : ℕ → UserStatus → Step
  applies_pending_email : Env → ℕ → Text → Step
  deletes : (deleted_email : ℕ → Text) → Env → ℕ → Step

unfoldable pub step : Step → Db → Db
step (creates env dto) db = (create env dto db).1
step (inserts env dto email code) db = (insert_account env dto email code db).1
step (links user provider uid) db = link_oauth_account user provider uid db
step (verifies_email env id) db = mark_email_verified env id db
step (verifies_phone env id) db = mark_phone_verified env id db
step (logs_in env id) db = update_last_login env id db
step (sets_phone id phone) db = update_phone id phone db
step (sets_password id hash) db = update_password id hash db
step (sets_pending_email id email) db = set_pending_email id email db
step (sets_status id status) db = update_status id status db
step (applies_pending_email env id email) db = (apply_pending_email env id email db).1
step (deletes f env id) db = (soft_delete_account f env id db).1

unfoldable pub run : List Step → Db → Db
run [] db = db
run (s ∷ ss) db = run ss (step s db)

step-WellFormed : (s : Step) (db : Db) → WellFormed db → WellFormed (step s db)
unfolding step
step-WellFormed (creates env dto) db w = create-WellFormed env dto db w
step-WellFormed (inserts env dto email code) db w =
    insert_account-WellFormed env dto email code db w
step-WellFormed (links user provider uid) db w =
    link_oauth_account-WellFormed user provider uid db w
step-WellFormed (applies_pending_email env id email) db w =
    apply_pending_email-WellFormed env id email db w
step-WellFormed (deletes f env id) db w = soft_delete_account-WellFormed f env id db w
step-WellFormed (verifies_email env id) db w =
    update_user-keeps id _ db (λ u. refl) (λ u. refl) (λ u. refl) (λ u. refl) w
step-WellFormed (verifies_phone env id) db w =
    update_user-keeps id _ db (λ u. refl) (λ u. refl) (λ u. refl) (λ u. refl) w
step-WellFormed (logs_in env id) db w =
    update_user-keeps id _ db (λ u. refl) (λ u. refl) (λ u. refl) (λ u. refl) w
step-WellFormed (sets_phone id phone) db w =
    update_user-keeps id _ db (λ u. refl) (λ u. refl) (λ u. refl) (λ u. refl) w
step-WellFormed (sets_password id hash) db w =
    update_user-keeps id _ db (λ u. refl) (λ u. refl) (λ u. refl) (λ u. refl) w
step-WellFormed (sets_pending_email id email) db w =
    update_user-keeps id _ db (λ u. refl) (λ u. refl) (λ u. refl) (λ u. refl) w
step-WellFormed (sets_status id status) db w =
    update_user-keeps id _ db (λ u. refl) (λ u. refl) (λ u. refl) (λ u. refl) w

-- Whatever requests run, in whatever order, and with the checks of a registration done on any earlier
-- state: no two accounts have the same id, the same address in lower case or the same account code,
-- and every artist and every planner has a profile.
pub run-WellFormed : (ss : List Step) (db : Db) → WellFormed db → WellFormed (run ss db)
unfolding run
run-WellFormed [] db w = w
run-WellFormed (s ∷ ss) db w = run-WellFormed ss (step s db) (step-WellFormed s db w)
