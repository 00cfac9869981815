-- ===== src/Users/Tests.antt =====
-- Runs, and instances of the theorems.
use fann_api.Prelude.{
  ℕ, ◌+◌, ◌≡◌, refl, none, some, List, [], ◌∷◌, Text, Env, ok, err, conflict, arith,
}
use fann_api.Subscriptions.Access.{artist, planner}
use fann_api.Users.{
  Db, NewUser, company, venues, musical_acts, unique, pln, normalize_email, create, insert_account,
  insert_user, insert_profile, generate_account_code,
}
use fann_api.Users.Keys.{WellFormed}
use fann_api.Users.Accounts.{
  Step, creates, inserts, applies_pending_email, deletes, run, run-WellFormed,
}
use fann_api.Users.Codes.{Counted, registered, after, create_lem}

abbrev empty : Db
empty = record {
  users = [];
  artist_profiles = [];
  planner_profiles = [];
  planner_interests = [];
  oauth_accounts = [];
}

abbrev at : ℕ → Env
at n = record { now = n; node_now = n; new_id = λ i. n + i }

-- " A@b" and "a@B"
abbrev typed : Text
typed = 32 ∷ 65 ∷ 64 ∷ 98 ∷ []

abbrev spelled : Text
spelled = 97 ∷ 64 ∷ 66 ∷ []

abbrev booker : NewUser
booker = record {
  email = typed;
  password_hash = some 9;
  role = planner;
  phone = none;
  planner_kind = some company;
  booker_type = none;
  interests = venues ∷ musical_acts ∷ venues ∷ [];
}

abbrev singer : NewUser
singer = record booker { email = spelled; role = artist }

dedupe : unique (booker.interests) ≡ venues ∷ musical_acts ∷ []
dedupe = refl

same_address : normalize_email typed ≡ normalize_email spelled
same_address = refl

abbrev one : Db
one = (create (at 100) booker empty).1

second_refused : (create (at 200) singer one).0 ≡ err conflict
unfolding create insert_account insert_user insert_profile generate_account_code
second_refused = refl

abbrev story : List Step
story =
    creates (at 100) booker
    ∷ inserts (at 200) singer (normalize_email spelled) (record { prefix = pln; number = 7 })
    ∷ creates (at 300) (record singer { email = 99 ∷ [] })
    ∷ applies_pending_email (at 400) 300 typed
    ∷ deletes (λ id. id ∷ []) (at 500) 100
    ∷ []

empty-WellFormed : WellFormed empty
empty-WellFormed = record {
  ids = λ k. ground arith;
  emails = λ k. ground arith;
  codes = λ k. ground arith;
  profiles = tt;
}

run-WellFormed_example : WellFormed (run story empty)
run-WellFormed_example = run-WellFormed story empty empty-WellFormed

create_lem_example :
    (create (at 100) booker empty
      ≡ (ok (registered (at 100) booker empty), after (at 100) booker empty))
    × Counted (after (at 100) booker empty)
create_lem_example = create_lem (at 100) booker empty tt refl refl
