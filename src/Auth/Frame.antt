-- ===== src/Auth/Frame.antt =====
-- Which operations leave the refresh keys alone.
use fann_api.Prelude.{
  ℕ, ◌≡◌, refl, ◌∙◌, inl, inr, Bool, true, false, Option, none, some, Error, Action, pure, raise,
  raise_if, require, gets, ◌>>=◌, Result-cases, if◌then◌else◌,
}
use fann_api.Users.{Db}
use fann_api.Redis.{
  Redis, Space, set_email_verify_token, set_otp, delete_email_verify_token, delete_otp,
}
use fann_api.Auth.{State, on_db, write_db, write_redis, send, Mail}

abbrev pub sessions_of : State → Space
sessions_of s = s.redis.refresh

pub record Keeps {A : Type 0} (m : Action State A) : Type 0 where
  pub at : (s : State) → sessions_of (m s).1 ≡ sessions_of s

module _ {A : Type 0} where
  pub Keeps-pure : (a : A) → Keeps (pure {S = State} a)
  Keeps-pure a = record { at = λ s. refl }

  pub Keeps-raise : (e : Error) → Keeps (raise {S = State} {A = A} e)
  Keeps-raise e = record { at = λ s. refl }

  pub Keeps-gets : (f : State → A) → Keeps (gets f)
  Keeps-gets f = record { at = λ s. refl }

  pub Keeps-require : (o : Option A) (e : Error) → Keeps (require {S = State} o e)
  Keeps-require none e = record { at = λ s. refl }
  Keeps-require (some a) e = record { at = λ s. refl }

  pub Keeps-on_db : (m : Action Db A) → Keeps (on_db m)
  Keeps-on_db m = record { at = λ s. refl }

  pub Keeps-if : (c : Bool) (m n : Action State A) → Keeps m → Keeps n → Keeps (if c then m else n)
  Keeps-if true m n h k = h
  Keeps-if false m n h k = k

pub Keeps-raise_if : (c : Bool) (e : Error) → Keeps (raise_if {S = State} c e)
Keeps-raise_if c e = record { at = λ s. refl }

pub Keeps-write_db : (f : Db → Db) → Keeps (write_db f)
Keeps-write_db f = record { at = λ s. refl }

pub Keeps-send : (m : Mail) → Keeps (send m)
Keeps-send m = record { at = λ s. refl }

pub Keeps-write_redis :
    (f : Redis → Redis) → ((r : Redis) → (f r).refresh ≡ r.refresh) → Keeps (write_redis f)
Keeps-write_redis f h = record { at = λ s. h s.redis }

pub Keeps-bind :
    {A B : Type 0} (m : Action State A) (f : A → Action State B)
    → Keeps m
    → ((a : A) → Keeps (f a))
    → Keeps (m >>= f)
Keeps-bind m f h k = record {
  at = λ s. elim (Result-cases (m s).0) [
    | inl (a, e) ↦ rw (◌>>=◌, e) ((k a).at (m s).1 ∙ h.at s)
    | inr (x, e) ↦ rw (◌>>=◌, e) (h.at s)
  ];
}

module _ (now : ℕ) where
  pub Keeps-set_email_verify_token :
      (token user : ℕ) → Keeps (write_redis (set_email_verify_token now token user))
  Keeps-set_email_verify_token token user = Keeps-write_redis _ (λ r. refl)

  pub Keeps-set_otp : (phone code : ℕ) → Keeps (write_redis (set_otp now phone code))
  Keeps-set_otp phone code = Keeps-write_redis _ (λ r. refl)

pub Keeps-delete_email_verify_token :
    (token : ℕ) → Keeps (write_redis (delete_email_verify_token token))
Keeps-delete_email_verify_token token = Keeps-write_redis _ (λ r. refl)

pub Keeps-delete_otp : (phone : ℕ) → Keeps (write_redis (delete_otp phone))
Keeps-delete_otp phone = Keeps-write_redis _ (λ r. refl)

pub ruleset keeps = (
  Keeps-pure, Keeps-raise, Keeps-gets, Keeps-require, Keeps-on_db, Keeps-if, Keeps-raise_if,
  Keeps-write_db, Keeps-send, Keeps-set_email_verify_token, Keeps-set_otp,
  Keeps-delete_email_verify_token, Keeps-delete_otp, Keeps-bind,
)
