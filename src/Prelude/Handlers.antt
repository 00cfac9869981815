-- ===== src/Prelude/Handlers.antt =====
-- A request handler: it reads and writes the database, and returns or throws. What was written
-- before a throw stays written, except in a transaction.
use mathlib.Core.Bool.{Bool, true, false}
use mathlib.Core.Path.{◌≡◌, refl, ap}
use mathlib.Core.Logic.{◌⊎◌, inl, inr}
use mathlib.Core.Option.{Option, none, some}
use fann_api.Prelude.Tests.{if◌then◌else◌}

-- the HTTP exceptions of NestJS, the 401 with the code EMAIL_NOT_VERIFIED, and the unique violation
-- of Postgres (code 23505)
pub data Error : Type 0 where
  bad_request unauthorized payment_required forbidden not_found conflict : Error
  email_not_verified service_unavailable internal_server_error unique_violation : Error

pub data Result (A : Type 0) : Type 0 where
  ok : A → Result A
  err : Error → Result A

abbrev pub Action : Type 0 → Type 0 → Type 0
Action S A = S → Result A × S

module _ {S A : Type 0} where
  abbrev pub pure : A → Action S A
  pure a s = (ok a, s)

  abbrev pub raise : Error → Action S A
  raise e s = (err e, s)

  abbrev pub gets : (S → A) → Action S A
  gets f s = (ok (f s), s)

  -- the value, or the exception if there is none
  abbrev pub require : Option A → Error → Action S A
  require none e = raise e
  require (some a) e = pure a

  -- `db.transaction(m)`: a throw rolls the writes back
  abbrev pub transaction : Action S A → Action S A
  transaction m s = let (r, s') = m s in elim r [ ok a ↦ (ok a, s') | err e ↦ (err e, s) ]

module _ {S : Type 0} where
  abbrev pub raise_if : Bool → Error → Action S (Unit {0})
  raise_if c e s = (if c then err e else ok tt, s)

  abbrev pub modify : (S → S) → Action S (Unit {0})
  modify f s = (ok tt, f s)

infixl 5 ◌>>=◌ ◌>>◌
abbrev pub ◌>>=◌ : {S A B : Type 0} → Action S A → (A → Action S B) → Action S B
◌>>=◌ m f s = let (r, s') = m s in elim r [ ok a ↦ f a s' | err e ↦ (err e, s') ]

abbrev pub ◌>>◌ : {S A B : Type 0} → Action S A → Action S B → Action S B
m >> k = m >>= λ _. k

-- A step whose result is known.
pub >>=-ok :
    {S A B : Type 0} (m : Action S A) (f : A → Action S B) (s : S) {a : A} {s' : S}
    → m s ≡ (ok a, s')
    → (m >>= f) s ≡ f a s'
>>=-ok m f s {a} e = rw (e, ◌>>=◌) (ap (λ p. f a p.1) e)

pub >>=-err :
    {S A B : Type 0} (m : Action S A) (f : A → Action S B) (s : S) {e : Error} {s' : S}
    → m s ≡ (err e, s')
    → (m >>= f) s ≡ (err e, s')
>>=-err m f s {e} h = rw (h, ◌>>=◌) (ap (λ p. (err e, p.1)) h)

-- A transaction that commits, and one that is rolled back.
module _ {S A : Type 0} (m : Action S A) (s s' : S) where
  pub transaction-ok : (a : A) → m s ≡ (ok a, s') → transaction m s ≡ (ok a, s')
  transaction-ok a e = rw (e, transaction) (ap (λ p. (ok a, p.1)) e)

  pub transaction-err : (e : Error) → m s ≡ (err e, s') → transaction m s ≡ (err e, s)
  transaction-err e h = rw (h, transaction) refl

abbrev pub is_ok : {A : Type 0} → Result A → Bool
is_ok (ok a) = true
is_ok (err e) = false

pub Result-cases :
    {A : Type 0} (r : Result A) → ((a : A) × (r ≡ ok a)) ⊎ ((e : Error) × (r ≡ err e))
Result-cases (ok a) = inl (a, refl)
Result-cases (err e) = inr (e, refl)
