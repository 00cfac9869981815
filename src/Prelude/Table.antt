-- ===== src/Prelude/Table.antt =====
-- A database table as the list of its rows, in the order of insertion, and the queries that the
-- services run on it.
use Prim.Native.Nat.{ℕ, suc}
use mathlib.Core.Bool.{Bool, false, ◌||◌}
use mathlib.Core.Option.{Option, none, some}
use mathlib.Core.List.{List, [], ◌∷◌, map}
use fann_api.Prelude.Tests.{leb, ◌==◌, if◌then◌else◌}

module _ {ℓ} {A : Type ℓ} where
  abbrev pub length : List A → ℕ
  length [] = 0
  length (x ∷ xs) = suc (length xs)

  -- `.where(p)`
  abbrev pub rows : (A → Bool) → List A → List A
  rows p [] = []
  rows p (x ∷ xs) = if p x then x ∷ rows p xs else rows p xs

  -- `.where(p).first()`
  abbrev pub first : (A → Bool) → List A → Option A
  first p [] = none
  first p (x ∷ xs) = if p x then some x else first p xs

  -- `.where(p).count()`
  abbrev pub count : (A → Bool) → List A → ℕ
  count p [] = 0
  count p (x ∷ xs) = if p x then suc (count p xs) else count p xs

  -- `.where(p).update(f)`
  abbrev pub update : (A → Bool) → (A → A) → List A → List A
  update p f [] = []
  update p f (x ∷ xs) = (if p x then f x else x) ∷ update p f xs

  -- the rows that `.where(p).update(f).returning(...)` gives back
  abbrev pub updated : (A → Bool) → (A → A) → List A → List A
  updated p f t = map f (rows p t)

  abbrev pub any : (A → Bool) → List A → Bool
  any p [] = false
  any p (x ∷ xs) = p x || any p xs

  abbrev pub head? : List A → Option A
  head? [] = none
  head? (x ∷ xs) = some x

  -- `ORDER BY key ASC`, stable
  abbrev pub place : (A → ℕ) → A → List A → List A
  place key x [] = x ∷ []
  place key x (y ∷ ys) = if leb (key x) (key y) then x ∷ y ∷ ys else y ∷ place key x ys

  abbrev pub order_by : (A → ℕ) → List A → List A
  order_by key [] = []
  order_by key (x ∷ xs) = place key x (order_by key xs)

  -- what holds of every row
  abbrev pub All {κ} : (A → Type κ) → List A → Type κ
  All P [] = Unit
  All P (x ∷ xs) = P x × All P xs

-- `DISTINCT`, and membership of an id
abbrev pub elem : ℕ → List ℕ → Bool
elem a [] = false
elem a (x ∷ xs) = (a == x) || elem a xs

abbrev pub distinct : List ℕ → List ℕ
distinct [] = []
distinct (x ∷ xs) = if elem x xs then distinct xs else x ∷ distinct xs
