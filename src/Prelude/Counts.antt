-- ===== src/Prelude/Counts.antt =====
-- Lemmas on the queries of a table: what they find, and how an update changes a count.
use Prim.Native.Nat.{ℕ, ◌+◌, ◌≤◌, ◌<◌}
use mathlib.Core.Path.{◌≡◌, refl}
use mathlib.Core.Logic.{inl, inr}
use mathlib.Core.Bool.{Bool, true, false, ◌&&◌, ◌||◌, not}
use mathlib.Core.Option.{none, some}
use mathlib.Core.List.{List, [], ◌∷◌, ◌++◌}
use native.Mathlib.Omega.{arith}
use fann_api.Prelude.Tests.{==_iff, Bool-cases}
use fann_api.Prelude.Table.{
  length, rows, first, count, update, updated, any, head?, All, elem, distinct,
}

module _ {ℓ κ} {A : Type ℓ} (P : A → Type κ) where
  pub All-rows : (p : A → Bool) (xs : List A) → All P xs → All P (rows p xs)
  All-rows p [] h = tt
  All-rows p (x ∷ xs) h = elim (Bool-cases (p x)) [
    | inl e ↦ rw e (h.0, All-rows p xs h.1)
    | inr e ↦ rw e (All-rows p xs h.1)
  ]

  pub All-update :
      (p : A → Bool) (f : A → A) (xs : List A)
      → ((x : A) → p x ≡ true → P x → P (f x))
      → All P xs
      → All P (update p f xs)
  All-update p f [] k h = tt
  All-update p f (x ∷ xs) k h = elim (Bool-cases (p x)) [
    | inl e ↦ rw e (k x e h.0, All-update p f xs k h.1)
    | inr e ↦ rw e (h.0, All-update p f xs k h.1)
  ]

  pub All-first :
      (p : A → Bool) (xs : List A) (r : A) → All P xs → first p xs ≡ some r → P r × (p r ≡ true)
  All-first p [] r h e = cc
  All-first p (x ∷ xs) r h e = elim (Bool-cases (p x)) [
    | inl t ↦ let same : x ≡ r = ground arith in rw (← same) (h.0, t)
    | inr t ↦ All-first p xs r h.1 (ground arith)
  ]

module _ {ℓ} {A : Type ℓ} where
  -- What `.first()` returns satisfies the condition.
  pub first-eq-some : (p : A → Bool) (xs : List A) (r : A) → first p xs ≡ some r → p r ≡ true
  first-eq-some p [] r e = cc
  first-eq-some p (x ∷ xs) r e = elim (Bool-cases (p x)) [
    | inl t ↦ let same : x ≡ r = ground arith in rw (← same) t
    | inr t ↦ first-eq-some p xs r (ground arith)
  ]

  pub first-eq-none : (p : A → Bool) (xs : List A) → first p xs ≡ none → count p xs ≡ 0
  first-eq-none p [] e = refl
  first-eq-none p (x ∷ xs) e = ground (arith, first-eq-none p xs)

  pub first-ne-none : (p : A → Bool) (xs : List A) → count p xs ≡ 0 → first p xs ≡ none
  first-ne-none p [] e = refl
  first-ne-none p (x ∷ xs) e = ground (arith, first-ne-none p xs)

  pub count-first : (p : A → Bool) (xs : List A) (r : A) → first p xs ≡ some r → 0 < count p xs
  count-first p [] r e = cc
  count-first p (x ∷ xs) r e = ground (arith, count-first p xs r)

  pub count-append : (p : A → Bool) (xs ys : List A) → count p (xs ++ ys) ≡ count p xs + count p ys
  count-append p [] ys = omega arith
  count-append p (x ∷ xs) ys = ground (arith, count-append p xs ys)

  pub count-eq-length-rows : (p : A → Bool) (xs : List A) → length (rows p xs) ≡ count p xs
  count-eq-length-rows p [] = refl
  count-eq-length-rows p (x ∷ xs) = ground (arith, count-eq-length-rows p xs)

  -- An update that no row answers changes nothing.
  pub update-none : (p : A → Bool) (f : A → A) (xs : List A) → count p xs ≡ 0 → update p f xs ≡ xs
  update-none p f [] h = refl
  update-none p f (x ∷ xs) h = ground (arith, update-none p f xs)

  -- A count that looks at nothing which the update changes.
  pub count-update_same :
      (q p : A → Bool) (f : A → A) (xs : List A)
      → ((x : A) → p x ≡ true → q (f x) ≡ q x)
      → count q (update p f xs) ≡ count q xs
  count-update_same q p f [] k = refl
  count-update_same q p f (x ∷ xs) k = ground (arith, k x, count-update_same q p f xs k)

  -- Where the updated rows stop being counted, and no other row starts.
  pub count-update_drop :
      (q p : A → Bool) (f : A → A) (xs : List A)
      → ((x : A) → p x ≡ true → q (f x) ≡ false)
      → count q (update p f xs) ≤ count q xs
  count-update_drop q p f [] k = omega arith
  count-update_drop q p f (x ∷ xs) k = ground (arith, k x, count-update_drop q p f xs k)

  -- A stronger condition counts less.
  pub count_mono :
      (p q : A → Bool) (xs : List A) → ((x : A) → p x ≡ true → q x ≡ true) → count p xs ≤ count q xs
  count_mono p q [] k = omega arith
  count_mono p q (x ∷ xs) k = ground (arith, k x, count_mono p q xs k)

  pub any-append : (p : A → Bool) (xs ys : List A) → any p (xs ++ ys) ≡ (any p xs || any p ys)
  any-append p [] ys = refl
  any-append p (x ∷ xs) ys = ground (arith, any-append p xs ys)

  pub count-update_self :
      (p : A → Bool) (f : A → A) (xs : List A)
      → ((x : A) → p x ≡ true → p (f x) ≡ false)
      → count p (update p f xs) ≡ 0
  count-update_self p f [] k = refl
  count-update_self p f (x ∷ xs) k = ground (arith, k x, count-update_self p f xs k)

  -- Where every updated row starts being counted.
  pub count-update_add :
      (q p : A → Bool) (f : A → A) (xs : List A)
      → ((x : A) → p x ≡ true → q x ≡ false)
      → ((x : A) → p x ≡ true → q (f x) ≡ true)
      → count q (update p f xs) ≡ count q xs + count p xs
  count-update_add q p f [] k g = omega arith
  count-update_add q p f (x ∷ xs) k g = ground (arith, k x, g x, count-update_add q p f xs k g)

  pub rows-eq-nil : (p : A → Bool) (xs : List A) → count p xs ≡ 0 → rows p xs ≡ []
  rows-eq-nil p [] h = refl
  rows-eq-nil p (x ∷ xs) h = ground (arith, rows-eq-nil p xs)

  pub count-first_and :
      (p q : A → Bool) (xs : List A) (r : A)
      → first p xs ≡ some r
      → q r ≡ true
      → 0 < count (λ x. p x && q x) xs
  count-first_and p q [] r e h = cc
  count-first_and p q (x ∷ xs) r e h = elim (Bool-cases (p x)) [
    | inl t ↦ let same : x ≡ r = ground arith in let ready : q x ≡ true = rw same h in ground arith
    | inr t ↦ ground (arith, count-first_and p q xs r (ground arith) h)
  ]

  -- The first row that an update returns is an updated row.
  pub updated-eq-some :
      (p : A → Bool) (f : A → A) (xs : List A) (s : A)
      → head? (updated p f xs) ≡ some s
      → (r : A) × (p r ≡ true) × (s ≡ f r)
  updated-eq-some p f [] s e = cc
  updated-eq-some p f (x ∷ xs) s e = elim (Bool-cases (p x)) [
    | inl t ↦ (x, t, ground arith)
    | inr t ↦ updated-eq-some p f xs s (ground arith)
  ]

  -- A count after an update of rows that were not counted before.
  pub count-update_split :
      (q p g : A → Bool) (f : A → A) (xs : List A)
      → ((x : A) → p x ≡ true → q x ≡ false)
      → ((x : A) → p x ≡ true → q (f x) ≡ g x)
      → count q (update p f xs) ≡ count q xs + count (λ x. p x && g x) xs
  count-update_split q p g f [] k h = omega arith
  count-update_split q p g f (x ∷ xs) k h =
      ground (arith, k x, h x, count-update_split q p g f xs k h)

  -- Two conditions that exclude each other, under a third.
  pub count_disjoint :
      (p q r : A → Bool) (xs : List A)
      → ((x : A) → p x ≡ true → q x ≡ true → r x ≡ true → ⊥)
      → count (λ x. p x && q x) xs + count (λ x. p x && r x) xs ≤ count p xs
  count_disjoint p q r [] k = omega arith
  count_disjoint p q r (x ∷ xs) k = ground (arith, k x, count_disjoint p q r xs k)

  pub any-count : (p : A → Bool) (xs : List A) → any p xs ≡ true → 0 < count p xs
  any-count p [] h = cc
  any-count p (x ∷ xs) h = ground (arith, any-count p xs)

module _ {ℓ κ λ'} {A : Type ℓ} (P : A → Type κ) (Q : A → Type λ') where
  pub All_mono : (xs : List A) → ((x : A) → P x → Q x) → All P xs → All Q xs
  All_mono [] k h = tt
  All_mono (x ∷ xs) k h = (k x h.0, All_mono xs k h.1)

module _ {ℓ κ} {A : Type ℓ} (P : A → Type κ) where
  -- What holds of the rows that satisfy the condition.
  pub All-rows_of :
      (p : A → Bool) (xs : List A) → All (λ x. p x ≡ true → P x) xs → All P (rows p xs)
  All-rows_of p [] h = tt
  All-rows_of p (x ∷ xs) h = elim (Bool-cases (p x)) [
    | inl e ↦ rw e (h.0 e, All-rows_of p xs h.1)
    | inr e ↦ rw e (All-rows_of p xs h.1)
  ]

module _ {ℓ} {A : Type ℓ} (c : A → A → Bool) where
  -- Every row that matches itself is counted.
  pub All-self : (xs : List A) → All (λ s. c s s ≡ true → 0 < count (c s) xs) xs
  All-self [] = tt
  All-self (x ∷ xs) = (
    λ h. ground arith,
    All_mono (λ s. c s s ≡ true → 0 < count (c s) xs) (λ s. c s s ≡ true → 0 < count (c s) (x ∷ xs))
        xs (λ s k h. let p = k h in ground arith) (All-self xs),
  )

pub elem-distinct : (a : ℕ) (xs : List ℕ) → elem a xs ≡ true → elem a (distinct xs) ≡ true
elem-distinct a [] h = h
elem-distinct a (x ∷ xs) h = elim (Bool-cases (elem x xs)) [
  | inl e ↦ ground (arith, ==_iff a x, elem-distinct a xs)
  | inr e ↦ ground (arith, elem-distinct a xs)
]

module _ {ℓ} {A : Type ℓ} where
  pub any-none : (p : A → Bool) (xs : List A) → any p xs ≡ false → count p xs ≡ 0
  any-none p [] h = refl
  any-none p (x ∷ xs) h = ground (arith, any-none p xs)

  pub any-zero : (p : A → Bool) (xs : List A) → count p xs ≡ 0 → any p xs ≡ false
  any-zero p [] h = refl
  any-zero p (x ∷ xs) h = ground (arith, any-zero p xs)

  pub count-update_to :
      (q p : A → Bool) (f : A → A) (xs : List A)
      → ((x : A) → p x ≡ true → q (f x) ≡ true)
      → count q (update p f xs) ≡ count p xs + count (λ x. not (p x) && q x) xs
  count-update_to q p f [] k = omega arith
  count-update_to q p f (x ∷ xs) k = ground (arith, k x, count-update_to q p f xs k)

  pub All-append {κ} : (P : A → Type κ) (xs ys : List A) → All P xs → All P ys → All P (xs ++ ys)
  All-append P [] ys h k = k
  All-append P (x ∷ xs) ys h k = (h.0, All-append P xs ys h.1 k)
