-- ===== src/Prelude/Unique.antt =====
-- Unique indexes: which statements keep them.
use Prim.Native.Nat.{◌≤◌}
use mathlib.Core.Path.{◌≡◌}
use mathlib.Core.Logic.{◌⊎◌, inl, inr}
use mathlib.Core.Bool.{Bool, true, false, ◌&&◌, not}
use mathlib.Core.List.{List, [], ◌∷◌, ◌++◌}
use native.Mathlib.Omega.{arith}
use fann_api.Prelude.Tests.{Bool-cases}
use fann_api.Prelude.Table.{count, update, any}
use fann_api.Prelude.Counts.{
  any-none, count-append, count_mono, count-update_drop, count-update_to, count-update_same,
}

-- A unique index: at most one row has each key.
abbrev pub UniqueBy {ℓ κ} : {K : Type κ} {A : Type ℓ} → (K → A → Bool) → List A → Type κ
UniqueBy {K = K} has xs = (k : K) → count (has k) xs ≤ 1

module _ {ℓ κ} {K : Type κ} {A : Type ℓ} (has : K → A → Bool) where
  -- A row whose key no row has can be inserted.
  pub insert-UniqueBy :
      (k : K) (x : A) (xs : List A)
      → ((c : K) → has c x ≡ true → (y : A) → has c y ≡ true → has k y ≡ true)
      → any (has k) xs ≡ false
      → UniqueBy has xs
      → UniqueBy has (xs ++ x ∷ [])
  insert-UniqueBy k x xs same free h c =
      let added = count-append (has c) xs (x ∷ []) in
      let zero_ = any-none (has k) xs free in
      elim (Bool-cases (has c x)) [
        | inr miss ↦ ground (arith, added, h c)
        | inl hit ↦
            let below = count_mono (has c) (has k) xs (same c hit) in
            ground (arith, added, below, zero_)
      ]

  -- One row can take a key that no other row has.
  pub update-UniqueBy :
      (k : K) (p : A → Bool) (f : A → A) (xs : List A)
      → ((c : K)
          → (((y : A) → has c y ≡ true → has k y ≡ true) × ((x : A) → has c (f x) ≡ true))
            ⊎ ((x : A) → has c (f x) ≡ false))
      → count p xs ≤ 1
      → any (λ x. not (p x) && has k x) xs ≡ false
      → UniqueBy has xs
      → UniqueBy has (update p f xs)
  update-UniqueBy k p f xs keys one free h c = elim (keys c) [
    | inr other ↦
        let fewer = count-update_drop (has c) p f xs (λ x e. other x) in omega (arith, fewer, h c)
    | inl (same, takes) ↦
        let split = count-update_to (has c) p f xs (λ x e. takes x) in
        let below =
          count_mono (λ x. not (p x) && has c x) (λ x. not (p x) && has k x) xs
            (λ x e. ground (arith, same x)) in
        let zero_ = any-none (λ x. not (p x) && has k x) xs free in
        omega (arith, split, below, zero_, one)
  ]

  pub keep-UniqueBy :
      (p : A → Bool) (f : A → A) (xs : List A)
      → ((c : K) (x : A) → has c (f x) ≡ has c x)
      → UniqueBy has xs
      → UniqueBy has (update p f xs)
  keep-UniqueBy p f xs same h c =
      let eq = count-update_same (has c) p f xs (λ x e. same c x) in omega (arith, eq, h c)
