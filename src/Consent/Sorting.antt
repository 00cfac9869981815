-- ===== src/Consent/Sorting.antt =====
-- Sorting the newest first.
use fann_api.Prelude.{
  ℕ, ◌<◌, ◌≤◌, ◌≡◌, refl, inl, inr, ◌⊎◌, Bool, true, some, List, [], ◌∷◌, ◌++◌, arith, leb, head?,
  rows, All, All_mono, All-rows, Bool-cases, if◌then◌else◌,
}
use fann_api.Consent.{place_newest, newest_first}

module _ {A : Type 0} (key : A → ℕ) where
  -- the newest first
  abbrev Sorted : List A → Type 0
  Sorted [] = Unit
  Sorted (x ∷ xs) = All (λ y. key y ≤ key x) xs × Sorted xs

  place_newest-All :
      (x : A) (xs : List A) (b : ℕ)
      → key x ≤ b
      → All (λ y. key y ≤ b) xs
      → All (λ y. key y ≤ b) (place_newest key x xs)
  place_newest-All x [] b h k = (h, tt)
  place_newest-All x (y ∷ ys) b h k = elim (Bool-cases (leb (key y) (key x))) [
    | inl e ↦ rw e (h, k)
    | inr e ↦ rw e (k.0, place_newest-All x ys b h k.1)
  ]

  place_newest-Sorted : (x : A) (xs : List A) → Sorted xs → Sorted (place_newest key x xs)
  place_newest-Sorted x [] s = (tt, tt)
  place_newest-Sorted x (y ∷ ys) s = elim (Bool-cases (leb (key y) (key x))) [
    | inl e ↦ rw e (
      (
        ground arith,
        All_mono (λ z. key z ≤ key y) (λ z. key z ≤ key x) ys (λ z h. ground arith) s.0,
      ),
      s,
    )
    | inr e ↦ rw e (place_newest-All x ys (key y) (ground arith) s.0, place_newest-Sorted x ys s.1)
  ]

  newest_first-Sorted : (xs : List A) → Sorted (newest_first key xs)
  newest_first-Sorted [] = tt
  newest_first-Sorted (x ∷ xs) =
      place_newest-Sorted x (newest_first key xs) (newest_first-Sorted xs)

  place_newest-front :
      (x : A) (xs : List A) → All (λ y. key y ≤ key x) xs → place_newest key x xs ≡ x ∷ xs
  place_newest-front x [] h = refl
  place_newest-front x (y ∷ ys) h = ground (arith, h.0)

  rows-place_newest :
      (p : A → Bool) (x : A) (xs : List A)
      → Sorted xs
      → rows p (place_newest key x xs) ≡ (if p x then place_newest key x (rows p xs) else rows p xs)
  rows-place_newest p x [] s = refl
  rows-place_newest p x (y ∷ ys) s = elim (Bool-cases (leb (key y) (key x))) [
    | inl e ↦
        let below : All (λ z. key z ≤ key x) (y ∷ ys) = (
          ground arith,
          All_mono (λ z. key z ≤ key y) (λ z. key z ≤ key x) ys (λ z h. ground arith) s.0,
        ) in
        let front =
          place_newest-front x (rows p (y ∷ ys)) (All-rows (λ z. key z ≤ key x) p (y ∷ ys) below) in
        rw e (rw front refl)
    | inr e ↦
        let rest = rows-place_newest p x ys s.1 in
        elim (Bool-cases (p x)) [
          | inl px ↦ elim (Bool-cases (p y)) [
            | inl py ↦ ground (arith, rest)
            | inr py ↦ rw (e, px, py) (ground (arith, rest))
          ]
          | inr px ↦ ground (arith, rest)
        ]
  ]

  -- A filter commutes with the stable sort.
  pub rows-newest_first :
      (p : A → Bool) (xs : List A) → rows p (newest_first key xs) ≡ newest_first key (rows p xs)
  rows-newest_first p [] = refl
  rows-newest_first p (x ∷ xs) =
      let sorted = newest_first-Sorted xs in
      let placed = rows-place_newest p x (newest_first key xs) sorted in
      elim (Bool-cases (p x)) [
        | inl px ↦ rw (px, placed, px, rows-newest_first p xs) refl
        | inr px ↦ rw (px, placed, px) (rows-newest_first p xs)
      ]

  -- Where the rows of the last instant all satisfy a condition, the first one does.
  abbrev pub Newest : (A → Bool) → ℕ → List A → Type 0
  Newest P b xs = (z : A) × (head? xs ≡ some z) × (key z ≡ b) × (P z ≡ true)

  place_newest-Newest :
      (P : A → Bool) (b : ℕ) (x : A) (xs : List A)
      → Newest P b xs
      → (P x ≡ true) ⊎ (key x < b)
      → key x ≤ b
      → Newest P b (place_newest key x xs)
  place_newest-Newest P b x [] (z, e, kz, pz) h k = cc
  place_newest-Newest P b x (y ∷ ys) (z, e, kz, pz) h k =
      let same : y ≡ z = ground arith in
      let key_y : key y ≡ b = rw same kz in
      let P_y : P y ≡ true = rw same pz in
      elim (Bool-cases (leb (key y) (key x))) [
        | inl newer ↦ rw newer (x, refl, ground arith, ground arith)
        | inr older ↦ rw older (y, refl, key_y, P_y)
      ]

  newest_first-late :
      (P : A → Bool) (b : ℕ) (x : A) (xs : List A)
      → All (λ y. (key y ≡ b) × (P y ≡ true)) (x ∷ xs)
      → Newest P b (newest_first key (x ∷ xs))
  newest_first-late P b x [] h = (x, refl, h.0.0, h.0.1)
  newest_first-late P b x (y ∷ ys) h =
      place_newest-Newest P b x (newest_first key (y ∷ ys)) (newest_first-late P b y ys h.1)
        (inl (h.0.1)) (omega (arith, h.0.0))

  pub newest_first-append :
      (P : A → Bool) (b : ℕ) (xs : List A) (y : A) (ys : List A)
      → All (λ x. key x < b) xs
      → All (λ y. (key y ≡ b) × (P y ≡ true)) (y ∷ ys)
      → Newest P b (newest_first key (xs ++ y ∷ ys))
  newest_first-append P b [] y ys early late = newest_first-late P b y ys late
  newest_first-append P b (x ∷ xs) y ys early late =
      place_newest-Newest P b x (newest_first key (xs ++ y ∷ ys))
        (newest_first-append P b xs y ys early.1 late) (inr (early.0)) (omega (arith, early.0))
