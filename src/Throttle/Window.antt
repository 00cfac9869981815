-- ===== src/Throttle/Window.antt =====
-- A window of calls: how many of them get through.
use fann_api.Prelude.{
  ℕ, ◌+◌, ◌-◌, ◌≤◌, ◌<◌, ◌≡◌, refl, true, false, none, some, List, [], ◌∷◌, arith, All, length,
  if◌then◌else◌, Bool-cases, inl, inr, Option-cases, ltb,
}
use Prim.Native.Nat.{min}
use native.Mathlib.Decide.{dec_lt}
use fann_api.Throttle.{Keys, empty, pttl, increment}

-- The number of calls at the given times that are not refused.
pub allowed : ℕ → ℕ → ℕ → List ℕ → Keys → ℕ
allowed ttl limit block_duration [] s = 0
allowed ttl limit block_duration (t ∷ ts) s =
    let (r, s') = increment true t ttl limit block_duration s in
    (if r.is_blocked then 0 else 1) + allowed ttl limit block_duration ts s'

-- `v` calls were counted in the window that ends at `e`, and a block is set only above the limit.
record InWindow (limit e v : ℕ) (s : Keys) : Type 0 where
  counted : s.hit ≡ some (record { value = v; expires_at = some e })
  started : 0 < v
  unblocked : v ≤ limit → s.block ≡ none

module _ (ttl limit block_duration e t : ℕ) (pos : 0 < block_duration) (early : t < e) where
  step_open :
      (v : ℕ) (s : Keys)
      → InWindow limit e v s
      → v < limit
      → let (r, s') = increment true t ttl limit block_duration s in
        (r.is_blocked ≡ false) × InWindow limit e (v + 1) s'
  unfolding increment
  step_open v s w h = let free = w.unblocked (omega arith) in (ground (arith, w.counted, free))

  step_closed :
      (v : ℕ) (s : Keys)
      → InWindow limit e v s
      → limit ≤ v
      → let (r, s') = increment true t ttl limit block_duration s in
        (r.is_blocked ≡ true) × (v' : ℕ) × InWindow limit e v' s' × (limit ≤ v')
  unfolding increment
  step_closed v s w h = elim (Option-cases (pttl t s.block)) [
    | inl free ↦ (ground (arith, w.counted), v + 1, ground (arith, w.counted), omega arith)
    | inr (ms, e') ↦ elim (Bool-cases (ltb 0 ms)) [
      | inl blocked ↦ (ground (arith, w.counted), v, ground (arith, w.counted), h)
      | inr over ↦ (ground (arith, w.counted), v + 1, ground (arith, w.counted), omega arith)
    ]
  ]

module _ (ttl limit block_duration e : ℕ) (pos : 0 < block_duration) where
  allowed_closed :
      (ts : List ℕ) (v : ℕ) (s : Keys)
      → InWindow limit e v s
      → limit ≤ v
      → All (λ t. t < e) ts
      → allowed ttl limit block_duration ts s ≡ 0
  unfolding allowed
  allowed_closed [] v s w h a = refl
  allowed_closed (t ∷ ts) v s w h a =
      let (refused, v', w', h') = step_closed ttl limit block_duration e t pos a.0 v s w h in
      rw refused (omega (arith, allowed_closed ts v' _ w' h' a.1))

  allowed_open :
      (ts : List ℕ) (v : ℕ) (s : Keys)
      → InWindow limit e v s
      → v ≤ limit
      → All (λ t. t < e) ts
      → allowed ttl limit block_duration ts s ≡ min (limit - v) (length ts)
  unfolding allowed
  allowed_open [] v s w h a = omega arith
  allowed_open (t ∷ ts) v s w h a = elim (dec_lt v limit) [
    | yes open_ ↦
        let (passed, w') = step_open ttl limit block_duration e t pos a.0 v s w open_ in
        rw passed (omega (arith, allowed_open ts (v + 1) _ w' (omega arith) a.1))
    | no full ↦ omega (arith, allowed_closed (t ∷ ts) v s w (omega arith) a)
  ]

first_call :
    (ttl limit block_duration t : ℕ)
    → 0 < ttl
    → 0 < limit
    → let (r, s') = increment true t ttl limit block_duration empty in
      (r.is_blocked ≡ false) × InWindow limit (t + ttl) 1 s'
unfolding increment
first_call ttl limit block_duration t h k = ground arith

-- The budget of one caller is exact: of the calls made before the window that the first call opens
-- has run out, the first `limit` pass and all others are refused, whatever their order in time
-- and however short the block is.
pub allowed_window :
    (ttl limit block_duration t : ℕ) (ts : List ℕ)
    → 0 < ttl
    → 0 < limit
    → 0 < block_duration
    → All (λ u. u < t + ttl) ts
    → allowed ttl limit block_duration (t ∷ ts) empty ≡ min limit (length (t ∷ ts))
unfolding allowed
allowed_window ttl limit block_duration t ts p q b a =
    let (passed, w) = first_call ttl limit block_duration t p q in
    rw passed (omega (arith, allowed_open ttl limit block_duration (t + ttl) b ts 1 _ w q a))
