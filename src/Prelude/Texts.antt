-- ===== src/Prelude/Texts.antt =====
-- Operations on texts, by character codes: `trim()` and `toLowerCase()`, the latter on the letters of
-- ASCII.
use Prim.Native.Nat.{ℕ, ◌+◌}
use mathlib.Core.Path.{◌≡◌, refl}
use mathlib.Core.Logic.{inl, inr}
use mathlib.Core.Bool.{Bool, true, false, not, ◌&&◌, ◌||◌}
use mathlib.Core.Option.{Option, none, some}
use mathlib.Core.List.{[], ◌∷◌, map}
use native.Mathlib.Omega.{arith}
use fann_api.Prelude.Tests.{Text, text_eq, leb, ◌==◌, ==_self, Bool-cases, if◌then◌else◌}

-- `!text`: not given, or empty
abbrev pub is_missing : Option Text → Bool
is_missing none = true
is_missing (some []) = true
is_missing (some (c ∷ s)) = false

abbrev pub lower_char : ℕ → ℕ
lower_char c = if leb 65 c && leb c 90 then c + 32 else c

abbrev pub lower : Text → Text
lower t = map lower_char t

-- the white space and the line ends of ECMAScript
abbrev pub is_space : ℕ → Bool
is_space c =
    (leb 9 c && leb c 13)
    || (c == 32)
    || (c == 160)
    || (c == 5760)
    || (leb 8192 c && leb c 8202)
    || (c == 8232)
    || (c == 8233)
    || (c == 8239)
    || (c == 8287)
    || (c == 12288)
    || (c == 65279)

abbrev pub is_empty : Text → Bool
is_empty [] = true
is_empty (c ∷ t) = false

abbrev trim_start : Text → Text
trim_start [] = []
trim_start (c ∷ t) = if is_space c then trim_start t else c ∷ t

abbrev trim_end : Text → Text
trim_end [] = []
trim_end (c ∷ t) = let rest = trim_end t in if is_empty rest && is_space c then [] else c ∷ rest

abbrev pub trim : Text → Text
trim t = trim_end (trim_start t)

pub text_eq_self : (t : Text) → text_eq t t ≡ true
text_eq_self [] = refl
text_eq_self (c ∷ t) = ground (arith, ==_self c, text_eq_self t)

pub text_eq_sound : (s t : Text) → text_eq s t ≡ true → s ≡ t
text_eq_sound [] [] e = refl
text_eq_sound [] (c ∷ t) e = cc
text_eq_sound (c ∷ s) [] e = cc
text_eq_sound (c ∷ s) (d ∷ t) e =
    let heads : c ≡ d = ground arith in
    let tails : s ≡ t = text_eq_sound s t (ground arith) in rw (heads, tails) refl

lower_char_idem : (c : ℕ) → lower_char (lower_char c) ≡ lower_char c
lower_char_idem c = ground arith

-- Lower case is its own lower case.
pub lower_idem : (t : Text) → lower (lower t) ≡ lower t
lower_idem [] = refl
lower_idem (c ∷ t) = rw (lower_char_idem c, lower_idem t) refl

-- no white space at the start
abbrev is_clean : Text → Bool
is_clean [] = true
is_clean (c ∷ t) = not (is_space c)

is_space-lower_char : (c : ℕ) → is_space (lower_char c) ≡ is_space c
is_space-lower_char c = ground arith

is_empty-lower : (t : Text) → is_empty (lower t) ≡ is_empty t
is_empty-lower [] = refl
is_empty-lower (c ∷ t) = refl

trim_start-lower : (t : Text) → trim_start (lower t) ≡ lower (trim_start t)
trim_start-lower [] = refl
trim_start-lower (c ∷ t) = elim (Bool-cases (is_space c)) [
  | inl e ↦ rw (is_space-lower_char c, e) (trim_start-lower t)
  | inr e ↦ rw (is_space-lower_char c, e) refl
]

trim_end-lower : (t : Text) → trim_end (lower t) ≡ lower (trim_end t)
trim_end-lower [] = refl
trim_end-lower (c ∷ t) =
    let rest = trim_end t in
    elim (Bool-cases (is_empty rest && is_space c)) [
      | inl e ↦ rw (trim_end-lower t, is_empty-lower rest, is_space-lower_char c, e) refl
      | inr e ↦ rw (trim_end-lower t, is_empty-lower rest, is_space-lower_char c, e) refl
    ]

trim_end_idem : (t : Text) → trim_end (trim_end t) ≡ trim_end t
trim_end_idem [] = refl
trim_end_idem (c ∷ t) = elim (Bool-cases (is_empty (trim_end t) && is_space c)) [
  | inl e ↦ rw e refl
  | inr e ↦ rw (e, trim_end_idem t, e) refl
]

is_clean-trim_start : (t : Text) → is_clean (trim_start t) ≡ true
is_clean-trim_start [] = refl
is_clean-trim_start (c ∷ t) = ground (arith, is_clean-trim_start t)

is_clean-trim_end : (t : Text) → is_clean t ≡ true → is_clean (trim_end t) ≡ true
is_clean-trim_end [] h = refl
is_clean-trim_end (c ∷ t) h = ground arith

trim_start_idle : (t : Text) → is_clean t ≡ true → trim_start t ≡ t
trim_start_idle [] h = refl
trim_start_idle (c ∷ t) h = ground arith

pub trim_idem : (t : Text) → trim (trim t) ≡ trim t
trim_idem t =
    rw (trim_start_idle (trim t) (is_clean-trim_end (trim_start t) (is_clean-trim_start t)))
      (trim_end_idem (trim_start t))

-- Trimming and lower case, done twice, change nothing more.
pub lower-trim_idem : (t : Text) → lower (trim (lower (trim t))) ≡ lower (trim t)
lower-trim_idem t =
    rw (trim_start-lower (trim t), trim_end-lower (trim_start (trim t)), trim_idem t)
      (lower_idem (trim t))
