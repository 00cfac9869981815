-- ===== src/Consent/Unsubscribe.antt =====
-- src/consent/unsubscribe-token.ts. `hmac` is HMAC-SHA256 in base64url, of node:crypto; a user id is
-- its text.
use fann_api.Prelude.{
  ℕ, ◌≡◌, refl, sym, ap, ◌∙◌, ◌↔◌, inl, inr, Bool, false, ◌||◌, Option, none, some, [], ◌∷◌, ◌++◌,
  ◌==◌, any, Text, text_eq, text_eq_self, text_eq_sound, is_empty, arith, if◌then◌else◌,
  Option-cases, or_else,
}

-- 'unsubscribe:marketing:'
abbrev purpose : Text
purpose =
    117 ∷ 110 ∷ 115 ∷ 117 ∷ 98 ∷ 115 ∷ 99 ∷ 114 ∷ 105 ∷ 98 ∷ 101 ∷ 58 ∷ 109 ∷ 97 ∷ 114 ∷ 107 ∷ 101
    ∷ 116 ∷ 105 ∷ 110 ∷ 103 ∷ 58 ∷ []

-- '.'
abbrev dot : ℕ
dot = 46

-- a text that is not empty, as a condition reads it
abbrev truthy : Option Text → Option Text
truthy none = none
truthy (some t) = if is_empty t then none else some t

-- UNSUBSCRIBE_SECRET and JWT_SECRET; none: it throws
unfoldable pub secret_from : (dedicated jwt : Option Text) → Option Text
secret_from dedicated jwt = or_else (truthy dedicated) (truthy jwt)

-- the parts before and after the last dot
unfoldable pub split_last : Text → Option (Text × Text)
split_last [] = none
split_last (c ∷ t) = elim (split_last t) [
  | some (before, after) ↦ some (c ∷ before, after)
  | none ↦ if c == dot then some ([], t) else none
]

module _ (hmac : (secret message : Text) → Text) (secret : Text) where
  unfoldable pub sign : Text → Text
  sign user = hmac secret (purpose ++ user)

  unfoldable pub create_unsubscribe_token : Text → Text
  unfolding sign
  create_unsubscribe_token user = user ++ dot ∷ sign user

  check_parts : Text × Text → Option Text
  unfolding sign
  check_parts (user, provided) =
      if is_empty user || is_empty provided
      then none
      else if text_eq provided (sign user)
      then some user
      else none

  unfoldable pub read_unsubscribe_token : Text → Option Text
  unfolding check_parts
  read_unsubscribe_token token = elim (split_last token) [
    | none ↦ none
    | some parts ↦ check_parts parts
  ]

abbrev has_dot : Text → Bool
has_dot t = any (λ c. c == dot) t

-- A text is the two parts around its last dot.
split_last_sound : (t a b : Text) → split_last t ≡ some (a, b) → t ≡ a ++ dot ∷ b
unfolding split_last
split_last_sound [] a b e = cc
split_last_sound (c ∷ t) a b e = elim (Option-cases (split_last t)) [
  | inl missing ↦
      let at : c ≡ 46 = ground arith in
      let before : ◌≡◌ {A = Text} [] a = ground arith in
      let after : t ≡ b = ground arith in rw (← before, ← after, at) refl
  | inr ((x, y), found) ↦
      let before : ◌≡◌ {A = Text} (c ∷ x) a = ground arith in
      let after : y ≡ b = ground arith in
      rw (← before, ← after) (ap (λ u. c ∷ u) (split_last_sound t x y found))
]

split_last-none : (t : Text) → has_dot t ≡ false → split_last t ≡ none
unfolding split_last
split_last-none [] h = refl
split_last-none (c ∷ t) h = ground (arith, split_last-none t)

split_last-append : (a b : Text) → has_dot b ≡ false → split_last (a ++ dot ∷ b) ≡ some (a, b)
unfolding split_last
split_last-append [] b h = rw (split_last-none b h) refl
split_last-append (c ∷ a) b h = rw (split_last-append a b h) refl

module _ (hmac : (secret message : Text) → Text) (secret : Text) where
  read-parts :
      (token : Text) (parts : Text × Text)
      → split_last token ≡ some parts
      → read_unsubscribe_token hmac secret token ≡ check_parts hmac secret parts
  unfolding read_unsubscribe_token check_parts
  read-parts token parts e = rw (e, read_unsubscribe_token) refl

  read-none :
      (token : Text) → split_last token ≡ none → read_unsubscribe_token hmac secret token ≡ none
  unfolding read_unsubscribe_token
  read-none token e = rw (e, read_unsubscribe_token) refl

  check_parts-signed :
      (user : Text)
      → is_empty user ≡ false
      → is_empty (sign hmac secret user) ≡ false
      → check_parts hmac secret (user, sign hmac secret user) ≡ some user
  unfolding check_parts
  check_parts-signed user present signed = ground (arith, text_eq_self (sign hmac secret user))

  check_parts-eq-some :
      (u provided user : Text)
      → check_parts hmac secret (u, provided) ≡ some user
      → (u ≡ user) × (provided ≡ sign hmac secret u)
  unfolding check_parts
  check_parts-eq-some u provided user e =
      ground (arith, text_eq_sound provided (sign hmac secret u))

  -- A token is read as a user's exactly when it is the one that is made for them, to the last
  -- character; the id may have dots. The id and the signature are not empty, and the signature has no
  -- dot.
  pub read-create_unsubscribe_token :
      ((message : Text) → has_dot (hmac secret message) ≡ false)
      → ((message : Text) → is_empty (hmac secret message) ≡ false)
      → (user token : Text) → is_empty user ≡ false
      → (read_unsubscribe_token hmac secret token ≡ some user)
        ↔ (token ≡ create_unsubscribe_token hmac secret user)
  unfolding create_unsubscribe_token sign
  read-create_unsubscribe_token no_dot not_empty user token present = (
    λ e. elim (Option-cases (split_last token)) [
      | inl missing ↦ let read = read-none token missing in cc
      | inr ((u, provided), found) ↦
          let read = read-parts token (u, provided) found in
          let (owner, signed) = check_parts-eq-some u provided user (sym read ∙ e) in
          rw (← owner, ← signed) (split_last_sound token u provided found)
    ],
    λ e.
        let signature = sign hmac secret user in
        let found = split_last-append user signature (no_dot (purpose ++ user)) in
        rw e (
          read-parts (create_unsubscribe_token hmac secret user) (user, signature) found
          ∙ check_parts-signed user present (not_empty (purpose ++ user))),
  )
