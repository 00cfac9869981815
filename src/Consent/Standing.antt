-- ===== src/Consent/Standing.antt =====
-- What the record of consents says now. The rows are in the order of insertion.
use fann_api.Prelude.{
  ℕ, ◌<◌, ◌≡◌, refl, ap, subst, ◌∙◌, ◌⊎◌, inl, inr, Bool, true, false, ◌&&◌, not, List, [], ◌∷◌,
  ◌++◌, ◌==◌, map, arith, holds, head?, first, rows, All, any, length, All-rows, Bool-cases, Env,
  ok, err, bad_request, ==_self,
}
use fann_api.Consent.{
  ConsentDocument, terms, privacy, document_eq, is_mandatory, consent_version, ConsentContext,
  ConsentRecord, Consents, consent_row, record_consents, set_consent, newest_first, is_of, is_about,
  list_for_user, latest_for_user, is_outdated, outdated_documents, is_granted,
}
use fann_api.Consent.Sorting.{Newest, rows-newest_first, newest_first-append}

rows-rows :
    {A : Type 0} (p q : A → Bool) (xs : List A) → rows q (rows p xs) ≡ rows (λ x. p x && q x) xs
rows-rows p q [] = refl
rows-rows p q (x ∷ xs) = ground (arith, rows-rows p q xs)

first-eq-head : {A : Type 0} (p : A → Bool) (xs : List A) → first p xs ≡ head? (rows p xs)
first-eq-head p [] = refl
first-eq-head p (x ∷ xs) = ground (arith, first-eq-head p xs)

rows-append :
    {A : Type 0} (p : A → Bool) (xs ys : List A) → rows p (xs ++ ys) ≡ rows p xs ++ rows p ys
rows-append p [] ys = refl
rows-append p (x ∷ xs) ys = ground (arith, rows-append p xs ys)

List-cases : {A : Type 0} (xs : List A) → (xs ≡ []) ⊎ ((x : A) × (ys : List A) × (xs ≡ x ∷ ys))
List-cases [] = inl refl
List-cases (x ∷ xs) = inr (x, xs, refl)

append-nil : {A : Type 0} (xs : List A) → xs ++ [] ≡ xs
append-nil [] = refl
append-nil (x ∷ xs) = ap (λ ys. x ∷ ys) (append-nil xs)

document_eq_self : (d : ConsentDocument) → document_eq d d ≡ true
document_eq_self d = ground arith

document_eq_sound : (c d : ConsentDocument) → document_eq c d ≡ true → c ≡ d
document_eq_sound c d e = ground arith

abbrev bool_eq : Bool → Bool → Bool
bool_eq true b = b
bool_eq false b = not b

bool_eq_self : (b : Bool) → bool_eq b b ≡ true
bool_eq_self b = ground arith

bool_eq_sound : (a b : Bool) → bool_eq a b ≡ true → a ≡ b
bool_eq_sound a b e = ground arith

abbrev time_of : ConsentRecord → ℕ
time_of r = r.accepted_at

abbrev concerns : ℕ → ConsentDocument → ConsentRecord → Bool
concerns user document r = is_of user r && is_about document r

latest-eq-head :
    (user : ℕ) (t : Consents) (document : ConsentDocument)
    → latest_for_user user t document
      ≡ head? (newest_first time_of (rows (concerns user document) t))
unfolding latest_for_user list_for_user
latest-eq-head user t document =
    first-eq-head (is_about document) (newest_first time_of (rows (is_of user) t))
    ∙ ap head? (rows-newest_first time_of (is_about document) (rows (is_of user) t))
    ∙ ap (λ xs. head? (newest_first time_of xs)) (rows-rows (is_of user) (is_about document) t)

-- Asking for one document and listing all of them agree: a consent stands exactly when the newest
-- entry of the document, among all of the user's entries sorted, is a grant.
pub is_granted-eq-latest :
    (user : ℕ) (document : ConsentDocument) (t : Consents)
    → is_granted user document t
      ≡ holds (λ (r : ConsentRecord). r.granted) (latest_for_user user t document)
unfolding is_granted
is_granted-eq-latest user document t = rw (latest-eq-head user t document) refl

-- every entry so far is from before
abbrev pub Before : ℕ → Consents → Type 0
Before now t = All (λ (r : ConsentRecord). r.accepted_at < now) t

module _ (env : Env) (user : ℕ) (context : ConsentContext) (t : Consents)
    (before : Before env.now t) where
  latest-recorded :
      (P : ConsentRecord → Bool) (document : ConsentDocument) (r : ConsentRecord) (new : Consents)
      → rows (concerns user document) new ≡ r ∷ []
      → r.accepted_at ≡ env.now
      → P r ≡ true
      → Newest time_of P env.now (newest_first time_of (rows (concerns user document) (t ++ new)))
  latest-recorded P document r new found now_ holds_ =
      rw (rows-append (concerns user document) t new, found)
        (newest_first-append time_of P env.now (rows (concerns user document) t) r []
          (All-rows (λ x. time_of x < env.now) (concerns user document) t before)
          ((now_, holds_), tt))

  granted-after :
      (document : ConsentDocument) (granted : Bool)
      → is_granted user document (t ++ consent_row env user context granted document ∷ []) ≡ granted
  unfolding is_granted
  granted-after document granted =
      let row = consent_row env user context granted document in
      let found : rows (concerns user document) (row ∷ []) ≡ row ∷ [] =
        rw (==_self user, document_eq_self document) refl in
      let (z, first_, now_, same) =
        latest-recorded (λ r. bool_eq r.granted granted) document row (row ∷ []) found refl
          (bool_eq_self granted) in
      rw first_ (bool_eq_sound z.granted granted same)

  other-after :
      (row : ConsentRecord) (u : ℕ) (d : ConsentDocument)
      → concerns u d row ≡ false
      → is_granted u d (t ++ row ∷ []) ≡ is_granted u d t
  unfolding is_granted
  other-after row u d other =
      let same : rows (concerns u d) (t ++ row ∷ []) ≡ rows (concerns u d) t =
        rw (rows-append (concerns u d) t (row ∷ []), other) (append-nil (rows (concerns u d) t)) in
      ap (λ xs. holds (λ (r : ConsentRecord). r.granted) (head? (newest_first time_of xs))) same

  -- The consent to marketing, granted or withdrawn: the mandatory documents are refused and nothing
  -- is written; otherwise the answer from then on is the one that was given, and no other user's
  -- answer changes, nor this user's to another document. Every entry so far is from before.
  pub set_consent_lem :
      (document : ConsentDocument) (granted : Bool) (u : ℕ) (d : ConsentDocument)
      → concerns u d (consent_row env user context granted document) ≡ false
      → let (r, t') = set_consent env user document granted context t in
        ((is_mandatory document ≡ true) × (r ≡ err bad_request) × (t' ≡ t))
        ⊎ ((is_mandatory document ≡ false)
            × (r ≡ ok tt)
            × (is_granted user document t' ≡ granted)
            × (is_granted u d t' ≡ is_granted u d t))
  unfolding set_consent
  set_consent_lem document granted u d other =
      let row = consent_row env user context granted document in
      elim (Bool-cases (is_mandatory document)) [
        | inl e ↦ rw e (inl (refl, refl, refl))
        | inr e ↦ rw e (inr (refl, refl, granted-after document granted, other-after row u d other))
      ]

  abbrev IsCurrent : ConsentDocument → ConsentRecord → Type 0
  IsCurrent d r = (time_of r ≡ env.now) × ((r.version == consent_version d) ≡ true)

  accepted-IsCurrent :
      (d : ConsentDocument) (documents : List ConsentDocument)
      → All
          (IsCurrent d)
          (rows (concerns user d) (map (consent_row env user context true) documents))
  accepted-IsCurrent d [] = tt
  accepted-IsCurrent d (x ∷ xs) =
      let rest = accepted-IsCurrent d xs in
      elim (Bool-cases (document_eq x d)) [
        | inl e ↦
            let same : x ≡ d = document_eq_sound x d e in
            rw (==_self user, e) ((refl, rw (same, ==_self (consent_version d)) refl), rest)
        | inr e ↦ rw (==_self user, e) rest
      ]

  accepted-count :
      (d : ConsentDocument) (documents : List ConsentDocument)
      → any (λ x. document_eq x d) documents ≡ true
      → 0 < length (rows (concerns user d) (map (consent_row env user context true) documents))
  accepted-count d [] h = cc
  accepted-count d (x ∷ xs) h = ground (arith, ==_self user, accepted-count d xs)

  latest_is_current :
      (d : ConsentDocument) (new : Consents)
      → All (IsCurrent d) (rows (concerns user d) new)
      → 0 < length (rows (concerns user d) new)
      → is_outdated user (t ++ new) d ≡ false
  unfolding is_outdated
  latest_is_current d new current some_ = elim (List-cases (rows (concerns user d) new)) [
    | inl nil ↦ ground (arith, ap length nil)
    | inr (r, rs, found) ↦
        let all : All (IsCurrent d) (r ∷ rs) = subst (All (IsCurrent d)) found current in
        let (z, first_, now_, same) =
          newest_first-append time_of (λ r. r.version == consent_version d) env.now
            (rows (concerns user d) t) r rs
            (All-rows (λ x. time_of x < env.now) (concerns user d) t before) all in
        rw
          (
            latest-eq-head user (t ++ new) d,
            rows-append (concerns user d) t new,
            found,
            first_,
            same,
          )
          refl
  ]

  rejected-none :
      (d : ConsentDocument) (documents : List ConsentDocument)
      → any (λ x. document_eq x d) documents ≡ false
      → rows (concerns user d) (map (consent_row env user context true) documents) ≡ []
  rejected-none d [] h = refl
  rejected-none d (x ∷ xs) h = ground (arith, ==_self user, rejected-none d xs)

  outdated-after :
      (d : ConsentDocument) (documents : List ConsentDocument)
      → is_outdated user (record_consents env user documents context t) d
        ≡ (is_outdated user t d && not (any (λ x. document_eq x d) documents))
  unfolding is_outdated record_consents
  outdated-after d documents =
      let new = map (consent_row env user context true) documents in
      elim (Bool-cases (any (λ x. document_eq x d) documents)) [
        | inl accepted ↦
            let done =
              latest_is_current d new (accepted-IsCurrent d documents)
                (accepted-count d documents accepted) in
            ground (arith, done)
        | inr kept ↦
            let none_ = rejected-none d documents kept in
            let same : latest_for_user user (t ++ new) d ≡ latest_for_user user t d =
              rw
                (
                  latest-eq-head user (t ++ new) d,
                  latest-eq-head user t d,
                  rows-append (concerns user d) t new,
                  none_,
                  append-nil (rows (concerns user d) t),
                )
                refl in
            ground (arith, same)
      ]

  -- After a user accepts some documents, at a time later than that of every entry so far, the
  -- documents that they are asked for are those they were asked for before, less those that they
  -- accepted: an acceptance of one counts, whatever stood before, and no other is touched.
  pub outdated_documents-record_consents :
      (documents : List ConsentDocument)
      → outdated_documents user (record_consents env user documents context t)
        ≡ rows (λ d. not (any (λ x. document_eq x d) documents)) (outdated_documents user t)
  unfolding outdated_documents
  outdated_documents-record_consents documents =
      rw (outdated-after terms documents, outdated-after privacy documents) (ground arith)
