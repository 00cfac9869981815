-- ===== src/Identity/Review.antt =====
-- The flag of a profile after a review.
use fann_api.Prelude.{
  ℕ, ◌+◌, ◌≤◌, ◌≡◌, refl, sym, ap, ◌∙◌, inl, inr, ◌⊎◌, Bool, true, false, not, ◌&&◌, Option, some,
  List, [], ◌∷◌, ◌==◌, arith, Env, Text, is_ok, is_missing, any, any-zero, count-first_and, rows,
  first, update, count, All, All_mono, Bool-cases, ==_self,
}
use fann_api.Identity.{
  IdDocument, IdDocumentKind, id_document, selfie, trade_licence, ArtistProfile, Db, is_slot,
  is_approved, is_venue_of, required_kinds, every, has_complete_verification, kind_eq, status_eq,
  pending, required_kinds_for,
}
use fann_api.Identity.Decisions.{
  Decision, is_approval, decided, set_verified, decide_document, has_required_approved,
  review_document,
}

abbrev profiles_of : ℕ → Db → List ArtistProfile
profiles_of user db = rows (λ (p : ArtistProfile). p.user_id == user) db.profiles

-- the flag says what the documents say
abbrev pub Agrees : ℕ → Db → Type 0
Agrees user db =
    All (λ (p : ArtistProfile). p.is_verified ≡ has_complete_verification user db)
      (profiles_of user db)

is_venue-set_verified :
    (user owner : ℕ) (v : Bool) (ps : List ArtistProfile)
    → any
        (is_venue_of user)
        (update (λ (p : ArtistProfile). p.user_id == owner) (set_verified v) ps)
      ≡ any (is_venue_of user) ps
is_venue-set_verified user owner v [] = refl
is_venue-set_verified user owner v (p ∷ ps) = ground (arith, is_venue-set_verified user owner v ps)

set_verified-All :
    (user : ℕ) (v : Bool) (ps : List ArtistProfile)
    → All
        (λ (p : ArtistProfile). p.is_verified ≡ v)
        (rows
          (λ (p : ArtistProfile). p.user_id == user)
          (update (λ (p : ArtistProfile). p.user_id == user) (set_verified v) ps))
set_verified-All user v [] = tt
set_verified-All user v (p ∷ ps) = elim (Bool-cases (p.user_id == user)) [
  | inl e ↦ rw (e, e) (refl, set_verified-All user v ps)
  | inr e ↦ rw (e, e) (set_verified-All user v ps)
]

count-and_split :
    {A : Type 0} (p q : A → Bool) (xs : List A)
    → count p xs ≡ count (λ x. p x && not (q x)) xs + count (λ x. q x && p x) xs
count-and_split p q [] = omega arith
count-and_split p q (x ∷ xs) = ground (arith, count-and_split p q xs)

-- an update whose rows are no longer counted, of a condition that is within another one
count-update_within :
    {A : Type 0} (q r p : A → Bool) (f : A → A) (xs : List A)
    → ((x : A) → p x ≡ true → q (f x) ≡ false)
    → ((x : A) → q x ≡ true → r x ≡ true)
    → count q (update p f xs) ≤ count (λ x. r x && not (p x)) xs
count-update_within q r p f [] k g = omega arith
count-update_within q r p f (x ∷ xs) k g =
    ground (arith, k x, g x, count-update_within q r p f xs k g)

every-false :
    (f : IdDocumentKind → Bool) (venue : Bool) (kind : IdDocumentKind)
    → any (kind_eq kind) (required_kinds venue) ≡ true
    → f kind ≡ false
    → every f (required_kinds venue) ≡ false
every-false f true id_document h e = cc
every-false f true selfie h e = cc
every-false f true trade_licence h e = rw e refl
every-false f false id_document h e = rw e refl
every-false f false selfie h e = ground arith
every-false f false trade_licence h e = cc

module _ (env : Env) (admin_id : ℕ) (d : Decision) (reason : Option Text) (doc : IdDocument)
    (db : Db) where
  abbrev after : Db
  after = decide_document env admin_id d reason doc db

  -- the documents after the decision, read by either of the two functions
  complete-after :
      has_complete_verification doc.user_id after
      ≡ has_required_approved doc.user_id (record db {
        documents =
            update
              (λ (o : IdDocument). o.id == doc.id)
              (decided env admin_id d reason)
              db.documents;
      })
  unfolding decide_document has_required_approved has_complete_verification
  complete-after =
      ap (λ b. every (λ k. any (is_approved doc.user_id k) after.documents) (required_kinds b))
        (is_venue-set_verified doc.user_id doc.user_id _ db.profiles)

  -- a rejected document is not approved, and is the only one of its user and kind
  rejected-slot :
      is_approval d ≡ false
      → first (λ (o : IdDocument). o.id == doc.id) db.documents ≡ some doc
      → count (is_slot doc.user_id doc.kind) db.documents ≤ 1
      → any
          (is_approved doc.user_id doc.kind)
          (update (λ (o : IdDocument). o.id == doc.id) (decided env admin_id d reason) db.documents)
        ≡ false
  rejected-slot no_ found one =
      let p = λ (o : IdDocument). o.id == doc.id in
      let slot = is_slot doc.user_id doc.kind in
      let split = count-and_split slot p db.documents in
      let mine =
        count-first_and p slot db.documents doc found (ground (arith, ==_self doc.user_id)) in
      let fewer =
        count-update_within (is_approved doc.user_id doc.kind) slot p
          (decided env admin_id d reason) db.documents (λ o e. ground arith)
          (λ o e. ground arith) in
      any-zero (is_approved doc.user_id doc.kind) _ (omega (arith, split, mine, fewer, one))

  -- what the decision leaves is what the review leaves
  review-Agrees :
      first (λ (o : IdDocument). o.id == doc.id) db.documents ≡ some doc
      → is_ok (review_document env admin_id doc.id d reason db).0 ≡ true
      → Agrees doc.user_id after
      → Agrees doc.user_id (review_document env admin_id doc.id d reason db).1
  unfolding review_document has_complete_verification
  review-Agrees found done_ h = elim (Bool-cases (status_eq doc.status pending)) [
    | inr np ↦ ground arith
    | inl p ↦ elim (Bool-cases (not (is_approval d) && is_missing reason)) [
      | inl r ↦ ground arith
      | inr r ↦ rw (found, p, r) h
    ]
  ]

  abbrev marked : Db
  marked = record db {
    documents =
        update (λ (o : IdDocument). o.id == doc.id) (decided env admin_id d reason) db.documents;
  }

  abbrev verified : Bool
  verified = is_approval d && has_required_approved doc.user_id marked

  verified_lem :
      (is_approval d ≡ true) ⊎ (any (kind_eq doc.kind) (required_kinds_for doc.user_id db) ≡ true)
      → first (λ (o : IdDocument). o.id == doc.id) db.documents ≡ some doc
      → count (is_slot doc.user_id doc.kind) db.documents ≤ 1
      → verified ≡ has_complete_verification doc.user_id after
  unfolding has_required_approved
  verified_lem kinds found one = elim (Bool-cases (is_approval d)) [
    | inl yes_ ↦ rw (complete-after, yes_) refl
    | inr no_ ↦
        let needed : any (kind_eq doc.kind) (required_kinds_for doc.user_id db) ≡ true =
          elim kinds [ inl yes_ ↦ ground arith | inr k ↦ k ] in
        let gone =
          every-false (λ k. any (is_approved doc.user_id k) marked.documents)
            (any (is_venue_of doc.user_id) db.profiles) doc.kind needed
            (rejected-slot no_ found one) in
        rw (complete-after, no_) (sym gone)
  ]

  decided-Agrees :
      (is_approval d ≡ true) ⊎ (any (kind_eq doc.kind) (required_kinds_for doc.user_id db) ≡ true)
      → first (λ (o : IdDocument). o.id == doc.id) db.documents ≡ some doc
      → count (is_slot doc.user_id doc.kind) db.documents ≤ 1
      → Agrees doc.user_id after
  unfolding decide_document
  decided-Agrees kinds found one =
      All_mono (λ (p : ArtistProfile). p.is_verified ≡ verified)
        (λ (p : ArtistProfile). p.is_verified ≡ has_complete_verification doc.user_id after)
        (profiles_of doc.user_id after) (λ p h. h ∙ verified_lem kinds found one)
        (set_verified-All doc.user_id verified db.profiles)

  -- After a review the flag of the user's profile says what the documents say: that every kind which
  -- their profile needs is approved. Of a rejection it is so where the rejected kind is one of these.
  -- Each user has one document of a kind.
  pub review_document-Agrees :
      first (λ (o : IdDocument). o.id == doc.id) db.documents ≡ some doc
      → is_ok (review_document env admin_id doc.id d reason db).0 ≡ true
      → (is_approval d ≡ true) ⊎ (any (kind_eq doc.kind) (required_kinds_for doc.user_id db) ≡ true)
      → count (is_slot doc.user_id doc.kind) db.documents ≤ 1
      → Agrees doc.user_id (review_document env admin_id doc.id d reason db).1
  review_document-Agrees found done_ kinds one =
      review-Agrees found done_ (decided-Agrees kinds found one)
