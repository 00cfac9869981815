-- ===== src/Identity/Retention.antt =====
-- `pruneExpiredDocuments` of src/verification/identity-documents.service.ts.
use fann_api.Prelude.{
  ℕ, ◌+◌, ◌*◌, ◌<◌, ◌≡◌, refl, sym, ap, ◌∙◌, inl, inr, Bool, true, false, not, ◌&&◌, ◌||◌, none,
  some, List, [], ◌∷◌, ◌==◌, ltb, arith, Env, Text, is_some, holds, any, any-zero, count_mono,
  first, rows, update, count, All, All_mono, All-self, day_ms, Bool-cases, ==_self, UniqueBy,
  if◌then◌else◌,
}
use fann_api.Identity.{IdDocument, User, Db, status_eq, approved, rejected}

-- RETENTION_DAYS_APPROVED and RETENTION_DAYS_REJECTED
abbrev pub retention_days_approved : ℕ
retention_days_approved = 90

abbrev pub retention_days_rejected : ℕ
retention_days_rejected = 30

abbrev was_decided : ℕ → ℕ → IdDocument → Bool
was_decided now days d = holds (λ t. ltb (t + days * day_ms) now) d.reviewed_at

abbrev pub is_closed : List User → ℕ → Bool
is_closed users user = elim (first (λ (u : User). u.id == user) users) [
  | none ↦ false
  | some u ↦ is_some u.deleted_at
]

abbrev pub has_owner : List User → ℕ → Bool
has_owner users user = is_some (first (λ (u : User). u.id == user) users)

-- the condition of the candidates, with the inner join
abbrev pub is_due : ℕ → List User → IdDocument → Bool
is_due now users d =
    has_owner users d.user_id
    && is_some d.s3_key
    && (is_closed users d.user_id
        || (status_eq d.status approved && was_decided now retention_days_approved d)
        || (status_eq d.status rejected && was_decided now retention_days_rejected d))

abbrev pub purge : Env → IdDocument → IdDocument
purge env d = record d { s3_key = none; purged_at = some (env.now) }

-- `deletes`: whether the object storage deletes the file under a key
abbrev pub is_deleted : (Text → Bool) → IdDocument → Bool
is_deleted deletes d = holds deletes d.s3_key

abbrev pub purge_id : Env → ℕ → List IdDocument → List IdDocument
purge_id env id t = update (λ (o : IdDocument). o.id == id) (purge env) t

-- the loop: a file that is not deleted leaves its row for the next run
unfoldable pub prune_all : (Text → Bool) → Env → List IdDocument → List IdDocument → List IdDocument
prune_all deletes env [] t = t
prune_all deletes env (d ∷ ds) t =
    prune_all deletes env ds (if is_deleted deletes d then purge_id env d.id t else t)

-- the tables after a run, and how many files were purged and how many failed
unfoldable pub prune_expired_documents : (Text → Bool) → Env → Db → Db × (ℕ × ℕ)
unfolding prune_all
prune_expired_documents deletes env db =
    let candidates = rows (is_due env.now db.users) db.documents in
    (
      record db { documents = prune_all deletes env candidates db.documents },
      (count (is_deleted deletes) candidates, count (λ d. not (is_deleted deletes d)) candidates),
    )

-- the documents that the loop purges
abbrev hits : (Text → Bool) → List IdDocument → IdDocument → Bool
hits deletes cs d = any (λ (c : IdDocument). (c.id == d.id) && is_deleted deletes c) cs

update-twice :
    (env : Env) (p q : IdDocument → Bool) (xs : List IdDocument)
    → ((d : IdDocument) → q (purge env d) ≡ q d)
    → update q (purge env) (update p (purge env) xs) ≡ update (λ d. p d || q d) (purge env) xs
update-twice env p q [] same = refl
update-twice env p q (x ∷ xs) same = elim (Bool-cases (p x)) [
  | inl px ↦ elim (Bool-cases (q x)) [
    | inl qx ↦ rw (px, same x, qx, update-twice env p q xs same) refl
    | inr qx ↦ rw (px, same x, qx, update-twice env p q xs same) refl
  ]
  | inr px ↦ rw (px, update-twice env p q xs same) refl
]

==_sym : (a b : ℕ) → (a == b) ≡ (b == a)
==_sym a b = ground arith

update-false : (env : Env) (xs : List IdDocument) → update (λ d. false) (purge env) xs ≡ xs
update-false env [] = refl
update-false env (x ∷ xs) = ap (λ t. x ∷ t) (update-false env xs)

prune_all-eq-update :
    (deletes : Text → Bool) (env : Env) (cs xs : List IdDocument)
    → prune_all deletes env cs xs ≡ update (hits deletes cs) (purge env) xs
unfolding prune_all
prune_all-eq-update deletes env [] xs = sym (update-false env xs)
prune_all-eq-update deletes env (c ∷ cs) xs = elim (Bool-cases (is_deleted deletes c)) [
  | inl e ↦
      let once = prune_all-eq-update deletes env cs (purge_id env c.id xs) in
      let twice =
        update-twice env (λ (d : IdDocument). d.id == c.id) (hits deletes cs) xs (λ d. refl) in
      let same : (d : IdDocument)
          → ((d.id == c.id) || hits deletes cs d) ≡ hits deletes (c ∷ cs) d =
        λ d. rw (e, ==_sym d.id c.id) (ground arith) in
      rw e (once ∙ twice ∙ ap (λ p. update p (purge env) xs) (λ i d. same d i))
  | inr e ↦
      let once = prune_all-eq-update deletes env cs xs in
      let same : (d : IdDocument) → hits deletes cs d ≡ hits deletes (c ∷ cs) d =
        λ d. rw e (ground arith) in
      rw e (once ∙ ap (λ p. update p (purge env) xs) (λ i d. same d i))
]

update-cong :
    (p q : IdDocument → Bool) (f : IdDocument → IdDocument) (xs : List IdDocument)
    → All (λ d. p d ≡ q d) xs
    → update p f xs ≡ update q f xs
update-cong p q f [] h = refl
update-cong p q f (x ∷ xs) h = rw (h.0, update-cong p q f xs h.1) refl

abbrev same_id : ℕ → IdDocument → Bool
same_id i d = d.id == i

hits-rows :
    (deletes : Text → Bool) (due : IdDocument → Bool) (xs : List IdDocument) (d : IdDocument)
    → hits deletes (rows due xs) d
      ≡ any (λ (c : IdDocument). (c.id == d.id) && (due c && is_deleted deletes c)) xs
hits-rows deletes due [] d = refl
hits-rows deletes due (x ∷ xs) d = ground (arith, hits-rows deletes due xs d)

count-rows :
    (p q : IdDocument → Bool) (xs : List IdDocument)
    → count q (rows p xs) ≡ count (λ d. p d && q d) xs
count-rows p q [] = refl
count-rows p q (x ∷ xs) = ground (arith, count-rows p q xs)

count-or-not :
    (p q : IdDocument → Bool) (xs : List IdDocument)
    → count q (rows p xs) + count (λ d. not (q d)) (rows p xs) ≡ count p xs
count-or-not p q [] = omega arith
count-or-not p q (x ∷ xs) = ground (arith, count-or-not p q xs)

All-both :
    (P Q R : IdDocument → Type 0) (xs : List IdDocument)
    → ((d : IdDocument) → P d → Q d → R d)
    → All P xs
    → All Q xs
    → All R xs
All-both P Q R [] k h g = tt
All-both P Q R (x ∷ xs) k h g = (k x h.0 g.0, All-both P Q R xs k h.1 g.1)

-- Of the rows with a document's id there is only the document itself.
unique-any :
    (g : IdDocument → Bool) (xs : List IdDocument)
    → UniqueBy same_id xs
    → All (λ (d : IdDocument). any (λ (c : IdDocument). (c.id == d.id) && g c) xs ≡ g d) xs
unique-any g [] u = tt
unique-any g (x ∷ xs) u =
    let none_ : count (same_id x.id) xs ≡ 0 = ground (arith, u x.id, ==_self x.id) in
    let rest : any (λ (c : IdDocument). (c.id == x.id) && g c) xs ≡ false =
      any-zero (λ (c : IdDocument). (c.id == x.id) && g c) xs
        (ground (
          arith,
          count_mono (λ (c : IdDocument). (c.id == x.id) && g c) (same_id x.id) xs
              (λ c e. ground arith),
        )) in
    let fewer : UniqueBy same_id xs = λ i. ground (arith, u i) in
    (
      ground (arith, rest, ==_self x.id),
      All-both (λ d. (same_id d.id d ≡ true) → 0 < count (same_id d.id) xs)
          (λ (d : IdDocument). any (λ (c : IdDocument). (c.id == d.id) && g c) xs ≡ g d)
          (λ (d : IdDocument). any (λ (c : IdDocument). (c.id == d.id) && g c) (x ∷ xs) ≡ g d) xs
          (λ d here same.
            let some_ : 0 < count (same_id d.id) xs = here (==_self d.id) in
            let other : (x.id == d.id) ≡ false = ground (arith, u d.id) in rw other same)
          (All-self (λ (s : IdDocument). same_id s.id) xs) (unique-any g xs fewer),
    )

-- A run is one conditional write: of the documents that are due, those whose file the storage deletes
-- lose the key, and nothing else changes; a failed deletion keeps the key for the next run. As many
-- are counted as purged. No two documents have the same id.
pub prune_expired_documents_lem :
    (deletes : Text → Bool) (env : Env) (db : Db)
    → UniqueBy same_id db.documents
    → let due = λ (d : IdDocument). is_due env.now db.users d && is_deleted deletes d in
      let (db', (purged, failed)) = prune_expired_documents deletes env db in
      (db' ≡ record db { documents = update due (purge env) db.documents })
      × (purged ≡ count due db.documents)
      × (purged + failed ≡ count (is_due env.now db.users) db.documents)
unfolding prune_expired_documents
prune_expired_documents_lem deletes env db u =
    let due = is_due env.now db.users in
    let candidates = rows due db.documents in
    let loop = prune_all-eq-update deletes env candidates db.documents in
    let each =
      update-cong (hits deletes candidates) (λ (d : IdDocument). due d && is_deleted deletes d)
        (purge env) db.documents
        (All_mono
          (λ (d : IdDocument).
            any (λ (c : IdDocument). (c.id == d.id) && (due c && is_deleted deletes c)) db.documents
            ≡ (due d && is_deleted deletes d))
          (λ (d : IdDocument). hits deletes candidates d ≡ (due d && is_deleted deletes d))
          db.documents (λ d h. hits-rows deletes due db.documents d ∙ h)
          (unique-any (λ (c : IdDocument). due c && is_deleted deletes c) db.documents u)) in
    (
      ap (λ t. record db { documents = t }) (loop ∙ each),
      count-rows due (is_deleted deletes) db.documents,
      count-or-not due (is_deleted deletes) db.documents,
    )
