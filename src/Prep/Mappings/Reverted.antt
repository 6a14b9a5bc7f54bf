-- ===== src/Prep/Mappings/Reverted.antt =====
-- agents/nodes/doc_intake.py, `revert_mapping`, and db/repos.py, `delete_document`: the document ids
-- that the profile is stored with, when a document is deleted.
use mathlib.Core.List.{reverse, reverse_aux}
use interview_coach.Base.{
  ℕ, ◌≡◌, ◌≢◌, refl, sym, ap, subst, ◌∙◌, Bool, true, false, not, ◌&&◌, ◌||◌, Option, none, some,
  List, [], ◌∷◌, ◌++◌, map, keep, any, ◌==◌, if◌then◌else◌, arith,
}
use interview_coach.Profile.{Profile}
use interview_coach.Db.Models.{Document, MappingRow, DocumentMapping, ProfileRow, Db}
use interview_coach.Db.Packet.{get_profile, upsert_profile}
use interview_coach.Db.Documents.{
  is_cv, is_github_repo, document_key, delete_documents, delete_document, list_document_mappings,
}
use interview_coach.Prep.Cache.{hit, cached, normalize}
use interview_coach.Prep.Cache.Sets.{has, has-normalize, SameSet}
use interview_coach.Prep.Readiness.{
  list_documents_for_user, list_document_mapping_doc_ids_for_user, current_profile_doc_ids,
}
use interview_coach.Prep.Mappings.{ProfileJson, changed, revert_mapping, reverted}
use interview_coach.Prep.Mappings.Key.{
  Stored, changed_injective, profile_verdict, profile_verdict-hit, upsert_profile-Stored,
}

-- Sets of ids
has-append : (x : ℕ) (xs ys : List ℕ) → has x (xs ++ ys) ≡ has x xs || has x ys
unfolding has
has-append x [] ys = refl
has-append x (y ∷ xs) ys = ground (arith, has-append x xs ys)

has-three : (x : ℕ) (xs ys zs : List ℕ) → has x (xs ++ ys ++ zs) ≡ has x xs || has x ys || has x zs
has-three x xs ys zs = ground (
  arith,
  has-append x (xs ++ ys) zs,
  has-append x xs ys,
  has-append x xs (ys ++ zs),
  has-append x ys zs,
)

has-without :
    (x a : ℕ) (xs : List ℕ) → has x (keep (λ y. not (y == a)) xs) ≡ not (x == a) && has x xs
unfolding has
has-without x a [] = ground arith
has-without x a (y ∷ xs) = ground (arith, has-without x a xs)

-- The ids of the documents that pass a test, found by the element
abbrev has_document : ℕ → (Document → Bool) → List Document → Bool
has_document x p [] = false
has_document x p (d ∷ ds) =
    let rest = has_document x p ds in if p d && x == d.id then true else rest

has-keep :
    (x : ℕ) (p : Document → Bool) (ds : List Document)
    → has x (map (λ d. d.id) (keep p ds)) ≡ has_document x p ds
unfolding has
has-keep x p [] = refl
has-keep x p (d ∷ ds) = ground (arith, has-keep x p ds)

has_document-reverse_aux :
    (x : ℕ) (p : Document → Bool) (ds es : List Document)
    → has_document x p (reverse_aux ds es) ≡ has_document x p ds || has_document x p es
has_document-reverse_aux x p [] es = refl
has_document-reverse_aux x p (d ∷ ds) es = ground (arith, has_document-reverse_aux x p ds (d ∷ es))

has_document-keep :
    (x : ℕ) (p q : Document → Bool) (ds : List Document)
    → has_document x p (keep q ds) ≡ has_document x (λ d. q d && p d) ds
has_document-keep x p q [] = refl
has_document-keep x p q (d ∷ ds) = ground (arith, has_document-keep x p q ds)

-- The ids of a user's documents of one kind
abbrev mine : ℕ → (Document → Bool) → Document → Bool
mine user_id p d = d.user_id == user_id && p d

has_document-mine :
    (x user_id : ℕ) (p : Document → Bool) (ds : List Document)
    → has x (map (λ d. d.id) (keep p (reverse (keep (λ d. d.user_id == user_id) ds))))
      ≡ has_document x (mine user_id p) ds
has_document-mine x user_id p ds =
    has-keep x p (reverse (keep (λ d. d.user_id == user_id) ds))
    ∙ has_document-reverse_aux x p (keep (λ d. d.user_id == user_id) ds) []
    ∙ ground (arith, has_document-keep x p (λ d. d.user_id == user_id) ds)

has_document-deleted :
    (x document_id user_id : ℕ) (p : Document → Bool) (ds : List Document)
    → has_document x (mine user_id p) (keep (λ d. not (document_key document_id user_id d)) ds)
      ≡ not (x == document_id) && has_document x (mine user_id p) ds
has_document-deleted x document_id user_id p [] = ground arith
has_document-deleted x document_id user_id p (d ∷ ds) =
    ground (arith, has_document-deleted x document_id user_id p ds)

abbrev has_mapping : ℕ → ℕ → List DocumentMapping → Bool
has_mapping x user_id [] = false
has_mapping x user_id (m ∷ ms) =
    let rest = has_mapping x user_id ms in
    if m.user_id == user_id && x == m.document_id then true else rest

has-mappings :
    (x user_id : ℕ) (ms : List DocumentMapping)
    → has x (map (λ m. m.document_id) (keep (λ m. m.user_id == user_id) ms))
      ≡ has_mapping x user_id ms
unfolding has
has-mappings x user_id [] = refl
has-mappings x user_id (m ∷ ms) = ground (arith, has-mappings x user_id ms)

any_key :
    (a document_id user_id : ℕ) (ds : List Document)
    → any (λ d. d.id == a && document_key document_id user_id d) ds
      ≡ a == document_id && any (document_key document_id user_id) ds
any_key a document_id user_id [] = ground arith
any_key a document_id user_id (d ∷ ds) = ground (arith, any_key a document_id user_id ds)

module _ (document_id user_id : ℕ) (ds : List Document)
    (owned : any (document_key document_id user_id) ds ≡ true) where
  has_mapping-deleted :
      (x : ℕ) (ms : List DocumentMapping)
      → has_mapping x user_id (
          keep
            (λ m. not (any (λ d. d.id == m.document_id && document_key document_id user_id d) ds))
            ms)
        ≡ not (x == document_id) && has_mapping x user_id ms
  has_mapping-deleted x [] = ground arith
  has_mapping-deleted x (m ∷ ms) =
      ground (arith, owned, any_key m.document_id document_id user_id ds, has_mapping-deleted x ms)

-- The ids as a set
abbrev key_has : ℕ → ℕ → List Document → List DocumentMapping → Bool
key_has x user_id ds ms =
    has_document x (mine user_id (λ d. is_cv d.kind)) ds
    || has_document x (mine user_id (λ d. is_github_repo d.kind)) ds
    || has_mapping x user_id ms

module _ {V : Type 0} where
  has-current :
      (x : ℕ) (db : Db V) (user_id : ℕ)
      → has x (current_profile_doc_ids db user_id) ≡ key_has x user_id db.documents db.mappings
  unfolding current_profile_doc_ids list_documents_for_user list_document_mapping_doc_ids_for_user
  has-current x db user_id =
      let docs = reverse (keep (λ d. d.user_id == user_id) db.documents) in
      let cvs = map (λ d. d.id) (keep (λ d. is_cv d.kind) docs) in
      let repos = map (λ d. d.id) (keep (λ d. is_github_repo d.kind) docs) in
      let ids = map (λ m. m.document_id) (keep (λ m. m.user_id == user_id) db.mappings) in
      has-normalize x (cvs ++ repos ++ normalize ids) ∙ has-three x cvs repos (normalize ids) ∙ λ i.
      has_document-mine x user_id (λ d. is_cv d.kind) db.documents i
      || has_document-mine x user_id (λ d. is_github_repo d.kind) db.documents i
      || (has-normalize x ids ∙ has-mappings x user_id db.mappings) i

  module _ (db : Db V) (document_id user_id : ℕ) (v : V)
      (owned : any (document_key document_id user_id) db.documents ≡ true) where
    -- The database after the two steps
    abbrev after_delete : Db V
    after_delete =
        (delete_document
          (upsert_profile db user_id v
            (keep (λ x. not (x == document_id)) (current_profile_doc_ids db user_id)))
          document_id user_id).0

    ids_after :
        SameSet
          (keep (λ x. not (x == document_id)) (current_profile_doc_ids db user_id))
          (current_profile_doc_ids after_delete user_id)
    unfolding delete_document delete_documents upsert_profile
    ids_after x =
        has-without x document_id (current_profile_doc_ids db user_id)
        ∙ ap (λ b. not (x == document_id) && b) (has-current x db user_id)
        ∙ sym (
            has-current x after_delete user_id
            ∙ ground (
              arith,
              has_document-deleted x document_id user_id (λ d. is_cv d.kind) db.documents,
              has_document-deleted x document_id user_id (λ d. is_github_repo d.kind) db.documents,
              has_mapping-deleted document_id user_id db.documents owned x db.mappings,
            ))

    stored_after :
        Stored after_delete user_id v
          (keep (λ x. not (x == document_id)) (current_profile_doc_ids db user_id))
    unfolding delete_document delete_documents get_profile
    stored_after =
        let st = upsert_profile-Stored db user_id v _ in
        record { row = st.row; here = st.here; json = st.json; ids_stored = st.ids_stored }

    after_delete-hit : profile_verdict after_delete user_id ≡ hit cached
    after_delete-hit = profile_verdict-hit after_delete user_id v _ stored_after ids_after

  module _ (json : ProfileJson V) (db db' : Db V) (document_id user_id : ℕ)
      (owned : any (document_key document_id user_id) db.documents ≡ true) where
    reverted-hit :
        (rows : List MappingRow) (o : Option Profile)
        → reverted json db document_id user_id rows o ≡ changed db' tt
        → profile_verdict (delete_document db' document_id user_id).0 user_id ≡ hit cached
    reverted-hit rows none h = cc
    reverted-hit rows (some p) h =
        subst (λ u. profile_verdict (delete_document u document_id user_id).0 user_id ≡ hit cached)
          (changed_injective h) (after_delete-hit db document_id user_id _ owned)

    reverted_if-hit :
        (ms : List DocumentMapping) (o : Option (ProfileRow V)) (row : ProfileRow V)
        → ms ≢ []
        → o ≡ some row
        → (elim ms [
          | [] ↦ changed db tt
          | m ∷ ns ↦ elim o [
            | none ↦ changed db tt
            | some r ↦
                reverted json db document_id user_id
                  (map (λ n. n.row) (m ∷ ns))
                  (json.model_validate r.profile_json)
          ]
        ])
          ≡ changed db' tt
        → profile_verdict (delete_document db' document_id user_id).0 user_id ≡ hit cached
    reverted_if-hit [] o row n e h = absurd (n refl)
    reverted_if-hit (m ∷ ms) none row n e h = cc
    reverted_if-hit (m ∷ ms) (some r) row n e h = reverted-hit _ _ h

    -- If a document of the user has mapping rows, and the user has a profile, then, after
    -- `revert_mapping` has ended without an exception and the document is deleted with its rows, the
    -- profile that is stored is the one that the next run of the preparation reuses.
    pub revert_mapping-hit :
        (row : ProfileRow V)
        → list_document_mappings db document_id ≢ []
        → get_profile db user_id ≡ some row
        → revert_mapping json db document_id user_id ≡ changed db' tt
        → profile_verdict (delete_document db' document_id user_id).0 user_id ≡ hit cached
    unfolding revert_mapping
    revert_mapping-hit row n e h =
        reverted_if-hit (list_document_mappings db document_id) (get_profile db user_id) row n e h
