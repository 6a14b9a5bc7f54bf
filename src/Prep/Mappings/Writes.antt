-- ===== src/Prep/Mappings/Writes.antt =====
-- agents/nodes/doc_intake.py and agents/nodes/profile_builder.py: the verdict on the profile after
-- `apply_mapping` and `build_profile`.
use interview_coach.Base.{
  ℕ, ◌≡◌, sym, ap, subst, not, Option, none, some, List, ◌++◌, map, keep, ◌==◌,
}
use interview_coach.Text.{Text}
use interview_coach.Profile.{Profile}
use interview_coach.Db.Models.{Document, Extracted, MappingRow, ProfileRow, Db}
use interview_coach.Db.Packet.{upsert_profile}
use interview_coach.Db.Documents.{replace_document_mappings}
use interview_coach.Mapping.{Applied, applied, value_error, type_error}
use interview_coach.Mapping.RoundTrip.{stamp}
use interview_coach.Prep.Cache.{hit, cached}
use interview_coach.Prep.Mappings.{
  ProfileJson, changed, failed, apply_mapping, map_onto, stored_if, store_mapping, profile_missing,
  no_documents, cv_window, build_profile, built, profile_stored,
}
use interview_coach.Prep.Mappings.Key.{changed_injective, profile_verdict, upsert-hit}

module _ {V : Type 0} where
  module _ (json : ProfileJson V) where
    -- What an `apply_mapping` that ends well has written.
    module _ (db db' : Db V) (document_id user_id : ℕ) (rows : List MappingRow)
        (extracted : Option Extracted) (title : Text) (n : ℕ) where
      abbrev Written : Type 0
      Written =
          (q : Profile) × (store_mapping json db document_id user_id (map (stamp extracted) rows) q
            ≡ changed db' n)

      stored_if-Written :
          (r : Applied Profile)
          → stored_if json db document_id user_id (map (stamp extracted) rows) title r
            ≡ changed db' n
          → Written
      stored_if-Written (applied q) h = (_, h)
      stored_if-Written value_error h = cc
      stored_if-Written type_error h = cc

      map_onto-Written :
          (o : Option Profile)
          → map_onto json db document_id user_id rows extracted title o ≡ changed db' n
          → Written
      map_onto-Written none h = cc
      map_onto-Written (some p) h = stored_if-Written _ h

      mapped_if-Written :
          (o : Option (ProfileRow V))
          → (elim o [
            | none ↦ failed profile_missing
            | some row ↦
                map_onto json db document_id user_id rows extracted title
                  (json.model_validate row.profile_json)
          ])
            ≡ changed db' n
          → Written
      mapped_if-Written none h = cc
      mapped_if-Written (some row) h = map_onto-Written _ h

      pub apply_mapping-Written :
          apply_mapping json db document_id user_id rows extracted title ≡ changed db' n → Written
      unfolding apply_mapping
      apply_mapping-Written h = mapped_if-Written _ h

      -- Right after a mapping was applied the profile that is stored is the one that the next run
      -- of the preparation reuses.
      pub apply_mapping-hit :
          apply_mapping json db document_id user_id rows extracted title ≡ changed db' n
          → profile_verdict db' user_id ≡ hit cached
      unfolding store_mapping
      apply_mapping-hit h =
          let (q, e) = apply_mapping-Written h in
          let db1 =
            (replace_document_mappings db document_id user_id (map (stamp extracted) rows)).0 in
          subst (λ u. profile_verdict u user_id ≡ hit cached) (changed_injective e)
            (upsert-hit db1 user_id (json.model_dump q))

      -- Its tables: the documents as they were, the document's mappings replaced.
      pub apply_mapping-tables :
          apply_mapping json db document_id user_id rows extracted title ≡ changed db' n
          → (db'.documents ≡ db.documents)
            × (db'.mappings
                ≡ keep (λ m. not (m.document_id == document_id)) db.mappings
                  ++ map
                      (λ r. record { document_id = document_id; user_id = user_id; row = r })
                      (map (stamp extracted) rows))
      unfolding store_mapping replace_document_mappings upsert_profile
      apply_mapping-tables h =
          let (q, e) = apply_mapping-Written h in
          (
            ap (λ u. u.documents) (sym (changed_injective e)),
            ap (λ u. u.mappings) (sym (changed_injective e)),
          )

    profile_stored-hit :
        (db db' : Db V) (user_id : ℕ) (r : Applied Profile) (p : Profile)
        → profile_stored json db user_id r ≡ changed db' p
        → profile_verdict db' user_id ≡ hit cached
    profile_stored-hit db db' user_id (applied q) p h =
        subst (λ u. profile_verdict u user_id ≡ hit cached) (changed_injective h)
          (upsert-hit db user_id _)
    profile_stored-hit db db' user_id value_error p h = cc
    profile_stored-hit db db' user_id type_error p h = cc

    built_if-hit :
        (extract : Text → Option Profile) (db db' : Db V) (user_id : ℕ) (o : Option Document)
        (p : Profile)
        → (elim o [
          | none ↦ failed no_documents
          | some d ↦ built json db user_id (extract (cv_window d.raw_text))
        ])
          ≡ changed db' p
        → profile_verdict db' user_id ≡ hit cached
    built_if-hit extract db db' user_id none p h = cc
    built_if-hit extract db db' user_id (some d) p h = built-hit (extract (cv_window d.raw_text)) h
      where
        built-hit :
            (o : Option Profile)
            → built json db user_id o ≡ changed db' p
            → profile_verdict db' user_id ≡ hit cached
        built-hit none e = cc
        built-hit (some q) e = profile_stored-hit db db' user_id _ p e

    -- Right after a profile was built from the CV it is the one that the next run of the preparation
    -- reuses.
    pub build_profile-hit :
        (extract : Text → Option Profile) (db db' : Db V) (user_id : ℕ) (p : Profile)
        → build_profile json extract db user_id ≡ changed db' p
        → profile_verdict db' user_id ≡ hit cached
    unfolding build_profile
    build_profile-hit extract db db' user_id p h = built_if-hit extract db db' user_id _ p h
