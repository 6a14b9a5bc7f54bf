-- ===== src/Prep/Mappings.antt =====
-- agents/nodes/doc_intake.py, agents/nodes/profile_builder.py: the profile in the database, built
-- from the CV, changed by a confirmed mapping, and changed back.
pub mod Key
pub mod Writes
pub mod Reverted
pub mod Errors
use interview_coach.Base.{
  ℕ, ltb, Bool, true, false, not, ◌&&◌, Option, none, some, List, [], ◌∷◌, ◌++◌, map, keep, find,
  take, length, ◌==◌, if◌then◌else◌,
}
use interview_coach.Text.{Text, codes}
use interview_coach.Profile.{
  ProjectItem, Profile, ProjectSource, from_project_doc, from_github, from_manual,
}
use interview_coach.Db.Models.{Document, Extracted, MappingRow, DocumentMapping, Db}
use interview_coach.Db.Packet.{get_profile, upsert_profile}
use interview_coach.Db.Documents.{
  is_cv, list_document_mappings, list_document_mappings_for_user, replace_document_mappings,
}
use interview_coach.Mapping.{
  Applied, applied, value_error, type_error, blank, set_projects, mutate_profile_apply,
}
use interview_coach.Mapping.Revert.{mutate_profile_revert}
use interview_coach.Mapping.Reapply.{reapply_existing_mappings}
use interview_coach.Mapping.RoundTrip.{stamp}
use interview_coach.Prep.Readiness.{list_documents_for_user, current_profile_doc_ids}

-- pydantic's conversions of the profile: `Profile.model_validate` and `model_dump`.
pub record ProfileJson (V : Type 0) : Type 0 where
  pub model_validate : V → Option Profile
  pub model_dump : Profile → V

-- The exceptions; pydantic's `ValidationError` is a `ValueError`.
pub data MapError : Type 0 where
  map_value_error map_type_error profile_missing no_documents model_failed : MapError

-- What a function over the database ends with: the database and a value, or an exception.
pub data Changed (V A : Type 0) : Type 0 where
  changed : Db V → A → Changed V A
  failed : MapError → Changed V A

abbrev pub is_project_doc_source : ProjectSource → Bool
is_project_doc_source from_project_doc = true
is_project_doc_source from_github = false
is_project_doc_source from_manual = false

-- `if proj.get("source") == "project_doc" and not proj.get("name"): proj["name"] = project_title`
unfoldable pub fill_names : Text → List ProjectItem → List ProjectItem
fill_names project_title [] = []
fill_names project_title (q ∷ qs) =
    (if is_project_doc_source q.source && blank q.name
      then record q { name = project_title }
      else q)
    ∷ fill_names project_title qs

-- `cv_text[:MAX_DOC_CHARS] + "\n…[truncated]"`, if the CV is longer
abbrev pub cv_window : Text → Text
cv_window t = if ltb 12000 (length t) then take 12000 t ++ 10 ∷ 8230 ∷ codes "[truncated]" else t

module _ {V : Type 0} (json : ProfileJson V) where
  -- The writes of `apply_mapping`: the rows, then the profile with the document ids as they are then.
  unfoldable pub store_mapping : Db V → ℕ → ℕ → List MappingRow → Profile → Changed V ℕ
  unfolding replace_document_mappings upsert_profile current_profile_doc_ids
  store_mapping db document_id user_id stamped profile =
      let db' = (replace_document_mappings db document_id user_id stamped).0 in
      changed
        (upsert_profile db' user_id (json.model_dump profile) (current_profile_doc_ids db' user_id))
        (length stamped)

  abbrev pub stored_if : Db V → ℕ → ℕ → List MappingRow → Text → Applied Profile → Changed V ℕ
  stored_if db document_id user_id stamped project_title (applied q) =
      store_mapping db document_id user_id stamped
        (set_projects q (fill_names project_title q.projects))
  stored_if db document_id user_id stamped project_title value_error = failed map_value_error
  stored_if db document_id user_id stamped project_title type_error = failed map_type_error

  abbrev pub map_onto :
      Db V → ℕ → ℕ → List MappingRow → Option Extracted → Text → Option Profile → Changed V ℕ
  map_onto db document_id user_id rows extracted project_title none = failed map_value_error
  map_onto db document_id user_id rows extracted project_title (some p) =
      let stamped = map (stamp extracted) rows in
      stored_if db document_id user_id stamped project_title
        (mutate_profile_apply p document_id stamped extracted)

  unfoldable pub apply_mapping :
      Db V → ℕ → ℕ → List MappingRow → Option Extracted → Text → Changed V ℕ
  unfolding get_profile
  apply_mapping db document_id user_id rows extracted project_title =
      elim (get_profile db user_id) [
        | none ↦ failed profile_missing
        | some row ↦
            map_onto db document_id user_id rows extracted project_title
              (json.model_validate row.profile_json)
      ]

  abbrev pub reverted : Db V → ℕ → ℕ → List MappingRow → Option Profile → Changed V (Unit {0})
  reverted db document_id user_id rows none = failed map_value_error
  reverted db document_id user_id rows (some p) =
      changed
        (upsert_profile db user_id (json.model_dump (mutate_profile_revert p document_id rows))
          (keep (λ x. not (x == document_id)) (current_profile_doc_ids db user_id)))
        tt

  -- Nothing to do without mapping rows or without a profile.
  unfoldable pub revert_mapping : Db V → ℕ → ℕ → Changed V (Unit {0})
  unfolding list_document_mappings get_profile
  revert_mapping db document_id user_id = elim (list_document_mappings db document_id) [
    | [] ↦ changed db tt
    | m ∷ ms ↦ elim (get_profile db user_id) [
      | none ↦ changed db tt
      | some row ↦
          reverted db document_id user_id (map (λ n. n.row) (m ∷ ms))
            (json.model_validate row.profile_json)
    ]
  ]

  abbrev pub profile_stored : Db V → ℕ → Applied Profile → Changed V Profile
  profile_stored db user_id (applied p) =
      changed (upsert_profile db user_id (json.model_dump p) (current_profile_doc_ids db user_id)) p
  profile_stored db user_id value_error = failed map_value_error
  profile_stored db user_id type_error = failed map_type_error

  abbrev pub built : Db V → ℕ → Option Profile → Changed V Profile
  built db user_id none = failed model_failed
  built db user_id (some p) =
      profile_stored db user_id
        (reapply_existing_mappings p (list_document_mappings_for_user db user_id))

  -- `extract` is the language model's answer to the text of the CV, if it is a profile.
  unfoldable pub build_profile : (Text → Option Profile) → Db V → ℕ → Changed V Profile
  unfolding list_documents_for_user list_document_mappings_for_user reapply_existing_mappings
      upsert_profile current_profile_doc_ids
  build_profile extract db user_id =
      elim (find (λ d. is_cv d.kind) (list_documents_for_user db user_id)) [
        | none ↦ failed no_documents
        | some d ↦ built db user_id (extract (cv_window d.raw_text))
      ]
