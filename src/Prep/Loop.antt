-- ===== src/Prep/Loop.antt =====
-- agents/graph_nodes.py, the three nodes of the mapping loop, with `run_intake` of
-- agents/nodes/doc_intake.py: one project document after the other is suggested, confirmed or
-- skipped.
pub mod Shrinks
pub mod Ends
use interview_coach.Base.{
  ℕ, zero, suc, Bool, true, false, not, ◌&&◌, Option, none, some, List, [], ◌∷◌, ◌++◌, keep, any,
  take, length, ◌==◌, if◌then◌else◌,
}
use interview_coach.Text.{Text, codes, strip}
use interview_coach.Db.Models.{Document, Extracted, MappingRow, ProfileRow, Db}
use interview_coach.Db.Packet.{get_profile}
use interview_coach.Db.Documents.{is_project_doc, get_document, update_document_title}
use interview_coach.Mapping.{or_else}
use interview_coach.Prep.Readiness.{list_unmapped_project_docs_for_user}
use interview_coach.Prep.Mappings.{
  ProfileJson, MapError, map_value_error, map_type_error, profile_missing, no_documents,
  model_failed, Changed, changed, failed, apply_mapping,
}

-- `DocIntakeResult`, without the suggested rows, which only the user reads
pub record IntakeResult : Type 0 where
  pub title : Text
  pub extracted : Extracted

-- The language model reads the first characters of a document and the profile; an answer that does
-- not fit the schema, and a failed call, are `none`.
pub record Intake (V : Type 0) : Type 0 where
  pub answer : Text → V → Option IntakeResult
  pub filename : ℕ → Text

-- `DocIntakeError` and `ProfileMissing`
pub data IntakeError : Type 0 where
  doc_intake_error no_profile : IntakeError

pub data Intaken (V : Type 0) : Type 0 where
  intaken : Db V → IntakeResult → Intaken V
  intake_failed : IntakeError → Intaken V

-- The payload of a resume: `action`, `rows`, `title` and `extracted`.
pub record Resume : Type 0 where
  pub apply : Bool
  pub rows : List MappingRow
  pub title : Option Text
  pub extracted : Option Extracted

pub data Pending : Type 0 where
  broken : ℕ → Pending
  suggested : ℕ → IntakeResult → Pending

pub data MappingEvent : Type 0 where
  no_unmapped_project_docs : MappingEvent
  mapping_started : ℕ → ℕ → MappingEvent
  mapping_suggestion_failed : ℕ → IntakeError → MappingEvent
  mapping_suggestion : ℕ → MappingEvent
  mapping_applied : ℕ → ℕ → MappingEvent
  mapping_apply_failed : ℕ → MapError → MappingEvent
  mapping_skipped : ℕ → MappingEvent

-- What `prepare_mapping_suggestion` returns: `next_step` with `pending_mapping`.
pub data Prepared (V : Type 0) : Type 0 where
  to_job_analyzer : Prepared V
  to_mapping : Db V → Pending → Prepared V

-- What `apply_or_skip_mapping` returns, or the exception that it lets out.
pub data Settled (V : Type 0) : Type 0 where
  settled : Db V → List ℕ → List MappingEvent → Settled V
  raised : MapError → Settled V

abbrev pub skipped : ℕ → List ℕ → Bool
skipped i skiplist = any (λ j. j == i) skiplist

-- `if document_id_str not in skiplist: skiplist.append(document_id_str)`
abbrev pub add_skip : ℕ → List ℕ → List ℕ
add_skip i skiplist = if skipped i skiplist then skiplist else skiplist ++ i ∷ []

module _ {V : Type 0} where
  unfoldable pub pending_docs : Db V → ℕ → List ℕ → List Document
  unfolding list_unmapped_project_docs_for_user
  pending_docs db user_id skiplist =
      keep (λ d. not (skipped d.id skiplist)) (list_unmapped_project_docs_for_user db user_id)

module _ {V : Type 0} (json : ProfileJson V) (intake : Intake V) where
  abbrev pub titled : Db V → ℕ → ℕ → IntakeResult → Intaken V
  titled db document_id user_id r =
      let title = or_else (some (take 160 (strip r.title))) (intake.filename document_id) in
      intaken (update_document_title db document_id user_id title).0 (record r { title = title })

  abbrev pub answered : Db V → ℕ → ℕ → Option IntakeResult → Intaken V
  answered db document_id user_id none = intake_failed doc_intake_error
  answered db document_id user_id (some r) = titled db document_id user_id r

  abbrev pub intake_profile : Db V → ℕ → Document → Option (ProfileRow V) → Intaken V
  intake_profile db user_id doc none = intake_failed no_profile
  intake_profile db user_id doc (some row) =
      answered db doc.id user_id (intake.answer (take 3000 doc.raw_text) row.profile_json)

  abbrev pub intake_document : Db V → ℕ → Option Document → Intaken V
  intake_document db user_id none = intake_failed doc_intake_error
  intake_document db user_id (some doc) =
      if is_project_doc doc.kind
      then intake_profile db user_id doc (get_profile db user_id)
      else intake_failed doc_intake_error

  unfoldable pub run_intake : Db V → ℕ → ℕ → Intaken V
  unfolding get_document get_profile update_document_title
  run_intake db document_id user_id =
      intake_document db user_id (get_document db document_id user_id)

  -- `remaining` documents, `doc` first
  abbrev pub suggest : Db V → ℕ → Intaken V → Prepared V × List MappingEvent
  suggest db i (intaken db' r) = (to_mapping db' (suggested i r), mapping_suggestion i ∷ [])
  suggest db i (intake_failed e) = (to_mapping db (broken i), mapping_suggestion_failed i e ∷ [])

  abbrev pub prepare_next : Db V → ℕ → List Document → Prepared V × List MappingEvent
  prepare_next db user_id [] = (to_job_analyzer, no_unmapped_project_docs ∷ [])
  prepare_next db user_id (d ∷ ds) =
      let s = suggest db d.id (run_intake db d.id user_id) in
      (s.0, mapping_started d.id (length (d ∷ ds)) ∷ s.1)

  unfoldable pub node_prepare_mapping_suggestion :
      Db V → ℕ → List ℕ → Prepared V × List MappingEvent
  unfolding pending_docs run_intake
  node_prepare_mapping_suggestion db user_id skiplist =
      prepare_next db user_id (pending_docs db user_id skiplist)

  -- A `ValueError` or `ProfileMissing` skips the document; another exception leaves the node.
  abbrev pub after_apply : Db V → ℕ → List ℕ → Changed V ℕ → Settled V
  after_apply db i skiplist (changed db' n) = settled db' skiplist (mapping_applied i n ∷ [])
  after_apply db i skiplist (failed map_value_error) =
      settled db (add_skip i skiplist) (mapping_apply_failed i map_value_error ∷ [])
  after_apply db i skiplist (failed profile_missing) =
      settled db (add_skip i skiplist) (mapping_apply_failed i profile_missing ∷ [])
  after_apply db i skiplist (failed map_type_error) = raised map_type_error
  after_apply db i skiplist (failed no_documents) = raised no_documents
  after_apply db i skiplist (failed model_failed) = raised model_failed

  -- `resume.get("extracted") or pending.get("intake_extracted")`
  abbrev pub payload_or : Option Extracted → Extracted → Option Extracted
  payload_or none x = some x
  payload_or (some y) x = some y

  unfoldable pub node_apply_or_skip_mapping : Db V → ℕ → List ℕ → Pending → Resume → Settled V
  unfolding apply_mapping
  node_apply_or_skip_mapping db user_id skiplist (broken i) resume =
      settled db (add_skip i skiplist) []
  node_apply_or_skip_mapping db user_id skiplist (suggested i r) resume =
      if resume.apply
      then after_apply db i skiplist (
          apply_mapping json db i user_id resume.rows (payload_or resume.extracted r.extracted)
            (or_else resume.title (or_else (some r.title) (codes "Project"))))
      else settled db (add_skip i skiplist) (mapping_skipped i ∷ [])

  -- How the loop ends: at `job_analyzer`, by an exception, or cut off.
  pub data Looped : Type 0 where
    at_job_analyzer : Db V → List ℕ → Looped
    loop_raised : MapError → Looped
    out_of_fuel : Looped

  abbrev pub doc_of : Pending → ℕ
  doc_of (broken i) = i
  doc_of (suggested i r) = i

  -- The three nodes in turn. `answers` is what the user resumes the graph with.
  module _ (answers : ℕ → ℕ → Resume) (user_id : ℕ) where
    unfoldable pub map_documents : ℕ → Db V → List ℕ → Looped
    unfolding node_prepare_mapping_suggestion node_apply_or_skip_mapping
    map_documents zero db skiplist = out_of_fuel
    map_documents (suc n) db skiplist =
        elim (node_prepare_mapping_suggestion db user_id skiplist).0 [
          | to_job_analyzer ↦ at_job_analyzer db skiplist
          | to_mapping db' p ↦
              elim (node_apply_or_skip_mapping db' user_id skiplist p (answers n (doc_of p))) [
                | settled db'' skiplist' events ↦ map_documents n db'' skiplist'
                | raised e ↦ loop_raised e
              ]
        ]
