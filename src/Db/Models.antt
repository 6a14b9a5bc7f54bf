-- ===== src/Db/Models.antt =====
-- db/models.py: the rows that the interview and its preparation read and write. An id is a number;
-- `V` is the type of JSON values.
use interview_coach.Base.{ℕ, String, Option, List}
use interview_coach.Text.{Text}
use interview_coach.Profile.{ProjectItem}

pub data SessionStatus : Type 0 where
  active complete abandoned : SessionStatus

pub data ThreadStatus : Type 0 where
  open_thread closed_thread : ThreadStatus

pub data Role : Type 0 where
  interviewer candidate : Role

-- `kind` of an interviewer's message
pub data MoveKind : Type 0 where
  question probe clarify nudge : MoveKind

pub data DocKind : Type 0 where
  cv project_doc github_repo : DocKind

pub record SessionRow : Type 0 where
  pub id : ℕ
  pub user_id : ℕ
  pub job_id : ℕ
  pub round_type : String
  pub status : SessionStatus
  pub n_questions : ℕ

pub record ThreadRow : Type 0 where
  pub id : ℕ
  pub session_id : ℕ
  pub thread_index : ℕ
  pub anchors_json : List Text
  pub focus_key : Option Text
  pub focus_label : Option Text
  pub focus_document_ids : Option (List Text)
  pub status : ThreadStatus
  pub score : Option ℕ
  pub feedback : Option Text
  pub model_answer : Option Text

pub record MessageRow : Type 0 where
  pub id : ℕ
  pub thread_id : ℕ
  pub seq : ℕ
  pub role : Role
  pub kind : Option MoveKind
  pub text : Text

-- What the intake of a project document extracts from it.
pub record Extracted : Type 0 where
  pub tech_stack : List Text
  pub description : Option Text
  pub urls : List Text

-- `mapping_kind`: the three that the table admits, or another text.
pub data MappingKind : Type 0 where
  highlight experience project : MappingKind
  unknown_kind : Text → MappingKind

-- A row of a mapping; an empty `extracted_json` is `none`.
pub record MappingRow : Type 0 where
  pub mapping_kind : MappingKind
  pub experience_idx : Option ℕ
  pub highlight_idx : Option ℕ
  pub project_idx : Option ℕ
  pub extracted_json : Option Extracted

pub record DocumentMapping : Type 0 where
  pub document_id : ℕ
  pub user_id : ℕ
  pub row : MappingRow

-- `parsed_json` of a repository's document is the project that was extracted from it.
pub record Document : Type 0 where
  pub id : ℕ
  pub user_id : ℕ
  pub kind : DocKind
  pub raw_text : Text
  pub project_title : Option Text
  pub source_url : Option Text
  pub parsed_json : Option ProjectItem
  pub content_hash : Option Text

pub record Job (V : Type 0) : Type 0 where
  pub id : ℕ
  pub user_id : ℕ
  pub raw_text : Text
  pub source_url : Option Text
  pub content_hash : Option Text
  pub parsed_json : Option V

pub record ProfileRow (V : Type 0) : Type 0 where
  pub user_id : ℕ
  pub profile_json : V
  pub source_doc_ids : List ℕ

pub record CompanySnapshotRow (V : Type 0) : Type 0 where
  pub job_id : ℕ
  pub company_name : Text
  pub snapshot_json : V

pub record Db (V : Type 0) : Type 0 where
  pub sessions : List SessionRow
  pub threads : List ThreadRow
  pub messages : List MessageRow
  pub documents : List Document
  pub mappings : List DocumentMapping
  pub jobs : List (Job V)
  pub profiles : List (ProfileRow V)
  pub snapshots : List (CompanySnapshotRow V)
