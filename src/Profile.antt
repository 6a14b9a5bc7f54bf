-- ===== src/Profile.antt =====
-- agents/schemas.py: the candidate's profile. A document's id is a number.
use interview_coach.Base.{ℕ, Option, List}
use interview_coach.Text.{Text}

pub record Highlight : Type 0 where
  pub text : Text
  pub tech_stack : List Text
  pub description : Option Text
  pub urls : List Text
  pub source_document_ids : List ℕ

pub record Experience : Type 0 where
  pub company : Text
  pub role : Text
  pub start : Option Text
  pub end : Option Text
  pub highlights : List Highlight

-- `source` of a project
pub data ProjectSource : Type 0 where
  from_project_doc from_github from_manual : ProjectSource

pub record ProjectItem : Type 0 where
  pub name : Text
  pub description : Text
  pub tech : List Text
  pub role : Option Text
  pub urls : List Text
  pub key_features : List Text
  pub architecture : Option Text
  pub source : ProjectSource
  pub source_document_ids : List ℕ

pub record Education : Type 0 where
  pub school : Text
  pub degree : Text
  pub start : Option Text
  pub end : Option Text

pub record Profile : Type 0 where
  pub summary : Text
  pub skills : List Text
  pub experiences : List Experience
  pub projects : List ProjectItem
  pub education : List Education
