-- ===== src/Interview/State.antt =====
-- agents/state.py: the state of the interview graph; and what its nodes take from outside.
use interview_coach.Base.{ℕ, String, Bool, Option, none, some, List, leb, ◌&&◌, if◌then◌else◌}
use interview_coach.Text.{Text}
use interview_coach.StreamingJson.Automaton.{Python}
use interview_coach.Db.Models.{SessionStatus, MoveKind}
use interview_coach.Interview.Effects.{Deltas}

-- `next_move`
pub data NextMove : Type 0 where
  say : MoveKind → NextMove
  advance : NextMove

-- A passage of `grounding`: its source and its text.
abbrev pub Passage : Type 0
Passage = Text × Text

pub record InterviewState (V : Type 0) : Type 0 where
  pub user_id : ℕ
  pub session_id : ℕ
  pub round_type : String
  pub n_questions : ℕ
  pub thread_id : Option ℕ
  pub thread_index : ℕ
  pub anchors : List Text
  pub focus_key : Option Text
  pub focus_label : Option Text
  pub focus_document_ids : List Text
  pub grounding : List Passage
  pub followups_used : ℕ
  pub pending_message : Option Text
  pub next_move : Option NextMove
  pub session_status : Option SessionStatus
  pub profile : Option V
  pub job : Option V
  pub company : Option V

-- `FocusPick` of agents/nodes/question_generator.py
pub record FocusPick : Type 0 where
  pub key : Text
  pub label : Text
  pub document_ids : List Text
  pub repo_backed : Bool

-- agents/schemas.py
pub record Question : Type 0 where
  pub question : Text
  pub anchors : List Text

pub record Judgment : Type 0 where
  pub score : ℕ
  pub feedback : Text

-- A JSON value as Python sees it in `x or ""`: falsy, a string that is not empty, or another value
-- with its `str`.
pub data Shape : Type 0 where
  falsy : Shape
  string : Text → Shape
  other : Text → Shape

-- Python's JSON and pydantic's conversion of a parsed object to the fields of a model.
pub record Env (V : Type 0) : Type 0 where
  pub py : Python V
  pub get : V → Text → Option V
  pub shape : V → Shape
  pub question_fields : V → Option Question
  pub judgment_fields : V → Option Judgment
  pub model_answer_field : V → Option Text

-- `Judgment.model_validate`: the score is `Field(ge=1, le=10)`.
unfoldable pub validate_judgment : {V : Type 0} → Env V → V → Option Judgment
validate_judgment env v = elim (env.judgment_fields v) [
  | none ↦ none
  | some j ↦ if leb 1 j.score && leb j.score 10 then some j else none
]

-- What one run of the interviewer or of the evaluator meets outside the database: fresh ids, the
-- focus that the picker drew, the passages retrieved for it, and the answers of the model.
pub record Supply : Type 0 where
  pub candidate_message_id : ℕ
  pub thread_id : ℕ
  pub message_id : ℕ
  pub picked : Option FocusPick
  pub passages : List Passage
  pub reply : Deltas
  pub model_answer : Deltas
