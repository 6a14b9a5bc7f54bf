-- ===== src/Interview/Route.antt =====
-- `session_message` of api/sessions/routes.py: the single conversational endpoint.
pub mod Recovery
pub mod Refusals
pub mod Answers
pub mod Cuts
pub mod Reach
use interview_coach.Base.{
  ℕ, zero, suc, ◌-◌, Bool, true, false, Option, none, some, List, [], ◌∷◌, ◌++◌, keep, length,
  if◌then◌else◌,
}
use interview_coach.Text.{Text, strip}
use interview_coach.Db.Models.{
  SessionStatus, Role, interviewer, candidate, SessionRow, ThreadRow, MessageRow, Job, ProfileRow,
  CompanySnapshotRow, Db,
}
use interview_coach.Db.Rows.{is_active}
use interview_coach.Db.Threads.{get_session, get_open_thread, list_messages_for_thread}
use interview_coach.Db.Threads.Laws.{is_interviewer}
use interview_coach.Db.Packet.{get_profile, get_job, get_company_snapshot_by_job}
use interview_coach.Interview.State.{InterviewState, Env, Supply}
use interview_coach.Interview.Graph.{
  Node, Pause, awaiting, ended, crashed, running, Invoked, drive, node_await_candidate,
}

-- The HTTP errors before the stream.
pub data HttpError : Type 0 where
  not_found : HttpError
  conflict_status : SessionStatus → HttpError
  empty_message : HttpError

-- The reply of the endpoint: an error, with nothing done, or a stream that ran the graph.
pub data Response (V : Type 0) : Type 0 where
  refused : HttpError → Response V
  streamed : Invoked V → Response V

-- `max(0, sum(1 for m in msgs if m.role == "interviewer") - 1)`
unfoldable pub followups_of : List MessageRow → ℕ
followups_of msgs = length (keep (λ m. is_interviewer m.role) msgs) - 1

abbrev pub document_ids : Option (List Text) → List Text
document_ids none = []
document_ids (some ids) = ids

module _ {V : Type 0} where
  -- The status that the checkpoint carries: a fresh input does not name it.
  abbrev pub carried : Option (Pause V) → Option SessionStatus
  carried none = none
  carried (some (awaiting st)) = st.session_status
  carried (some (ended st)) = st.session_status
  carried (some (crashed _ st _)) = st.session_status
  carried (some (running _ st)) = st.session_status

  abbrev pub json_of_job : Option (Job V) → Option V
  json_of_job none = none
  json_of_job (some j) = j.parsed_json

  abbrev pub json_of_profile : Option (ProfileRow V) → Option V
  json_of_profile none = none
  json_of_profile (some p) = some p.profile_json

  abbrev pub json_of_snapshot : Option (CompanySnapshotRow V) → Option V
  json_of_snapshot none = none
  json_of_snapshot (some c) = some c.snapshot_json

  -- The input of a run that starts afresh, hydrated by `_hydrate_interview_context`.
  unfoldable pub fresh_input : SessionRow → Option (Pause V) → Db V → InterviewState V
  fresh_input sess checkpoint db = record {
    user_id = sess.user_id;
    session_id = sess.id;
    round_type = sess.round_type;
    n_questions = sess.n_questions;
    thread_id = none;
    thread_index = 0;
    anchors = [];
    focus_key = none;
    focus_label = none;
    focus_document_ids = [];
    grounding = [];
    followups_used = 0;
    pending_message = none;
    next_move = none;
    session_status = carried checkpoint;
    profile = json_of_profile (get_profile db sess.user_id);
    job = json_of_job (get_job db sess.job_id sess.user_id);
    company = json_of_snapshot (get_company_snapshot_by_job db sess.job_id);
  }

  -- An open thread that an earlier run left behind is adopted.
  unfoldable pub adopt : ThreadRow → Text → Db V → InterviewState V → InterviewState V
  adopt t msg db st = record st {
    thread_id = some t.id;
    thread_index = t.thread_index;
    anchors = t.anchors_json;
    focus_key = t.focus_key;
    focus_label = t.focus_label;
    focus_document_ids = document_ids t.focus_document_ids;
    followups_used = followups_of (list_messages_for_thread db t.id);
    pending_message = some msg;
  }

-- The interviewer, the evaluator and the interviewer again are three nodes.
abbrev pub run_fuel : ℕ
run_fuel = 4

module _ {V : Type 0} (env : Env V) where
  abbrev pub invoke : (ℕ → Supply) → InterviewState V → Db V → Response V
  invoke supply st db = streamed (drive env run_fuel supply Node.interviewer st db)

  unfoldable pub start_adopted :
      (ℕ → Supply) → Option ThreadRow → Text → Db V → InterviewState V → Response V
  start_adopted supply none msg db st = invoke supply st db
  start_adopted supply (some t) [] db st = refused empty_message
  start_adopted supply (some t) (ch ∷ msg) db st = invoke supply (adopt t (ch ∷ msg) db st) db

  unfoldable pub start_fresh :
      (ℕ → Supply) → SessionRow → Option (Pause V) → Text → Db V → Response V
  start_fresh supply sess checkpoint msg db =
      start_adopted supply (get_open_thread db sess.id) msg db (fresh_input sess checkpoint db)

  unfoldable pub resume_paused : (ℕ → Supply) → Text → InterviewState V → Db V → Response V
  resume_paused supply [] st db = refused empty_message
  resume_paused supply (ch ∷ msg) st db = invoke supply (node_await_candidate (ch ∷ msg) st) db

  -- Only a run that is parked on the interrupt counts as paused.
  unfoldable pub resume_or_start :
      (ℕ → Supply) → SessionRow → Option (Pause V) → Text → Db V → Response V
  resume_or_start supply sess (some (awaiting st)) msg db = resume_paused supply msg st db
  resume_or_start supply sess checkpoint msg db = start_fresh supply sess checkpoint msg db

  abbrev pub message_of : Option Text → Text
  message_of none = []
  message_of (some t) = strip t

  unfoldable pub active_session :
      (ℕ → Supply) → SessionRow → Option (Pause V) → Option Text → Db V → Response V
  active_session supply sess checkpoint message db =
      if is_active sess.status
      then resume_or_start supply sess checkpoint (message_of message) db
      else refused (conflict_status sess.status)

  -- The checkpoint is that of the session's graph thread, `none` if there is none.
  unfoldable pub session_message :
      (ℕ → Supply) → ℕ → ℕ → Option (Pause V) → Option Text → Db V → Response V
  session_message supply session_id user_id checkpoint message db =
      elim (get_session db session_id user_id) [
        | none ↦ refused not_found
        | some sess ↦ active_session supply sess checkpoint message db
      ]
