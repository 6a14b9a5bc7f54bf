-- ===== src/Interview/Interviewer.antt =====
-- agents/nodes/question_generator.py (`stream_open_thread`, `stream_conduct`) and the interviewer
-- node of agents/graph_nodes.py. The prompts only go to the model, whose answer is an input.
pub mod Post
use mathlib.Core.List.{flat_map}
use interview_coach.Base.{
  ℕ, ◌+◌, Bool, true, false, not, ◌&&◌, Option, none, some, List, [], ◌∷◌, ◌++◌, map, leb, ltb,
  if◌then◌else◌,
}
use interview_coach.Text.{Text, codes, strip, text_eq}
use interview_coach.StreamingJson.Automaton.{Event, chunk, field_done, scalar, done}
use interview_coach.Rounds.{
  RoundStrategy, Action, get_round_strategy, conductor_allowed_actions, coerce_action,
}
use interview_coach.Rounds
use interview_coach.Db.Models.{
  MoveKind, question, probe, Role, interviewer, candidate, SessionRow, MessageRow, Db,
}
use interview_coach.Db.Rows.{is_active, new_thread}
use interview_coach.Db.Threads.{
  get_session, count_closed_threads, create_thread, append_message, count_messages_for_thread,
}
use interview_coach.Db.Packet.{get_profile, get_job, get_company_snapshot_by_job}
use interview_coach.Interview.Effects.{
  M, Ran, Result, returned, threw, Exn, session_not_found, session_status, session_complete,
  profile_missing, job_not_found, job_not_analyzed, company_snapshot_missing, unknown_round_type,
  schema_validation, attribute_error, Wire, move, move_done, token, error, pure, throw, require,
  reads, ◌>>=◌, ◌>>◌, tell, guard, insert, Deltas, parse_deltas, continue,
}
use interview_coach.Interview.State.{
  NextMove, say, advance, Passage, InterviewState, FocusPick, Question, Shape, falsy, string, other,
  Env, Supply,
}

abbrev pub truthy : Shape → Bool
truthy falsy = false
truthy (string _) = true
truthy (other _) = true

-- What `stream_open_thread` reports with its last pair.
pub record Opened : Type 0 where
  pub thread_id : ℕ
  pub thread_index : ℕ
  pub focus_key : Option Text
  pub focus_label : Option Text
  pub focus_document_ids : List Text
  pub anchors : List Text
  pub grounding : List Passage

module _ {V : Type 0} (env : Env V) where
  -- `_load_context`
  unfoldable pub load_profile : ℕ → Option V → M V V
  load_profile user_id (some profile) = pure profile
  load_profile user_id none = do
    row ← reads (λ db. get_profile db user_id)
    found ← require row profile_missing
    pure found.profile_json

  unfoldable pub load_job : ℕ → ℕ → Option V → M V V
  load_job job_id user_id (some job_analysis) = pure job_analysis
  load_job job_id user_id none = do
    row ← reads (λ db. get_job db job_id user_id)
    job ← require row job_not_found
    parsed ← require job.parsed_json job_not_analyzed
    guard (truthy (env.shape parsed)) job_not_analyzed
    pure parsed

  unfoldable pub load_snapshot : ℕ → Option V → M V V
  load_snapshot job_id (some snapshot) = pure snapshot
  load_snapshot job_id none = do
    row ← reads (λ db. get_company_snapshot_by_job db job_id)
    found ← require row company_snapshot_missing
    pure found.snapshot_json

  unfoldable pub load_context : SessionRow → Option V → Option V → Option V → M V (V × V × V)
  load_context row profile job_analysis company_snapshot = do
    p ← load_profile row.user_id profile
    j ← load_job row.job_id row.user_id job_analysis
    c ← load_snapshot row.job_id company_snapshot
    pure (p, j, c)

  -- The pairs of the parser that are passed on while the root question streams.
  unfoldable pub open_token : Event V → List (Wire V)
  open_token (chunk k ch) = if text_eq k (codes "question") then token ch ∷ [] else []
  open_token _ = []

  unfoldable pub stream_question : Deltas → M V Question
  stream_question reply db =
      let (events, result) = parse_deltas env.py (codes "question" ∷ []) [] reply in
      continue (flat_map open_token events) db result
        (λ parsed. require (env.question_fields parsed) schema_validation)

  -- The grounding is retrieved for a focus that a repository backs, in a round that asks for it.
  abbrev pub retrieved : RoundStrategy → Option FocusPick → List Passage → List Passage
  retrieved strategy none passages = []
  retrieved strategy (some pick) passages =
      if strategy.qgen_grounding && pick.repo_backed then passages else []

  abbrev pub nonempty : List Text → Option (List Text)
  nonempty [] = none
  nonempty (d ∷ ds) = some (d ∷ ds)

  abbrev pub focus_ids : Option FocusPick → List Text
  focus_ids none = []
  focus_ids (some pick) = pick.document_ids

  abbrev pub focus_key_of : Option FocusPick → Option Text
  focus_key_of none = none
  focus_key_of (some pick) = some pick.key

  abbrev pub focus_label_of : Option FocusPick → Option Text
  focus_label_of none = none
  focus_label_of (some pick) = some pick.label

  -- The thread and its question are two commits.
  unfoldable pub stream_open_thread : Supply → ℕ → ℕ → Option V → Option V → Option V → M V Opened
  stream_open_thread s session_id user_id profile job company = do
    found ← reads (λ db. get_session db session_id user_id)
    row ← require found session_not_found
    guard (is_active row.status) (session_status row.status)
    thread_index ← reads (λ db. count_closed_threads db session_id)
    guard (ltb thread_index row.n_questions) session_complete
    _ ← load_context row profile job company
    strategy ← require (get_round_strategy row.round_type) unknown_round_type
    let grounding = retrieved strategy s.picked s.passages
    tell (move question thread_index s.message_id ∷ [])
    q ← stream_question s.reply
    insert λ db. create_thread db (
        new_thread session_id thread_index q.anchors (focus_key_of s.picked)
          (focus_label_of s.picked) (nonempty (focus_ids s.picked)) s.thread_id)
    insert λ db. append_message db (record {
      id = s.message_id;
      thread_id = s.thread_id;
      seq = 0;
      role = interviewer;
      kind = some question;
      text = q.question;
    })
    tell (move_done (some q.anchors) ∷ [])
    pure (record {
      thread_id = s.thread_id;
      thread_index = thread_index;
      focus_key = focus_key_of s.picked;
      focus_label = focus_label_of s.picked;
      focus_document_ids = focus_ids s.picked;
      anchors = q.anchors;
      grounding = grounding;
    })
