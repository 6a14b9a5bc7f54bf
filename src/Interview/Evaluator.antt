-- ===== src/Interview/Evaluator.antt =====
-- `stream_thread_evaluation` of agents/nodes/evaluator.py: the judge, the model answer, and the
-- closing of the thread.
pub mod Post
use mathlib.Core.List.{flat_map}
use interview_coach.Base.{
  ℕ, ◌-◌, Bool, true, false, Option, none, some, List, [], ◌∷◌, ◌++◌, String, leb, ◌==◌,
  if◌then◌else◌,
}
use interview_coach.Text.{Text, codes, text_eq}
use interview_coach.StreamingJson.Automaton.{Event, chunk, field_done, scalar, done}
use interview_coach.Rounds.{get_round_strategy}
use interview_coach.Db.Models.{SessionStatus, active, complete, SessionRow, ThreadRow, Db}
use interview_coach.Db.Rows.{is_open}
use interview_coach.Db.Threads.{
  get_session, get_thread, count_closed_threads, close_thread, update_session_status,
}
use interview_coach.Interview.Effects.{
  M, Ran, Result, returned, threw, Exn, unknown_round_type, thread_not_found, schema_validation,
  Wire, evaluation, evaluation_done, wrap, score, feedback_token, feedback_done, model_answer_token,
  model_answer_done, model_answer_error, pure, throw, require, reads, ◌>>=◌, ◌>>◌, tell, guard,
  update, Deltas, parse_deltas, continue,
}
use interview_coach.Interview.State.{Judgment, Env, validate_judgment, Supply}

-- `new_status` and `n_remaining` of the `evaluation_done` pair.
pub record Evaluated : Type 0 where
  pub session_status : SessionStatus
  pub n_remaining : ℕ

module _ {V : Type 0} (env : Env V) where
  unfoldable pub judge_event : Event V → List (Wire V)
  judge_event (chunk k ch) = if text_eq k (codes "feedback") then feedback_token ch ∷ [] else []
  judge_event (field_done k) = if text_eq k (codes "feedback") then feedback_done ∷ [] else []
  judge_event (scalar k v) = if text_eq k (codes "score") then score v ∷ [] else []
  judge_event (done _) = []

  -- `_run_judge_call`
  unfoldable pub run_judge_call : Deltas → M V Judgment
  run_judge_call reply db =
      let (events, result) =
        parse_deltas env.py (codes "feedback" ∷ []) (codes "score" ∷ []) reply in
      continue (flat_map judge_event events) db result
        (λ parsed. require (validate_judgment env parsed) schema_validation)

  unfoldable pub answer_event : Event V → List (Wire V)
  answer_event (chunk k ch) =
      if text_eq k (codes "model_answer") then model_answer_token ch ∷ [] else []
  answer_event (field_done k) =
      if text_eq k (codes "model_answer") then model_answer_done ∷ [] else []
  answer_event _ = []

  -- `_run_model_answer_call`
  unfoldable pub run_model_answer_call : Deltas → M V Text
  run_model_answer_call reply db =
      let (events, result) = parse_deltas env.py (codes "model_answer" ∷ []) [] reply in
      continue (flat_map answer_event events) db result
        (λ parsed. require (env.model_answer_field parsed) schema_validation)

  -- The `try` around it: a failure is told and leaves no answer.
  unfoldable pub answered : List (Wire V) → Db V → Result Text → Ran V (Option Text)
  answered evs db (returned a) = record { events = evs; db = db; result = returned (some a) }
  answered evs db (threw e) = record {
    events = evs ++ model_answer_error e ∷ [];
    db = db;
    result = returned none;
  }

  unfoldable pub try_model_answer : Deltas → M V (Option Text)
  try_model_answer reply db =
      let r = run_model_answer_call reply db in answered r.events r.db r.result

  abbrev pub status_after : Bool → SessionStatus
  status_after is_last = if is_last then complete else active

  -- The session is complete with its last thread.
  unfoldable pub mark_session : Bool → ℕ → ℕ → Db V → Db V × Bool
  mark_session is_last session_id user_id db =
      if is_last then update_session_status db session_id user_id complete else (db, false)

  unfoldable pub finish_evaluated : Bool → ℕ → ℕ → ℕ → ℕ → M V Evaluated
  finish_evaluated is_last session_id user_id thread_index n_remaining = do
    update (mark_session is_last session_id user_id)
    tell (
        evaluation_done thread_index (status_after is_last) n_remaining
        ∷ (if is_last then wrap ∷ [] else []))
    pure (record { session_status = status_after is_last; n_remaining = n_remaining })

  -- Two commits: the thread is closed, and then the session with its last thread.
  unfoldable pub close_evaluated :
      SessionRow → ℕ → ℕ → ℕ → ℕ → Judgment → Option Text → M V Evaluated
  close_evaluated sess session_id user_id thread_id thread_index judgment model_answer = do
    update λ db. close_thread db thread_id judgment.score judgment.feedback model_answer
    n_closed ← reads (λ db. count_closed_threads db session_id)
    finish_evaluated (leb sess.n_questions n_closed) session_id user_id thread_index
        (sess.n_questions - n_closed)

  unfoldable pub stream_thread_evaluation : Supply → ℕ → ℕ → ℕ → ℕ → String → M V Evaluated
  stream_thread_evaluation s session_id user_id thread_id thread_index round_type = do
    session ← reads (λ db. get_session db session_id user_id)
    sess ← require session thread_not_found
    row ← reads (λ db. get_thread db thread_id)
    thread ← require row thread_not_found
    guard (thread.session_id == session_id) thread_not_found
    guard (is_open thread.status) thread_not_found
    _ ← require (get_round_strategy round_type) unknown_round_type
    tell (evaluation thread_index ∷ [])
    judgment ← run_judge_call s.reply
    model_answer ← try_model_answer s.model_answer
    close_evaluated sess session_id user_id thread_id thread_index judgment model_answer
