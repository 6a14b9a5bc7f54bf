-- ===== src/Interview/Evaluator/Post.antt =====
-- What the evaluation of a thread leaves in the database, on every path.
use interview_coach.Base.{
  ℕ, String, ◌-◌, ◌<◌, ◌≤◌, ◌≡◌, ◌⊎◌, inl, inr, refl, Bool, true, false, Option, some, List, map,
  leb, arith,
}
use interview_coach.Text.{Text}
use interview_coach.Db.Models.{SessionStatus, active, complete, SessionRow, ThreadRow, Db}
use interview_coach.Db.Rows.{is_open, session_key, set_status, close_at}
use interview_coach.Db.Threads.{
  get_session, get_thread, count_closed_threads, close_thread, update_session_status,
}
use interview_coach.Interview.Effects.{Wire, Deltas, Result, returned, threw}
use interview_coach.Interview.Effects.Ends.{
  Ends, EndsAt, Ends-bind_known, Ends-bind_same, Ends-stream, Ends-require, Ends-require_last,
  Ends-reads, Ends-tell, Ends-guard, Ends-update_to, Ends-pure,
}
use interview_coach.Interview.State.{Env, Supply, Judgment, validate_judgment}
use interview_coach.Interview.Evaluator.{
  Evaluated, run_judge_call, run_model_answer_call, answered, try_model_answer, mark_session,
  finish_evaluated, close_evaluated, stream_thread_evaluation,
}

module _ {V : Type 0} where
  close_thread_hit :
      (db : Db V) (thread_id score : ℕ) (feedback : Text) (a : Option Text) (row : ThreadRow)
      → get_thread db thread_id ≡ some row
      → (close_thread db thread_id score feedback a).0
        ≡ record db { threads = map (close_at thread_id score feedback a) db.threads }
  unfolding close_thread
  close_thread_hit db thread_id score feedback a row h = ground arith

  update_session_status_hit :
      (db : Db V) (session_id user_id : ℕ) (status : SessionStatus) (row : SessionRow)
      → get_session db session_id user_id ≡ some row
      → (update_session_status db session_id user_id status).0 ≡ record db {
        sessions = map (set_status (session_key session_id user_id) status) db.sessions;
      }
  unfolding update_session_status
  update_session_status_hit db session_id user_id status row h = ground arith

-- `Field(ge=1, le=10)`
pub record InBounds (judgment : Judgment) : Type 0 where
  pub low : 1 ≤ judgment.score
  pub high : judgment.score ≤ 10

-- The session and the thread that an evaluation finds.
pub record Evaluable {V : Type 0} (session_id user_id thread_id : ℕ) (db : Db V) : Type 0 where
  pub session : SessionRow
  pub thread : ThreadRow
  pub found : get_session db session_id user_id ≡ some session
  pub found_thread : get_thread db thread_id ≡ some thread
  pub same_session : thread.session_id ≡ session_id
  pub still_open : is_open thread.status ≡ true

-- The session is completed with its last thread, and left alone before it.
abbrev pub Finished : {V : Type 0} → ℕ → ℕ → SessionRow → Db V → Evaluated → Db V → Type 0
Finished session_id user_id session db ev db' =
    (session.n_questions ≤ count_closed_threads db' session_id
      × ev.session_status ≡ complete
      × db'.sessions ≡ map (set_status (session_key session_id user_id) complete) db.sessions)
    ⊎ (count_closed_threads db' session_id < session.n_questions
        × ev.session_status ≡ active
        × db'.sessions ≡ db.sessions)

pub record ClosePost {V : Type 0} (session_id user_id thread_id : ℕ) (db : Db V) (ev : Evaluated)
    (db' : Db V) : Type 0 where
  pub evaluable : Evaluable session_id user_id thread_id db
  pub judgment : Judgment
  pub model_answer : Option Text
  pub at_least_one : 1 ≤ judgment.score
  pub at_most_ten : judgment.score ≤ 10
  pub threads :
      db'.threads
      ≡ map (close_at thread_id judgment.score judgment.feedback model_answer) db.threads
  pub messages : db'.messages ≡ db.messages
  pub remaining :
      ev.n_remaining ≡ evaluable.session.n_questions - count_closed_threads db' session_id
  pub finished : Finished session_id user_id evaluable.session db ev db'

module _ {V : Type 0} (env : Env V) (session_id user_id thread_id thread_index : ℕ) (db : Db V)
    (evaluable : Evaluable session_id user_id thread_id db) (judgment : Judgment)
    (low : 1 ≤ judgment.score) (high : judgment.score ≤ 10) (model_answer : Option Text) where
  -- The database once the thread is closed.
  abbrev thread_closed : Db V
  thread_closed = record db {
    threads = map (close_at thread_id judgment.score judgment.feedback model_answer) db.threads;
  }

  finish_evaluated-Ends :
      (is_last : Bool)
      → leb evaluable.session.n_questions (count_closed_threads thread_closed session_id) ≡ is_last
      → Ends
          (λ d. d ≡ db)
          (ClosePost session_id user_id thread_id db)
          (finish_evaluated env is_last session_id user_id thread_index
            (evaluable.session.n_questions - count_closed_threads thread_closed session_id)
            thread_closed)
  unfolding finish_evaluated mark_session get_session count_closed_threads
  finish_evaluated-Ends true e =
      Ends-update_to _ _ _ _ thread_closed _
        (update_session_status_hit thread_closed session_id user_id complete evaluable.session
          evaluable.found)
        (Ends-tell _ _ _ _ _ (
          Ends-pure _ _ _ _ (record {
            evaluable = evaluable;
            judgment = judgment;
            model_answer = model_answer;
            at_least_one = low;
            at_most_ten = high;
            threads = refl;
            messages = refl;
            remaining = refl;
            finished = inl (ground arith, refl, refl);
          })))
  finish_evaluated-Ends false e = Ends-update_to _ _ _ _ thread_closed _ refl (
      Ends-tell _ _ _ _ _ (
        Ends-pure _ _ _ _ (record {
          evaluable = evaluable;
          judgment = judgment;
          model_answer = model_answer;
          at_least_one = low;
          at_most_ten = high;
          threads = refl;
          messages = refl;
          remaining = refl;
          finished = inr (ground arith, refl, refl);
        })))

  close_evaluated-Ends :
      Ends
        (λ d. d ≡ db)
        (ClosePost session_id user_id thread_id db)
        (close_evaluated env evaluable.session session_id user_id thread_id thread_index judgment
          model_answer db)
  unfolding close_evaluated
  close_evaluated-Ends =
      Ends-update_to _ _ _ _ db thread_closed
        (close_thread_hit db thread_id _ _ model_answer evaluable.thread evaluable.found_thread)
        (Ends-reads _ _ _ _ thread_closed (finish_evaluated-Ends _ refl))

module _ {V : Type 0} (env : Env V) (db : Db V) where
  abbrev Unchanged : Db V → Type 0
  Unchanged d = d ≡ db

  validate_judgment-InBounds :
      (v : V) (j : Judgment) → validate_judgment env v ≡ some j → InBounds j
  unfolding validate_judgment
  validate_judgment-InBounds v j h = record { low = ground arith; high = ground arith }

  run_judge_call-Ends :
      (reply : Deltas) → Ends Unchanged (λ j d. (d ≡ db) × InBounds j) (run_judge_call env reply db)
  unfolding run_judge_call
  run_judge_call-Ends reply = Ends-stream _ _ _ db _ _ refl (λ parsed.
      Ends-require_last _ _ _ _ db refl (λ j e. (refl, validate_judgment-InBounds parsed j e)))

  run_model_answer_call-Ends :
      (reply : Deltas) → Ends Unchanged (λ _ d. d ≡ db) (run_model_answer_call env reply db)
  unfolding run_model_answer_call
  run_model_answer_call-Ends reply =
      Ends-stream _ _ _ db _ _ refl (λ parsed. Ends-require_last _ _ _ _ db refl (λ a e. refl))

  answered-Ends :
      (evs : List (Wire V)) (d : Db V) (r : Result Text)
      → EndsAt Unchanged (λ _ x. x ≡ db) d r
      → Ends Unchanged (λ _ x. x ≡ db) (answered env evs d r)
  unfolding answered
  answered-Ends evs d (returned a) h = record { at = h }
  answered-Ends evs d (threw e) h = record { at = h }

  -- Whatever happens to the model answer, the evaluation goes on.
  try_model_answer-Ends :
      (reply : Deltas) → Ends Unchanged (λ _ d. d ≡ db) (try_model_answer env reply db)
  unfolding try_model_answer
  try_model_answer-Ends reply = answered-Ends _ _ _ (run_model_answer_call-Ends reply).at

  -- An evaluation that raises leaves the database as it was. One that returns has found an open thread
  -- of the session, has closed it with a score between 1 and 10, reports how many questions remain,
  -- and has completed the session exactly if as many threads are closed as it has questions.
  pub stream_thread_evaluation-Ends :
      (s : Supply) (session_id user_id thread_id thread_index : ℕ) (round_type : String)
      → Ends Unchanged
          (ClosePost session_id user_id thread_id db)
          (stream_thread_evaluation env s session_id user_id thread_id thread_index round_type db)
  unfolding stream_thread_evaluation
  stream_thread_evaluation-Ends s session_id user_id thread_id thread_index round_type =
      Ends-reads _ _ _ _ db (
        Ends-require _ _ _ _ _ db refl (λ sess found. Ends-reads _ _ _ _ db (
          Ends-require _ _ _ _ _ db refl (λ thread found_thread.
            Ends-guard _ _ _ _ _ db refl (λ same. Ends-guard _ _ _ _ _ db refl (λ on.
              Ends-require _ _ _ _ _ db refl (λ strategy known. Ends-tell _ _ _ _ db (
                Ends-bind_known _ _ InBounds _ _ db (run_judge_call-Ends s.reply) (λ j within.
                  Ends-bind_same _ _ _ _ db (try_model_answer-Ends s.model_answer) (λ a.
                    close_evaluated-Ends env session_id user_id thread_id thread_index db
                      (record {
                        session = sess;
                        thread = thread;
                        found = found;
                        found_thread = found_thread;
                        same_session = ground arith;
                        still_open = on;
                      })
                      j within.low within.high a))))))))))
