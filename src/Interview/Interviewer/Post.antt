-- ===== src/Interview/Interviewer/Post.antt =====
-- What opening a thread leaves in the database, on every path.
use interview_coach.Base.{ℕ, ◌<◌, ◌≡◌, refl, true, Option, none, some, [], ◌∷◌, ◌++◌, keep, arith}
use interview_coach.Db.Models.{open_thread, SessionRow, ThreadRow, MessageRow, interviewer, Db}
use interview_coach.Db.Rows.{is_active, in_thread}
use interview_coach.Db.Threads.{get_session, get_thread, count_closed_threads}
use interview_coach.Db.Threads.Laws.{
  asked, asked-append, asked_silent, create_thread_lem, append_message_first,
}
use interview_coach.Interview.Effects.Ends.{
  Ends, Ends-bind_same, Ends-stream, Ends-require, Ends-reads, Ends-tell, Ends-guard,
  Ends-insert_known, Ends-insert_to, Ends-require_last, Ends-pure,
}
use interview_coach.Interview.State.{Env, Supply}
use interview_coach.Interview.Interviewer.{
  Opened, load_profile, load_job, load_snapshot, load_context, stream_question, stream_open_thread,
}

-- An id that no thread and no message uses, as `uuid4` gives it.
pub record FreshThread {V : Type 0} (db : Db V) (thread_id : ℕ) : Type 0 where
  pub unused : get_thread db thread_id ≡ none
  pub silent : keep (in_thread thread_id) db.messages ≡ []

pub record OpenPost {V : Type 0} (s : Supply) (session_id user_id : ℕ) (db : Db V) (o : Opened)
    (db' : Db V) : Type 0 where
  pub session : SessionRow
  pub row : ThreadRow
  pub found : get_session db session_id user_id ≡ some session
  pub session_active : is_active session.status ≡ true
  pub room : o.thread_index < session.n_questions
  pub next_index : o.thread_index ≡ count_closed_threads db session_id
  pub opened_id : o.thread_id ≡ s.thread_id
  pub row_id : row.id ≡ s.thread_id
  pub row_session : row.session_id ≡ session_id
  pub row_index : row.thread_index ≡ o.thread_index
  pub row_open : row.status ≡ open_thread
  pub threads : db'.threads ≡ db.threads ++ row ∷ []
  pub sessions : db'.sessions ≡ db.sessions
  pub asked_once : asked db'.messages s.thread_id ≡ 1

module _ {V : Type 0} (env : Env V) (db : Db V) where
  load_profile-Ends :
      (user_id : ℕ) (o : Option V)
      → Ends (λ d. d ≡ db) (λ _ d. d ≡ db) (load_profile env user_id o db)
  unfolding load_profile
  load_profile-Ends user_id (some v) = Ends-pure _ _ _ db refl
  load_profile-Ends user_id none =
      Ends-reads _ _ _ _ db (Ends-require _ _ _ _ _ db refl (λ found e. Ends-pure _ _ _ db refl))

  load_job-Ends :
      (job_id user_id : ℕ) (o : Option V)
      → Ends (λ d. d ≡ db) (λ _ d. d ≡ db) (load_job env job_id user_id o db)
  unfolding load_job
  load_job-Ends job_id user_id (some v) = Ends-pure _ _ _ db refl
  load_job-Ends job_id user_id none = Ends-reads _ _ _ _ db (
      Ends-require _ _ _ _ _ db refl (λ job e.
        Ends-require _ _ _ _ _ db refl
          (λ parsed e'. Ends-guard _ _ _ _ _ db refl (λ t. Ends-pure _ _ _ db refl))))

  load_snapshot-Ends :
      (job_id : ℕ) (o : Option V)
      → Ends (λ d. d ≡ db) (λ _ d. d ≡ db) (load_snapshot env job_id o db)
  unfolding load_snapshot
  load_snapshot-Ends job_id (some v) = Ends-pure _ _ _ db refl
  load_snapshot-Ends job_id none =
      Ends-reads _ _ _ _ db (Ends-require _ _ _ _ _ db refl (λ found e. Ends-pure _ _ _ db refl))

  load_context-Ends :
      (row : SessionRow) (p j c : Option V)
      → Ends (λ d. d ≡ db) (λ _ d. d ≡ db) (load_context env row p j c db)
  unfolding load_context
  load_context-Ends row p j c = Ends-bind_same _ _ _ _ db (load_profile-Ends row.user_id p) (λ p'.
      Ends-bind_same _ _ _ _ db (load_job-Ends row.job_id row.user_id j) (λ j'.
        Ends-bind_same _ _ _ _ db (load_snapshot-Ends row.job_id c)
          (λ c'. Ends-pure _ _ _ db refl)))

  module _ (s : Supply) where
    stream_question-Ends : Ends (λ d. d ≡ db) (λ _ d. d ≡ db) (stream_question env s.reply db)
    unfolding stream_question
    stream_question-Ends =
        Ends-stream _ _ _ db _ _ refl (λ parsed. Ends-require_last _ _ _ _ db refl (λ q e. refl))

    -- The two inserts, once the model has answered.
    opened_rows :
        (session_id user_id : ℕ) (session : SessionRow) (o : Opened) (t : ThreadRow)
        (m : MessageRow)
        → FreshThread db s.thread_id
        → get_session db session_id user_id ≡ some session
        → is_active session.status ≡ true
        → o.thread_index < session.n_questions
        → o.thread_index ≡ count_closed_threads db session_id
        → o.thread_id ≡ s.thread_id
        → t.id ≡ s.thread_id
        → t.session_id ≡ session_id
        → t.thread_index ≡ o.thread_index
        → t.status ≡ open_thread
        → m.thread_id ≡ s.thread_id
        → m.role ≡ interviewer
        → OpenPost s session_id user_id db o
            (record db { threads = db.threads ++ t ∷ []; messages = db.messages ++ m ∷ [] })
    opened_rows session_id user_id session o t m fresh found on room index oid tid ts ti to mt mr =
        record {
          session = session;
          row = t;
          found = found;
          session_active = on;
          room = room;
          next_index = index;
          opened_id = oid;
          row_id = tid;
          row_session = ts;
          row_index = ti;
          row_open = to;
          threads = refl;
          sessions = refl;
          asked_once = ground (
            arith,
            asked-append db.messages m s.thread_id,
            asked_silent db.messages s.thread_id fresh.silent,
          );
        }

    -- With a thread id that is not in use, opening a thread leaves the database as it was if it
    -- raises. If it returns, the session is active and has a question left, and what was added is one
    -- open thread, with the next index and with one question.
    pub stream_open_thread-Ends :
        (session_id user_id : ℕ) (p j c : Option V)
        → FreshThread db s.thread_id
        → Ends
            (λ d. d ≡ db)
            (OpenPost s session_id user_id db)
            (stream_open_thread env s session_id user_id p j c db)
    unfolding stream_open_thread
    stream_open_thread-Ends session_id user_id p j c fresh = Ends-reads _ _ _ _ db (
        Ends-require _ _ _ _ _ db refl (λ row found. Ends-guard _ _ _ _ _ db refl (λ on.
          Ends-reads _ _ _ _ db (
            Ends-guard _ _ _ _ _ db refl (λ room.
              Ends-bind_same _ _ _ _ db (load_context-Ends row p j c) (λ ctx.
                Ends-require _ _ _ _ _ db refl (λ strategy known. Ends-tell _ _ _ _ db (
                  Ends-bind_same _ _ _ _ db stream_question-Ends (λ q.
                    Ends-insert_to _ _ _ _ db _ (λ d h. create_thread_lem db d _ h) refl
                      (Ends-insert_known _ _ _ _ _ _ (append_message_first _ _ fresh.silent) (
                        Ends-tell _ _ _ _ _ (
                          Ends-pure _ _ _ _ (
                            opened_rows session_id user_id row _ _ _ fresh found on (ground arith)
                              refl refl refl refl refl refl refl refl)))))))))))))
