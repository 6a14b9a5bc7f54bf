-- ===== src/Interview/Route/Answers.antt =====
-- `session_message` of api/sessions/routes.py: what a message meets, and that its run ends.
use interview_coach.Base.{
  ℕ, ◌≡◌, ◌≢◌, refl, sym, ap, ◌∙◌, subst, Bool, true, false, ◌||◌, Option, none, some, [], ◌∷◌,
  if◌then◌else◌,
}
use interview_coach.Text.{Text}
use interview_coach.Db.Models.{SessionRow, ThreadRow, Db}
use interview_coach.Db.Rows.{is_active}
use interview_coach.Db.Threads.{get_session, get_open_thread, list_messages_for_thread}
use interview_coach.Interview.State.{InterviewState, Env, Supply}
use interview_coach.Interview.Graph.{
  interviewer, Pause, Invoked, awaiting, ended, crashed, running, drive, node_await_candidate,
}
use interview_coach.Interview.Graph.Stops.{Stopped, drive_stops}
use interview_coach.Interview.Route.Refusals.{paused, opened}
use interview_coach.Interview.Route.{
  HttpError, not_found, conflict_status, empty_message, followups_of, message_of, Response, refused,
  streamed, fresh_input, adopt, run_fuel, start_adopted, start_fresh, resume_paused,
  resume_or_start, active_session, session_message,
}

module _ {V : Type 0} (db : Db V) (sess : SessionRow) (checkpoint : Option (Pause V))
    (msg : Text) where
  -- The state is that of the session.
  pub record OfSession (st : InterviewState V) : Type 0 where
    pub user : st.user_id ≡ sess.user_id
    pub session : st.session_id ≡ sess.id
    pub round : st.round_type ≡ sess.round_type
    pub questions : st.n_questions ≡ sess.n_questions

  -- The state from which the interviewer runs on the message
  pub data Starts : InterviewState V → Type 0 where
    -- The graph is paused: its state, with the answer.
    resumes :
        (st : InterviewState V)
        → checkpoint ≡ some (awaiting st)
        → msg ≢ []
        → Starts (record st { pending_message = some msg })
    -- It is not, and a thread is open: the thread, with the answer.
    adopts :
        (row : ThreadRow) (st : InterviewState V)
        → paused checkpoint ≡ false
        → get_open_thread db sess.id ≡ some row
        → msg ≢ []
        → OfSession st
        → st.thread_id ≡ some row.id
        → st.thread_index ≡ row.thread_index
        → st.followups_used ≡ followups_of (list_messages_for_thread db row.id)
        → st.pending_message ≡ some msg
        → Starts st
    -- It is not, and no thread is open: no thread, and no answer.
    opens :
        (st : InterviewState V)
        → paused checkpoint ≡ false
        → get_open_thread db sess.id ≡ none
        → OfSession st
        → st.thread_id ≡ none
        → st.pending_message ≡ none
        → Starts st

module _ {V : Type 0} (env : Env V) (supply : ℕ → Supply) (db : Db V) (session_id user_id : ℕ)
    (checkpoint : Option (Pause V)) (message : Option Text) where
  -- Why the message is refused
  pub data Refusal : HttpError → Type 0 where
    absent : get_session db session_id user_id ≡ none → Refusal not_found
    inactive :
        (sess : SessionRow)
        → get_session db session_id user_id ≡ some sess
        → is_active sess.status ≡ false
        → Refusal (conflict_status sess.status)
    unanswered :
        (sess : SessionRow)
        → get_session db session_id user_id ≡ some sess
        → is_active sess.status ≡ true
        → message_of env message ≡ []
        → (paused checkpoint || opened (get_open_thread db sess.id)) ≡ true
        → Refusal empty_message

  -- The session is the user's and active, and the run from the state of the message has stopped.
  pub record Runs (r : Invoked V) : Type 0 where
    pub sess : SessionRow
    pub found : get_session db session_id user_id ≡ some sess
    pub is_open : is_active sess.status ≡ true
    pub st : InterviewState V
    pub starts : Starts db sess checkpoint (message_of env message) st
    pub run : r ≡ drive env run_fuel supply interviewer st db
    pub stops : Stopped r.pause

  abbrev pub Answered : Response V → Type 0
  Answered (refused e) = Refusal e
  Answered (streamed r) = Runs r

  module _ (sess : SessionRow) (found : get_session db session_id user_id ≡ some sess)
      (is_open : is_active sess.status ≡ true) where
    runs :
        (msg : Text) (st : InterviewState V)
        → message_of env message ≡ msg
        → Starts db sess checkpoint msg st
        → Runs (drive env run_fuel supply interviewer st db)
    runs msg st m s = record {
      sess = sess;
      found = found;
      is_open = is_open;
      st = st;
      starts = subst (λ t. Starts db sess checkpoint t st) (sym m) s;
      run = refl;
      stops = drive_stops env supply 1 st db;
    }

    start_adopted-Answered :
        (o : Option ThreadRow) (msg : Text)
        → get_open_thread db sess.id ≡ o
        → message_of env message ≡ msg
        → paused checkpoint ≡ false
        → Answered (start_adopted env supply o msg db (fresh_input sess checkpoint db))
    unfolding start_adopted fresh_input adopt
    start_adopted-Answered none msg o m p = runs msg _ m (
        opens _ p o (record { user = refl; session = refl; round = refl; questions = refl }) refl
          refl)
    start_adopted-Answered (some row) [] o m p = unanswered sess found is_open m (rw (p, o) refl)
    start_adopted-Answered (some row) (ch ∷ msg) o m p = runs (ch ∷ msg) _ m (
        adopts row _ p o (λ e. cc)
          (record { user = refl; session = refl; round = refl; questions = refl }) refl refl refl
          refl)

    start_fresh-Answered :
        paused checkpoint ≡ false
        → Answered (start_fresh env supply sess checkpoint (message_of env message) db)
    unfolding start_fresh
    start_fresh-Answered p =
        start_adopted-Answered (get_open_thread db sess.id) (message_of env message) refl refl p

    resume_paused-Answered :
        (st : InterviewState V) (msg : Text)
        → checkpoint ≡ some (awaiting st)
        → message_of env message ≡ msg
        → Answered (resume_paused env supply msg st db)
    unfolding resume_paused node_await_candidate
    resume_paused-Answered st [] c m = unanswered sess found is_open m (rw c refl)
    resume_paused-Answered st (ch ∷ msg) c m = runs (ch ∷ msg) _ m (resumes st c (λ e. cc))

    not_paused-Answered :
        (o : Option (Pause V))
        → checkpoint ≡ o
        → paused o ≡ false
        → Answered (start_fresh env supply sess o (message_of env message) db)
    not_paused-Answered o c p =
        subst (λ k. Answered (start_fresh env supply sess k (message_of env message) db)) c
          (start_fresh-Answered (ap paused c ∙ p))

    resume_or_start-Answered :
        (o : Option (Pause V))
        → checkpoint ≡ o
        → Answered (resume_or_start env supply sess o (message_of env message) db)
    unfolding resume_or_start
    resume_or_start-Answered none c = not_paused-Answered _ c refl
    resume_or_start-Answered (some (awaiting st)) c =
        resume_paused-Answered st (message_of env message) c refl
    resume_or_start-Answered (some (ended st)) c = not_paused-Answered _ c refl
    resume_or_start-Answered (some (crashed n st e)) c = not_paused-Answered _ c refl
    resume_or_start-Answered (some (running n st)) c = not_paused-Answered _ c refl

  active_session-Answered :
      (sess : SessionRow) (b : Bool)
      → get_session db session_id user_id ≡ some sess
      → is_active sess.status ≡ b
      → Answered (
          if b
          then resume_or_start env supply sess checkpoint (message_of env message) db
          else refused (conflict_status sess.status))
  active_session-Answered sess true f a = resume_or_start-Answered sess f a checkpoint refl
  active_session-Answered sess false f a = inactive sess f a

  found-Answered :
      (o : Option SessionRow)
      → get_session db session_id user_id ≡ o
      → Answered (elim o [
        | none ↦ refused not_found
        | some sess ↦ active_session env supply sess checkpoint message db
      ])
  unfolding active_session
  found-Answered none f = absent f
  found-Answered (some sess) f = active_session-Answered sess (is_active sess.status) f refl

  -- A message is refused for one of three reasons: the session is not the user's; it is not active;
  -- or the text is empty where the graph is paused or a thread is open. Every other message runs the
  -- graph from the interviewer: from the paused state with the answer, or else from the open thread
  -- of the session, with its follow-up count and the answer, or else without a thread and an answer;
  -- and the run stops within its fuel, parked, at the end, or with the error of a node.
  pub session_message-Answered :
      Answered (session_message env supply session_id user_id checkpoint message db)
  unfolding session_message
  session_message-Answered = found-Answered (get_session db session_id user_id) refl
