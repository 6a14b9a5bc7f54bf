-- ===== src/Interview/Route/Cuts.antt =====
-- The commits of the nodes: what a run leaves in the database when it fails or is cut off between
-- two of them, or when its checkpoint is lost.
use interview_coach.Base.{
  ℕ, ◌+◌, ◌<◌, ◌≡◌, refl, ap, subst, ◌∙◌, Option, none, some, List, [], ◌∷◌, ◌++◌, keep, arith,
}
use interview_coach.Text.{Text}
use interview_coach.Db.Models.{open_thread, SessionRow, ThreadRow, Db}
use interview_coach.Db.Rows.{committed, in_thread, open_in, new_thread}
use interview_coach.Db.Threads.{get_session, count_closed_threads, create_thread}
use interview_coach.Db.Threads.Laws.{asked, asked_silent, create_thread_lem}
use interview_coach.Interview.Effects.{Exn, threw}
use interview_coach.Interview.Effects.Ends.{Ends-either, Ends-threw}
use interview_coach.Interview.Frames.{Frame, Frame-refl, Frame-same}
use interview_coach.Interview.State.{InterviewState, Env, Supply}
use interview_coach.Interview.Interviewer.Post.{FreshThread}
use interview_coach.Interview.Graph.{
  Node, interviewer, evaluator, persist_pending_candidate, node_interviewer, node_evaluator,
}
use interview_coach.Interview.Graph.Bounded.{Bounded, Bounded-same, Bounded-first}
use interview_coach.Interview.Graph.Linked.{LinkedAt, LinkedAt-Frame, OpenThread-first}
use interview_coach.Interview.Graph.At.{At}
use interview_coach.Interview.Graph.Post.{persist_pending_candidate-Ends, node_interviewer-Ends}
use interview_coach.Interview.Graph.Closing.{node_evaluator-Ends}

-- The database that a run leaves when its last checkpoint is not the state that belongs to it.
pub data Leaves {V : Type 0} (env : Env V) : Node → InterviewState V → Db V → Db V → Type 0 where
  -- The checkpoint is lost, or a node is cut off before its first commit.
  nothing_written : (node : Node) (st : InterviewState V) (db : Db V) → Leaves env node st db db
  interviewer_fails :
      (s : Supply) (st : InterviewState V) (db : Db V) (e : Exn)
      → FreshThread db s.thread_id
      → (node_interviewer env s st db).result ≡ threw e
      → Leaves env interviewer st db (node_interviewer env s st db).db
  evaluator_fails :
      (s : Supply) (st : InterviewState V) (db : Db V) (e : Exn)
      → (node_evaluator env s st db).result ≡ threw e
      → Leaves env evaluator st db (node_evaluator env s st db).db
  -- Cut off after the commit of the candidate's answer
  answer_written :
      (s : Supply) (st : InterviewState V) (db : Db V)
      → Leaves env interviewer st db
          (persist_pending_candidate env s st.pending_message st.thread_id db).db
  -- Cut off between the commit of a new thread and that of its question
  thread_written :
      (s : Supply) (st : InterviewState V) (db d : Db V) (row : SessionRow) (anchors : List Text)
      (focus_key focus_label : Option Text) (ids : Option (List Text))
      → st.thread_id ≡ none
      → FreshThread db s.thread_id
      → get_session db st.session_id st.user_id ≡ some row
      → count_closed_threads db st.session_id < row.n_questions
      → create_thread db (
          new_thread st.session_id
            (count_closed_threads db st.session_id)
            anchors
            focus_key
            focus_label
            ids
            s.thread_id)
        ≡ committed d
      → Leaves env interviewer st db d

-- What is linked to the database that is left.
pub record Left {V : Type 0} (st : InterviewState V) (d : Db V) : Type 0 where
  pub lost : ℕ
  pub thread : Option ℕ
  pub index : ℕ
  pub used : ℕ
  pub linked : LinkedAt lost st.session_id st.round_type thread index used d
  pub bounded : Bounded st.session_id st.user_id st.n_questions d

module _ {V : Type 0} (env : Env V) where
  Frame-Left :
      (lost : ℕ) (node : Node) (st : InterviewState V) (db d : Db V)
      → At lost node st db
      → Frame db d
      → Left st d
  Frame-Left lost node st db d h f = record {
    lost = lost;
    thread = st.thread_id;
    index = st.thread_index;
    used = st.followups_used;
    linked =
        LinkedAt-Frame lost db d st.session_id st.round_type st.thread_id st.thread_index
          st.followups_used f h.linked;
    bounded =
        Bounded-same db d st.session_id st.user_id st.n_questions f.sessions f.threads h.bounded;
  }

  -- A thread that was never asked
  unasked-Left :
      (st : InterviewState V) (db d : Db V) (session : SessionRow) (row : ThreadRow)
      → d ≡ record db { threads = db.threads ++ row ∷ [] }
      → row.session_id ≡ st.session_id
      → row.status ≡ open_thread
      → keep (in_thread row.id) db.messages ≡ []
      → keep (open_in st.session_id) db.threads ≡ []
      → get_session db st.session_id st.user_id ≡ some session
      → count_closed_threads db st.session_id < session.n_questions
      → Bounded st.session_id st.user_id st.n_questions db
      → Left st d
  unasked-Left st db d session row e of_session is_open silent none_open found room b = record {
    lost = 1;
    thread = some row.id;
    index = row.thread_index;
    used = 0;
    linked =
        OpenThread-first 1 db d st.session_id st.round_type row.id row.thread_index row none_open
          (ap (λ x. x.threads) e) (ground (arith, of_session, is_open)) refl refl
          (ap (λ x. asked x.messages row.id + 1) e
            ∙ ap (λ n. n + 1) (asked_silent db.messages row.id silent));
    bounded =
        Bounded-first db d st.session_id st.user_id st.n_questions session row b found room
          none_open (ground (arith, of_session, is_open)) (ap (λ x. x.sessions) e)
          (ap (λ x. x.threads) e);
  }

  pub Leaves-Left :
      (lost : ℕ) (node : Node) (st : InterviewState V) (db d : Db V)
      → Leaves env node st db d
      → At lost node st db
      → Left st d
  Leaves-Left lost node _ _ _ (nothing_written node' st db) h =
      Frame-Left lost node st db db h (Frame-refl db)
  Leaves-Left lost node _ _ _ (interviewer_fails s st db e fresh raised) h =
      Frame-Left lost interviewer st db _ h
        (Ends-threw _ _ _ e (node_interviewer-Ends env s lost st db h fresh) raised)
  Leaves-Left lost node _ _ _ (evaluator_fails s st db e raised) h =
      Frame-Left lost evaluator st db _ h
        (Frame-same db _ (Ends-threw _ _ _ e (node_evaluator-Ends env s lost st db h) raised))
  Leaves-Left lost node _ _ _ (answer_written s st db) h = Frame-Left lost interviewer st db _ h (
      Ends-either (Frame db) _
        (persist_pending_candidate-Ends env s lost st st.pending_message st.thread_id db))
  Leaves-Left lost node _ _ d
        (thread_written s st db d' row anchors key label ids here fresh found room made) h =
      unasked-Left st db d' row
        (new_thread st.session_id (count_closed_threads db st.session_id) anchors key label ids
          s.thread_id)
        (create_thread_lem db d' _ made) refl refl fresh.silent
        (subst
          (λ o. LinkedAt lost st.session_id st.round_type o st.thread_index st.followups_used db)
          here h.linked).0
        found room h.bounded
