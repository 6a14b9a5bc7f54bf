-- ===== src/Interview/Route/Reach.antt =====
-- The states that a session's graph can be in: a step relation over its nodes, the candidate's
-- messages, and restarts after a node has failed or was cut off, or the checkpoint was lost.
use interview_coach.Base.{ℕ, ◌≤◌, ◌≡◌, refl, sym, subst, Option, some, [], keep, arith}
use interview_coach.Text.{Text}
use interview_coach.Db.Models.{SessionRow, ThreadRow, Db}
use interview_coach.Db.Rows.{open_in}
use interview_coach.Db.Threads.{get_session, get_open_thread, count_closed_threads}
use interview_coach.Db.Threads.Laws.{asked}
use interview_coach.Interview.Effects.{returned}
use interview_coach.Interview.Effects.Ends.{Ends-returned}
use interview_coach.Interview.State.{InterviewState, Env, Supply}
use interview_coach.Interview.Interviewer.Post.{FreshThread}
use interview_coach.Interview.Graph.{
  Node, interviewer, evaluator, await_candidate, Pause, after_interviewer, after_evaluator,
  node_await_candidate, node_interviewer, node_evaluator,
}
use interview_coach.Interview.Graph.Bounded.{Bounded-session}
use interview_coach.Interview.Graph.Linked.{LinkedAt}
use interview_coach.Interview.Graph.At.{At}
use interview_coach.Interview.Graph.Post.{node_interviewer-Ends}
use interview_coach.Interview.Graph.Closing.{node_evaluator-Ends}
use interview_coach.Interview.Route.Cuts.{Leaves, Left, Leaves-Left}
use interview_coach.Interview.Route.{fresh_input, adopt}
use interview_coach.Interview.Route.Recovery.{lacking, read_back-LinkedAt}

pub data Reach {V : Type 0} (env : Env V) : Node → InterviewState V → Db V → Type 0 where
  -- A run where no thread is open: of a new session, or after a cut.
  begins :
      (sess : SessionRow) (checkpoint : Option (Pause V)) (db : Db V)
      → get_session db sess.id sess.user_id ≡ some sess
      → count_closed_threads db sess.id ≤ sess.n_questions
      → keep (open_in sess.id) db.threads ≡ []
      → Reach env interviewer (fresh_input sess checkpoint db) db
  interviews :
      (s : Supply) (st st' : InterviewState V) (db : Db V)
      → Reach env interviewer st db
      → FreshThread db s.thread_id
      → (node_interviewer env s st db).result ≡ returned st'
      → Reach env (after_interviewer st'.next_move) st' (node_interviewer env s st db).db
  evaluates :
      (s : Supply) (st st' : InterviewState V) (db : Db V)
      → Reach env evaluator st db
      → (node_evaluator env s st db).result ≡ returned st'
      → Reach env (after_evaluator st'.session_status) st' (node_evaluator env s st db).db
  answers :
      (message : Text) (st : InterviewState V) (db : Db V)
      → Reach env await_candidate st db
      → Reach env interviewer (node_await_candidate message st) db
  recovers :
      (node : Node) (st : InterviewState V) (db d : Db V) (sess : SessionRow) (row : ThreadRow)
      (checkpoint : Option (Pause V)) (message : Text)
      → Reach env node st db
      → Leaves env node st db d
      → get_session d sess.id sess.user_id ≡ some sess
      → sess.id ≡ st.session_id
      → sess.user_id ≡ st.user_id
      → sess.round_type ≡ st.round_type
      → get_open_thread d sess.id ≡ some row
      → Reach env interviewer (adopt row message d (fresh_input sess checkpoint d)) d

-- The state agrees with the database, but for at most one message of the open thread.
pub record Agrees {V : Type 0} (node : Node) (st : InterviewState V) (db : Db V) : Type 0 where
  pub lost : ℕ
  pub few : lost ≤ 1
  pub at : At lost node st db

module _ {V : Type 0} (env : Env V) where
  -- What the state of that run held is read back from the database that it left.
  recovered-Agrees :
      (st : InterviewState V) (d : Db V) (sess : SessionRow) (row : ThreadRow)
      (checkpoint : Option (Pause V)) (message : Text)
      → Left st d
      → get_session d sess.id sess.user_id ≡ some sess
      → sess.id ≡ st.session_id
      → sess.user_id ≡ st.user_id
      → sess.round_type ≡ st.round_type
      → get_open_thread d sess.id ≡ some row
      → Agrees interviewer (adopt row message d (fresh_input sess checkpoint d)) d
  unfolding fresh_input adopt
  recovered-Agrees st d sess row checkpoint message h found same_id same_user same_round back =
      record {
        lost = lacking d (asked d.messages row.id);
        few = omega arith;
        at = record {
          linked =
              read_back-LinkedAt d h.lost sess.id sess.round_type h.thread h.index h.used row
                (subst (λ i. LinkedAt h.lost i sess.round_type h.thread h.index h.used d)
                  (sym same_id)
                  (subst (λ x. LinkedAt h.lost st.session_id x h.thread h.index h.used d)
                    (sym same_round) h.linked))
                back;
          placed = tt;
          bounded =
              Bounded-session d st.session_id st.user_id st.n_questions sess same_id same_user found
                h.bounded;
        };
      }

  pub Reach-Agrees :
      (node : Node) (st : InterviewState V) (db : Db V) → Reach env node st db → Agrees node st db
  unfolding fresh_input node_await_candidate
  Reach-Agrees _ _ _ (begins sess checkpoint db found closed none_open) = record {
    lost = 0;
    few = omega arith;
    at = record {
      linked = (none_open, refl);
      placed = tt;
      bounded = record {
        row = sess;
        found = found;
        same_number = refl;
        within = ground (arith, none_open, closed);
      };
    };
  }
  Reach-Agrees _ _ _ (interviews s st st' db r fresh got) =
      let h = Reach-Agrees interviewer st db r in
      record {
        lost = h.lost;
        few = h.few;
        at = Ends-returned _ _ _ st' (node_interviewer-Ends env s h.lost st db h.at fresh) got;
      }
  Reach-Agrees _ _ _ (evaluates s st st' db r got) =
      let h = Reach-Agrees evaluator st db r in
      record {
        lost = 0;
        few = omega arith;
        at = Ends-returned _ _ _ st' (node_evaluator-Ends env s h.lost st db h.at) got;
      }
  Reach-Agrees _ _ _ (answers message st db r) =
      let h = Reach-Agrees await_candidate st db r in
      record {
        lost = h.lost;
        few = h.few;
        at = record { linked = h.at.linked; placed = tt; bounded = h.at.bounded };
      }
  Reach-Agrees _ _ _
        (recovers node st db d sess row checkpoint message r f found same_id same_user same_round
          back) =
      let h = Reach-Agrees node st db r in
      recovered-Agrees st d sess row checkpoint message (Leaves-Left env h.lost node st db d f h.at)
        found same_id same_user same_round back
