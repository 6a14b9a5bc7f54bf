-- ===== src/Interview/Graph/Closing.antt =====
-- What `node_evaluator` of agents/graph_nodes.py leaves, whichever way it ends.
use interview_coach.Interview.Graph.At.{Placed, At}
use interview_coach.Base.{◌⊎◌, inl, inr, map}
use interview_coach.Db.Rows.{session_key, set_status}
use interview_coach.Interview.Evaluator.{Evaluated}
use interview_coach.Interview.Evaluator.Post.{ClosePost}
use interview_coach.Interview.Graph.Bounded.{Bounded, Bounded-closed}
use interview_coach.Base.{ℕ, ◌≡◌, refl, subst, Option, none, some}
use interview_coach.Db.Models.{SessionStatus, active, complete, abandoned, Db}
use interview_coach.Interview.Effects.Ends.{Ends, Ends-bind, Ends-require, Ends-pure}
use interview_coach.Interview.State.{InterviewState, Env, Supply}
use interview_coach.Interview.Evaluator.Post.{stream_thread_evaluation-Ends}
use interview_coach.Interview.Graph.{evaluator, after_evaluator, node_evaluator}
use interview_coach.Interview.Graph.Linked.{OpenThread, LinkedAt, LinkedAt-closed}

module _ {V : Type 0} (env : Env V) (s : Supply) (lost : ℕ) where
  after_evaluator-Placed : (o : Option SessionStatus) → Placed (after_evaluator o) none
  unfolding after_evaluator
  after_evaluator-Placed none = tt
  after_evaluator-Placed (some active) = tt
  after_evaluator-Placed (some complete) = tt
  after_evaluator-Placed (some abandoned) = tt

  sessions_after :
      (t : ℕ) (d : Db V) (ev : Evaluated) (st : InterviewState V) (db : Db V)
      (p : ClosePost st.session_id st.user_id t db ev d)
      → (d.sessions ≡ map (set_status (session_key st.session_id st.user_id) complete) db.sessions)
        ⊎ (d.sessions ≡ db.sessions)
  sessions_after t d ev st db p = elim p.finished [ inl last ↦ inl last.2 | inr more ↦ inr more.2 ]

  closed_by :
      (t : ℕ) (d : Db V) (ev : Evaluated) (st : InterviewState V) (db : Db V)
      (p : ClosePost st.session_id st.user_id t db ev d)
      → OpenThread lost st.session_id st.round_type t st.thread_index st.followups_used db
      → Bounded st.session_id st.user_id st.n_questions db
      → Bounded st.session_id st.user_id st.n_questions d
  closed_by t d ev st db p h b =
      Bounded-closed db d st.session_id st.user_id st.n_questions h.row t p.judgment.score
        p.judgment.feedback p.model_answer b h.only h.row_id p.threads
        (sessions_after t d ev st db p)

  pub node_evaluator-Ends :
      (st : InterviewState V) (db : Db V)
      → At lost evaluator st db
      → Ends
          (λ d. d ≡ db)
          (λ st' d. At 0 (after_evaluator st'.session_status) st' d)
          (node_evaluator env s st db)
  unfolding node_evaluator
  node_evaluator-Ends st db h = Ends-require _ _ _ _ _ db refl (λ t here.
      Ends-bind _ _ _ _ _ db
        (stream_thread_evaluation-Ends env db s st.session_id st.user_id t st.thread_index
          st.round_type)
        (λ ev d p. Ends-pure _ _ _ d (record {
          linked =
              LinkedAt-closed lost db d st.session_id st.round_type t st.thread_index
                st.followups_used p.judgment.score p.judgment.feedback p.model_answer
                (subst
                  (λ o.
                    LinkedAt lost st.session_id st.round_type o st.thread_index st.followups_used
                      db)
                  here h.linked)
                p.threads;
          placed = after_evaluator-Placed (some ev.session_status);
          bounded =
              closed_by t d ev st db p
                (subst
                  (λ o.
                    LinkedAt lost st.session_id st.round_type o st.thread_index st.followups_used
                      db)
                  here h.linked)
                h.bounded;
        })))
