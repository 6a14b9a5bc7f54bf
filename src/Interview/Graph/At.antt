-- ===== src/Interview/Graph/At.antt =====
-- What holds wherever the graph is about to run a node, or has stopped.
use interview_coach.Interview.Graph.Bounded.{Bounded}
use interview_coach.Base.{ℕ, ◌≢◌, Option, none}
use interview_coach.Db.Models.{Db}
use interview_coach.Interview.State.{InterviewState}
use interview_coach.Interview.Graph.{Node, interviewer, evaluator, await_candidate, end}
use interview_coach.Interview.Graph.Linked.{Linked}

-- The evaluator needs a thread.
abbrev pub Placed : Node → Option ℕ → Type 0
Placed evaluator o = o ≢ none
Placed interviewer o = Unit
Placed await_candidate o = Unit
Placed end o = Unit

-- What holds where the graph is about to run a node, or has stopped at one, when `lost` messages of
-- the open thread are lost.
pub record At {V : Type 0} (lost : ℕ) (node : Node) (st : InterviewState V) (db : Db V)
    : Type 0 where
  pub linked : Linked lost st db
  pub placed : Placed node st.thread_id
  pub bounded : Bounded st.session_id st.user_id st.n_questions db
