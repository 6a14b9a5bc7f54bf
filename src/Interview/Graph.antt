-- ===== src/Interview/Graph.antt =====
-- The interview nodes of agents/graph_nodes.py and the edges of `build_interview_graph` in
-- agents/graph.py.
pub mod Linked
pub mod Bounded
pub mod Stops
pub mod At
pub mod Closing
pub mod Post
use interview_coach.Base.{
  ℕ, zero, suc, ◌+◌, Bool, true, false, Option, none, some, List, [], ◌∷◌, ◌++◌, leb, if◌then◌else◌,
}
use interview_coach.Text.{Text}
use interview_coach.Rounds.{get_round_strategy, conductor_allowed_actions}
use interview_coach.Db.Models.{
  SessionStatus, active, complete, abandoned, MoveKind, question, candidate, Db,
}
use interview_coach.Db.Threads.{append_message, count_messages_for_thread}
use interview_coach.Interview.Effects.{
  M, Ran, Result, returned, threw, Exn, session_complete, thread_not_found, unknown_round_type,
  profile_missing, job_not_found, job_not_analyzed, company_snapshot_missing, Wire, error, pure,
  throw, require, reads, ◌>>=◌, ◌>>◌, tell, insert, continue,
}
use interview_coach.Interview.State.{NextMove, say, advance, InterviewState, Env, Supply}
use interview_coach.Interview.Interviewer.{Opened, stream_open_thread}
use interview_coach.Interview.Conductor.{Conducted, advanced, conducted, stream_conduct}
use interview_coach.Interview.Evaluator.{Evaluated, stream_thread_evaluation}

-- The resumed half of `node_await_candidate`.
unfoldable pub node_await_candidate : {V : Type 0} → Text → InterviewState V → InterviewState V
node_await_candidate message st = record st { pending_message = some message }

module _ {V : Type 0} (env : Env V) where
  -- `_persist_pending_candidate`: the candidate's answer goes behind the open thread's messages.
  unfoldable pub persist_pending_candidate : Supply → Option Text → Option ℕ → M V Bool
  persist_pending_candidate s none thread_id = pure false
  persist_pending_candidate s (some pending) none = pure false
  persist_pending_candidate s (some pending) (some thread_id) = do
    seq ← reads (λ db. count_messages_for_thread db thread_id)
    insert λ db. append_message db (record {
      id = s.candidate_message_id;
      thread_id = thread_id;
      seq = seq;
      role = candidate;
      kind = none;
      text = pending;
    })
    pure true

  -- `GenerationPrereqsMissing` is told on the stream before it is raised again.
  abbrev pub prereq_event : Exn → List (Wire V)
  prereq_event profile_missing = error profile_missing ∷ []
  prereq_event job_not_found = error job_not_found ∷ []
  prereq_event job_not_analyzed = error job_not_analyzed ∷ []
  prereq_event company_snapshot_missing = error company_snapshot_missing ∷ []
  prereq_event _ = []

  abbrev pub told : List (Wire V) → Db V → Result Opened → Ran V Opened
  told evs db (returned o) = record { events = evs; db = db; result = returned o }
  told evs db (threw e) = record { events = evs ++ prereq_event e; db = db; result = threw e }

  unfoldable pub open_told : M V Opened → M V Opened
  open_told m db = let r = m db in told r.events r.db r.result

  abbrev pub consumed : Bool → InterviewState V → InterviewState V
  consumed persisted st = if persisted then record st { pending_message = none } else st

  -- `state.get("thread_id") is None`: open a fresh thread.
  unfoldable pub open_fresh : Supply → InterviewState V → M V (InterviewState V)
  open_fresh s st = do
    opened ←
        open_told (stream_open_thread env s st.session_id st.user_id st.profile st.job st.company)
    pure (record st {
      thread_id = some opened.thread_id;
      thread_index = opened.thread_index;
      anchors = opened.anchors;
      focus_key = opened.focus_key;
      focus_label = opened.focus_label;
      focus_document_ids = opened.focus_document_ids;
      grounding = opened.grounding;
      followups_used = 0;
      next_move = some (say question);
    })

  abbrev pub moved : InterviewState V → Conducted → InterviewState V
  moved st advanced = record st { next_move = some advance }
  moved st (conducted k) = record st {
    next_move = some (say k);
    followups_used = st.followups_used + 1;
  }

  -- Conduct the open thread. Once the budget is spent it advances without the model.
  unfoldable pub conduct_open : Supply → ℕ → InterviewState V → M V (InterviewState V)
  conduct_open s thread_id st = do
    strategy ← require (get_round_strategy st.round_type) unknown_round_type
    (if leb strategy.max_followups st.followups_used
        then pure (record st { next_move = some advance })
        else (do
          c ← stream_conduct env s thread_id st.thread_index (conductor_allowed_actions strategy)
          pure (moved st c)))

  unfoldable pub open_or_conduct : Supply → Option ℕ → InterviewState V → M V (InterviewState V)
  open_or_conduct s none st = open_fresh s st
  open_or_conduct s (some thread_id) st = conduct_open s thread_id st

  unfoldable pub node_interviewer : Supply → InterviewState V → M V (InterviewState V)
  node_interviewer s st = do
    persisted ← persist_pending_candidate s st.pending_message st.thread_id
    open_or_conduct s st.thread_id (consumed persisted st)

  unfoldable pub node_evaluator : Supply → InterviewState V → M V (InterviewState V)
  node_evaluator s st = do
    thread_id ← require st.thread_id thread_not_found
    evaluated ←
        stream_thread_evaluation env s st.session_id st.user_id thread_id st.thread_index
          st.round_type
    pure (record st {
      session_status = some evaluated.session_status;
      thread_id = none;
      anchors = [];
      focus_key = none;
      focus_label = none;
      focus_document_ids = [];
      grounding = [];
      followups_used = 0;
      next_move = none;
    })

-- The nodes that run, and the two places where a run stops.
pub data Node : Type 0 where
  interviewer evaluator await_candidate end : Node

-- The conditional edges.
unfoldable pub after_interviewer : Option NextMove → Node
after_interviewer (some advance) = evaluator
after_interviewer (some (say _)) = await_candidate
after_interviewer none = await_candidate

unfoldable pub after_evaluator : Option SessionStatus → Node
after_evaluator (some complete) = end
after_evaluator (some active) = interviewer
after_evaluator (some abandoned) = interviewer
after_evaluator none = interviewer

-- Where a run of the graph stands: parked on the interrupt, at the end, or dead in a node with the
-- checkpoint that the node started from. `running` is a run that was given too little fuel.
pub data Pause (V : Type 0) : Type 0 where
  awaiting : InterviewState V → Pause V
  ended : InterviewState V → Pause V
  crashed : Node → InterviewState V → Exn → Pause V
  running : Node → InterviewState V → Pause V

pub record Invoked (V : Type 0) : Type 0 where
  pub events : List (Wire V)
  pub db : Db V
  pub pause : Pause V

module _ {V : Type 0} (env : Env V) where
  unfoldable pub then_run :
      Node
      → InterviewState V
      → Ran V (InterviewState V)
      → (InterviewState V → Db V → Invoked V)
      → Invoked V
  then_run node st r k = elim r.result [
    | threw e ↦ record { events = r.events; db = r.db; pause = crashed node st e }
    | returned st' ↦
        let rest = k st' r.db in
        record { events = r.events ++ rest.events; db = rest.db; pause = rest.pause }
  ]

  -- `astream` from a node on; run number `n` of a node meets `supply n`.
  unfoldable pub drive : ℕ → (ℕ → Supply) → Node → InterviewState V → Db V → Invoked V
  drive fuel supply await_candidate st db = record { events = []; db = db; pause = awaiting st }
  drive fuel supply end st db = record { events = []; db = db; pause = ended st }
  drive zero supply interviewer st db = record {
    events = [];
    db = db;
    pause = running interviewer st;
  }
  drive zero supply evaluator st db = record { events = []; db = db; pause = running evaluator st }
  drive (suc fuel) supply interviewer st db =
      then_run interviewer st (node_interviewer env (supply fuel) st db)
        (λ st' db'. drive fuel supply (after_interviewer st'.next_move) st' db')
  drive (suc fuel) supply evaluator st db =
      then_run evaluator st (node_evaluator env (supply fuel) st db)
        (λ st' db'. drive fuel supply (after_evaluator st'.session_status) st' db')
