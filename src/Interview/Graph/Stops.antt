-- ===== src/Interview/Graph/Stops.antt =====
-- Termination of the runs of the interview graph (agents/graph.py).
use interview_coach.Base.{List, ℕ, suc, ◌≡◌, refl, sym, subst, Option, none, some}
use interview_coach.Db.Models.{SessionStatus, active, complete, abandoned, Db}
use interview_coach.Interview.Effects.{Wire, Ran, Result, returned, threw, ◌>>=◌}
use interview_coach.Interview.Effects.Ends.{Ends, EndsAt, Ends-bind, Ends-require, Ends-pure}
use interview_coach.Interview.State.{NextMove, say, advance, InterviewState, Env, Supply}
use interview_coach.Interview.Graph.{
  Node, interviewer, evaluator, await_candidate, after_interviewer, after_evaluator, Pause,
  awaiting, ended, crashed, running, Invoked, then_run, drive, persist_pending_candidate, consumed,
  open_fresh, open_or_conduct, node_interviewer, node_evaluator,
}

-- The run did not end for want of fuel.
abbrev pub Stopped : {V : Type 0} → Pause V → Type 0
Stopped (awaiting st) = Unit
Stopped (ended st) = Unit
Stopped (crashed node st e) = Unit
Stopped (running node st) = ⊥

abbrev Anything : {V : Type 0} → Db V → Type 0
Anything d = Unit

Ends-any : {V A : Type 0} (r : Ran V A) → Ends Anything (λ a d. Unit) r
Ends-any r = record {
  at = elim r.result as (λ x. EndsAt Anything (λ a d. Unit) r.db x) [
    | returned a ↦ tt
    | threw e ↦ tt
  ];
}

module _ {V : Type 0} (env : Env V) where
  parts-Stopped :
      (Q : InterviewState V → Db V → Type 0) (node : Node) (st : InterviewState V)
      (evs : List (Wire V)) (d : Db V) (r : Result (InterviewState V))
      (k : InterviewState V → Db V → Invoked V)
      → EndsAt Anything Q d r
      → ((st' : InterviewState V) (x : Db V) → Q st' x → Stopped (k st' x).pause)
      → Stopped (then_run env node st (record { events = evs; db = d; result = r }) k).pause
  unfolding then_run
  parts-Stopped Q node st evs d (returned st') k h next = next st' d h
  parts-Stopped Q node st evs d (threw e) k h next = tt

  then_run-Stopped :
      (Q : InterviewState V → Db V → Type 0) (node : Node) (st : InterviewState V)
      (r : Ran V (InterviewState V)) (k : InterviewState V → Db V → Invoked V)
      → Ends Anything Q r
      → ((st' : InterviewState V) (d : Db V) → Q st' d → Stopped (k st' d).pause)
      → Stopped (then_run env node st r k).pause
  then_run-Stopped Q node st r k h next = parts-Stopped Q node st r.events r.db r.result k h.at next

  module _ (s : Supply) where
    -- A thread that was just opened waits for the candidate.
    open_fresh-waits :
        (st : InterviewState V) (db : Db V)
        → Ends Anything
            (λ st' d. after_interviewer st'.next_move ≡ await_candidate)
            (open_fresh env s st db)
    unfolding open_fresh after_interviewer
    open_fresh-waits st db = Ends-bind _ _ _ _ _ db (Ends-any _) (λ o d u. Ends-pure _ _ _ d refl)

    node_interviewer-waits :
        (st : InterviewState V) (o : Option ℕ) (db : Db V)
        → o ≡ none
        → Ends Anything
            (λ st' d. after_interviewer st'.next_move ≡ await_candidate)
            ((persist_pending_candidate env s st.pending_message o >>= λ p.
                open_or_conduct env s o (consumed env p st))
              db)
    unfolding open_or_conduct
    node_interviewer-waits st none db e =
        Ends-bind _ _ _ _ _ db (Ends-any _) (λ p d u. open_fresh-waits (consumed env p st) d)
    node_interviewer-waits st (some t) db e = cc

    node_evaluator-clears :
        (st : InterviewState V) (db : Db V)
        → Ends Anything (λ st' d. st'.thread_id ≡ none) (node_evaluator env s st db)
    unfolding node_evaluator
    node_evaluator-clears st db =
        Ends-require _ _ _ _ _ db tt
          (λ t here. Ends-bind _ _ _ _ _ db (Ends-any _) (λ ev d u. Ends-pure _ _ _ d refl))

  module _ (supply : ℕ → Supply) where
    await_candidate-Stopped :
        (fuel : ℕ) (node : Node) (st : InterviewState V) (db : Db V)
        → node ≡ await_candidate
        → Stopped (drive env fuel supply node st db).pause
    unfolding drive
    await_candidate-Stopped fuel node st db e =
        subst (λ n. Stopped (drive env fuel supply n st db).pause) (sym e) tt

    interviewer-Stopped_fresh :
        (fuel : ℕ) (st : InterviewState V) (db : Db V)
        → st.thread_id ≡ none
        → Stopped (drive env (suc fuel) supply interviewer st db).pause
    unfolding drive node_interviewer
    interviewer-Stopped_fresh fuel st db e =
        then_run-Stopped _ _ _ _ _ (node_interviewer-waits (supply fuel) st st.thread_id db e)
          (λ st' d h. await_candidate-Stopped fuel _ st' d h)

    after_evaluator-Stopped :
        (fuel : ℕ) (o : Option SessionStatus) (st : InterviewState V) (db : Db V)
        → st.thread_id ≡ none
        → Stopped (drive env (suc fuel) supply (after_evaluator o) st db).pause
    unfolding drive after_evaluator
    after_evaluator-Stopped fuel none st db e = interviewer-Stopped_fresh fuel st db e
    after_evaluator-Stopped fuel (some active) st db e = interviewer-Stopped_fresh fuel st db e
    after_evaluator-Stopped fuel (some complete) st db e = tt
    after_evaluator-Stopped fuel (some abandoned) st db e = interviewer-Stopped_fresh fuel st db e

    evaluator-Stopped :
        (fuel : ℕ) (st : InterviewState V) (db : Db V)
        → Stopped (drive env (suc (suc fuel)) supply evaluator st db).pause
    unfolding drive
    evaluator-Stopped fuel st db =
        then_run-Stopped _ _ _ _ _ (node_evaluator-clears (supply (suc fuel)) st db)
          (λ st' d h. after_evaluator-Stopped fuel st'.session_status st' d h)

    after_interviewer-Stopped :
        (fuel : ℕ) (o : Option NextMove) (st : InterviewState V) (db : Db V)
        → Stopped (drive env (suc (suc fuel)) supply (after_interviewer o) st db).pause
    unfolding drive after_interviewer
    after_interviewer-Stopped fuel none st db = tt
    after_interviewer-Stopped fuel (some (say k)) st db = tt
    after_interviewer-Stopped fuel (some advance) st db = evaluator-Stopped fuel st db

    -- Three nodes are enough, whatever the model answers and whatever the database holds: from the
    -- interviewer, a run passes at most the evaluator and the interviewer again.
    pub drive_stops :
        (fuel : ℕ) (st : InterviewState V) (db : Db V)
        → Stopped (drive env (suc (suc (suc fuel))) supply interviewer st db).pause
    unfolding drive
    drive_stops fuel st db =
        then_run-Stopped _ _ _ _ _ (Ends-any (node_interviewer env (supply (suc (suc fuel))) st db))
          (λ st' d u. after_interviewer-Stopped fuel st'.next_move st' d)
