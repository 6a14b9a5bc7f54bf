-- ===== src/Interview/Graph/Post.antt =====
-- What `node_interviewer` of agents/graph_nodes.py leaves, whichever way it ends.
use interview_coach.Interview.Graph.At.{At}
use interview_coach.Interview.Graph.Bounded.{Bounded, Bounded-same, Bounded-first}
use interview_coach.Base.{
  ℕ, ◌+◌, ◌<◌, ◌≡◌, ◌∙◌, refl, ap, sym, subst, List, [], keep, Bool, true, false, Option, none,
  some, leb, arith,
}
use interview_coach.Text.{Text}
use interview_coach.Rounds.{RoundStrategy, get_round_strategy, conductor_allowed_actions}
use interview_coach.Db.Models.{Db}
use interview_coach.Db.Rows.{open_in}
use interview_coach.Db.Threads.Laws.{asked}
use interview_coach.Interview.Effects.{◌>>=◌, M, Result, returned, threw, Wire}
use interview_coach.Interview.Effects.Ends.{
  Ends, EndsAt, Ends-bind, Ends-bind_same, Ends-require, Ends-reads, Ends-insert, Ends-pure,
  Ends-if, Ends-weaken,
}
use interview_coach.Interview.State.{InterviewState, Env, Supply}
use interview_coach.Interview.Frames.{
  Frame, Frame-refl, Frame-trans, Frame-same, append_message-Frame,
}
use interview_coach.Interview.Interviewer.{Opened}
use interview_coach.Interview.Interviewer.Post.{FreshThread, stream_open_thread-Ends}
use interview_coach.Interview.Conductor.{Conducted, advanced, conducted}
use interview_coach.Interview.Conductor.Post.{ConductPost, stream_conduct-Ends}
use interview_coach.Interview.Graph.{
  interviewer, after_interviewer, persist_pending_candidate, told, open_told, consumed, open_fresh,
  moved, conduct_open, open_or_conduct, node_interviewer,
}
use interview_coach.Interview.Graph.Linked.{
  OpenThread, LinkedAt, LinkedAt-Frame, OpenThread-Asked, OpenThread-first,
}

module _ {V : Type 0} (env : Env V) (s : Supply) (lost : ℕ) (st : InterviewState V) where
  pub persist_pending_candidate-Ends :
      (pending : Option Text) (o : Option ℕ) (db : Db V)
      → Ends (Frame db) (λ _ d. Frame db d) (persist_pending_candidate env s pending o db)
  unfolding persist_pending_candidate
  persist_pending_candidate-Ends none o db = Ends-pure _ _ _ db (Frame-refl db)
  persist_pending_candidate-Ends (some p) none db = Ends-pure _ _ _ db (Frame-refl db)
  persist_pending_candidate-Ends (some p) (some t) db = Ends-reads _ _ _ _ db (
      Ends-insert _ _ _ _ db (Frame-refl db)
        (λ d h. Ends-pure _ _ _ d (append_message-Frame db d _ refl h)))

  told-Ends :
      (E : Db V → Type 0) (Q : Opened → Db V → Type 0) (evs : List (Wire V)) (d : Db V)
      (r : Result Opened)
      → EndsAt E Q d r
      → Ends E Q (told env evs d r)
  told-Ends E Q evs d (returned o) h = record { at = h }
  told-Ends E Q evs d (threw e) h = record { at = h }

  open_told-Ends :
      (E : Db V → Type 0) (Q : Opened → Db V → Type 0) (m : M V Opened) (db : Db V)
      → Ends E Q (m db)
      → Ends E Q (open_told env m db)
  unfolding open_told
  open_told-Ends E Q m db h = told-Ends E Q _ _ _ h.at

  open_fresh-Ends :
      (db : Db V)
      → (keep (open_in st.session_id) db.threads ≡ []) × (lost ≡ 0)
      → Bounded st.session_id st.user_id st.n_questions db
      → FreshThread db s.thread_id
      → Ends
          (λ d. d ≡ db)
          (λ st' d. At lost (after_interviewer st'.next_move) st' d)
          (open_fresh env s st db)
  unfolding open_fresh after_interviewer
  open_fresh-Ends db (none_open, none_lost) b fresh =
      Ends-bind _ _ _ _ _ db
        (open_told-Ends _ _ _ db (
          stream_open_thread-Ends env db s st.session_id st.user_id st.profile st.job st.company
            fresh))
        (λ o d p. Ends-pure _ _ _ d (record {
          linked =
              OpenThread-first lost db d st.session_id st.round_type o.thread_id o.thread_index
                p.row none_open p.threads (ground (arith, p.row_session, p.row_open))
                (p.row_id ∙ sym p.opened_id) p.row_index
                (ap (λ n. n + lost) (ap (asked d.messages) p.opened_id ∙ p.asked_once)
                  ∙ omega (arith, none_lost));
          placed = tt;
          bounded =
              Bounded-first db d st.session_id st.user_id st.n_questions p.session p.row b p.found
                (subst (λ i. i < p.session.n_questions) p.next_index p.room) none_open
                (ground (arith, p.row_session, p.row_open)) p.sessions p.threads;
        }))

  abbrev Continues : InterviewState V → Db V → Type 0
  Continues st' d = At lost (after_interviewer st'.next_move) st' d

  module _ (t : ℕ) (db : Db V)
      (h : OpenThread lost st.session_id st.round_type t st.thread_index st.followups_used db)
      (here : st.thread_id ≡ some t) (b : Bounded st.session_id st.user_id st.n_questions db) where
    moved-At :
        (strategy : RoundStrategy) (c : Conducted) (d : Db V)
        → get_round_strategy st.round_type ≡ some strategy
        → st.followups_used < strategy.max_followups
        → ConductPost t db c d
        → Continues (moved env st c) d
    unfolding after_interviewer
    moved-At strategy advanced d known room f = record {
      linked =
          subst
            (λ o. LinkedAt lost st.session_id st.round_type o st.thread_index st.followups_used d)
            (sym here)
            (LinkedAt-Frame lost db d st.session_id st.round_type (some t) st.thread_index
              st.followups_used f h);
      placed = cc;
      bounded = Bounded-same db d st.session_id st.user_id st.n_questions f.sessions f.threads b;
    }
    moved-At strategy (conducted k) d known room f = record {
      linked =
          subst
            (λ o.
              LinkedAt lost st.session_id st.round_type o st.thread_index (st.followups_used + 1) d)
            (sym here)
            (OpenThread-Asked lost db d st.session_id st.round_type t st.thread_index
              st.followups_used strategy known room f h);
      placed = tt;
      bounded = Bounded-same db d st.session_id st.user_id st.n_questions f.sessions f.threads b;
    }

    room :
        (strategy : RoundStrategy)
        → leb strategy.max_followups st.followups_used ≡ false
        → st.followups_used < strategy.max_followups
    room strategy left = ground arith

    conduct_open-Ends : Ends (Frame db) Continues (conduct_open env s t st db)
    unfolding conduct_open after_interviewer
    conduct_open-Ends = Ends-require _ _ _ _ _ db (Frame-refl db) (λ strategy known.
        Ends-if _ _ (leb strategy.max_followups st.followups_used) _ _ db
          (λ spent. Ends-pure _ _ _ db (record {
            linked =
                subst
                  (λ o.
                    LinkedAt lost st.session_id st.round_type o st.thread_index st.followups_used
                      db)
                  (sym here) h;
            placed = cc;
            bounded = b;
          }))
          (λ left.
            Ends-bind _ _ _ _ _ db
              (stream_conduct-Ends env s t st.thread_index (conductor_allowed_actions strategy) db)
              (λ c d p. Ends-pure _ _ _ d (moved-At strategy c d known (room strategy left) p))))

module _ {V : Type 0} (env : Env V) (s : Supply) (lost : ℕ) where
  open_or_conduct-Ends :
      (st : InterviewState V) (o : Option ℕ) (db d : Db V)
      → st.thread_id ≡ o
      → LinkedAt lost st.session_id st.round_type o st.thread_index st.followups_used d
      → Bounded st.session_id st.user_id st.n_questions d
      → Frame db d
      → (o ≡ none → FreshThread d s.thread_id)
      → Ends (Frame db) (Continues env s lost st) (open_or_conduct env s o st d)
  unfolding open_or_conduct
  open_or_conduct-Ends st none db d here h b f fresh =
      Ends-weaken _ _ _ _ (open_fresh-Ends env s lost st d h b (fresh refl))
        (λ x e. Frame-trans db d x f (Frame-same d x e))
  open_or_conduct-Ends st (some t) db d here h b f fresh =
      Ends-weaken _ _ _ _ (conduct_open-Ends env s lost st t d h here b)
        (λ x g. Frame-trans db d x f g)

  consumed-Ends :
      (persisted : Bool) (st : InterviewState V) (o : Option ℕ) (db d : Db V)
      → st.thread_id ≡ o
      → LinkedAt lost st.session_id st.round_type o st.thread_index st.followups_used d
      → Bounded st.session_id st.user_id st.n_questions d
      → Frame db d
      → (o ≡ none → FreshThread d s.thread_id)
      → Ends
          (Frame db)
          (Continues env s lost st)
          (open_or_conduct env s o (consumed env persisted st) d)
  consumed-Ends true st o db d here h b f fresh =
      open_or_conduct-Ends (consumed env true st) o db d here h b f fresh
  consumed-Ends false st o db d here h b f fresh = open_or_conduct-Ends st o db d here h b f fresh

  interview-Ends :
      (st : InterviewState V) (o : Option ℕ) (pending : Option Text) (db : Db V)
      → st.thread_id ≡ o
      → LinkedAt lost st.session_id st.round_type o st.thread_index st.followups_used db
      → Bounded st.session_id st.user_id st.n_questions db
      → FreshThread db s.thread_id
      → Ends (Frame db) (Continues env s lost st) (
          (persist_pending_candidate env s pending o >>= λ p.
          open_or_conduct env s o (consumed env p st))
            db)
  unfolding persist_pending_candidate
  interview-Ends st none none db here h b fresh =
      Ends-bind_same _ _ _ _ db (Ends-pure _ _ _ db refl)
        (λ p. consumed-Ends p st none db db here h b (Frame-refl db) (λ e. fresh))
  interview-Ends st none (some pending) db here h b fresh =
      Ends-bind_same _ _ _ _ db (Ends-pure _ _ _ db refl)
        (λ p. consumed-Ends p st none db db here h b (Frame-refl db) (λ e. fresh))
  interview-Ends st (some t) pending db here h b fresh =
      Ends-bind _ _ _ _ _ db (persist_pending_candidate-Ends env s lost st pending (some t) db)
        (λ p d f.
          consumed-Ends p st (some t) db d here
            (LinkedAt-Frame lost db d st.session_id st.round_type (some t) st.thread_index
              st.followups_used f h)
            (Bounded-same db d st.session_id st.user_id st.n_questions f.sessions f.threads b) f
            (λ e. cc))

  -- From a state that is linked to the database but for some lost messages of the open thread, of a
  -- session with no more threads than questions, and with a thread id that is not in use, the
  -- interviewer node ends in such a state at the next node, with no more messages lost. If it raises, sessions and threads are as before, and each thread has been asked as often
  -- as before.
  pub node_interviewer-Ends :
      (st : InterviewState V) (db : Db V)
      → At lost interviewer st db
      → FreshThread db s.thread_id
      → Ends (Frame db) (Continues env s lost st) (node_interviewer env s st db)
  unfolding node_interviewer
  node_interviewer-Ends st db h fresh =
      interview-Ends st st.thread_id st.pending_message db refl h.linked h.bounded fresh
