-- ===== src/Interview/Graph/Linked.antt =====
-- The interview's state and the database agree: the state's thread is the one open thread of its
-- session, and `followups_used` counts the interviewer's messages in it but for the question. A run
-- that is cut off between the commit of a thread and that of its question has lost the question: then
-- the count is one too high until the thread is adopted again, which `lost` says.
use interview_coach.Base.{
  ℕ, String, ◌+◌, ◌<◌, ◌≤◌, ◌≡◌, refl, ap, ◌∙◌, true, Option, none, some, [], ◌∷◌, ◌++◌, map, keep,
  keep-append, arith,
}
use interview_coach.Text.{Text}
use interview_coach.Rounds.{RoundStrategy, get_round_strategy}
use interview_coach.Db.Models.{ThreadRow, Db}
use interview_coach.Db.Rows.{open_in, close_at}
use interview_coach.Db.Threads.Laws.{asked, keep-open-close}
use interview_coach.Interview.State.{InterviewState}
use interview_coach.Interview.Frames.{Frame, Asked}

-- Thread `t` is the one that is open, in its place, and asked `used` times more than its question,
-- but for `lost` messages.
pub record OpenThread {V : Type 0} (lost session_id : ℕ) (round_type : String)
    (t thread_index used : ℕ) (db : Db V) : Type 0 where
  pub row : ThreadRow
  pub only : keep (open_in session_id) db.threads ≡ row ∷ []
  pub row_id : row.id ≡ t
  pub row_index : row.thread_index ≡ thread_index
  pub in_step : asked db.messages t + lost ≡ used + 1
  pub within : (s : RoundStrategy) → get_round_strategy round_type ≡ some s → used ≤ s.max_followups

-- Without a thread nothing is lost.
abbrev pub LinkedAt : {V : Type 0} → ℕ → ℕ → String → Option ℕ → ℕ → ℕ → Db V → Type 0
LinkedAt lost session_id round_type none thread_index used db =
    (keep (open_in session_id) db.threads ≡ []) × (lost ≡ 0)
LinkedAt lost session_id round_type (some t) thread_index used db =
    OpenThread lost session_id round_type t thread_index used db

abbrev pub Linked : {V : Type 0} → ℕ → InterviewState V → Db V → Type 0
Linked lost st db =
    LinkedAt lost st.session_id st.round_type st.thread_id st.thread_index st.followups_used db

module _ {V : Type 0} (lost : ℕ) (db d : Db V) (session_id : ℕ) (round_type : String) where
  pub LinkedAt-Frame :
      (o : Option ℕ) (thread_index used : ℕ)
      → Frame db d
      → LinkedAt lost session_id round_type o thread_index used db
      → LinkedAt lost session_id round_type o thread_index used d
  LinkedAt-Frame none thread_index used f (h, l) = (ap (keep (open_in session_id)) f.threads ∙ h, l)
  LinkedAt-Frame (some t) thread_index used f h = record {
    row = h.row;
    only = ap (keep (open_in session_id)) f.threads ∙ h.only;
    row_id = h.row_id;
    row_index = h.row_index;
    in_step = ap (λ n. n + lost) (f.asked_as_before t) ∙ h.in_step;
    within = h.within;
  }

  -- One more question, within the budget of the round.
  pub OpenThread-Asked :
      (t thread_index used : ℕ) (strategy : RoundStrategy)
      → get_round_strategy round_type ≡ some strategy
      → used < strategy.max_followups
      → Asked t db d
      → OpenThread lost session_id round_type t thread_index used db
      → OpenThread lost session_id round_type t thread_index (used + 1) d
  OpenThread-Asked t thread_index used strategy known room f h = record {
    row = h.row;
    only = ap (keep (open_in session_id)) f.threads ∙ h.only;
    row_id = h.row_id;
    row_index = h.row_index;
    in_step = omega (arith, f.once_more, h.in_step);
    within = λ s e. ground arith;
  }

  -- The first thread of a session that has none open.
  pub OpenThread-first :
      (t thread_index : ℕ) (row : ThreadRow)
      → keep (open_in session_id) db.threads ≡ []
      → d.threads ≡ db.threads ++ row ∷ []
      → open_in session_id row ≡ true
      → row.id ≡ t
      → row.thread_index ≡ thread_index
      → asked d.messages t + lost ≡ 1
      → OpenThread lost session_id round_type t thread_index 0 d
  OpenThread-first t thread_index row h added on e i once = record {
    row = row;
    only = ground (arith, keep-append (open_in session_id) db.threads (row ∷ []));
    row_id = e;
    row_index = i;
    in_step = once;
    within = λ s e. ground arith;
  }

  -- Closing the thread leaves none open.
  pub LinkedAt-closed :
      (t thread_index used score : ℕ) (feedback : Text) (model_answer : Option Text)
      → OpenThread lost session_id round_type t thread_index used db
      → d.threads ≡ map (close_at t score feedback model_answer) db.threads
      → LinkedAt 0 session_id round_type none thread_index 0 d
  LinkedAt-closed t thread_index used score feedback model_answer h e = (
    ap (keep (open_in session_id)) e
        ∙ keep-open-close session_id t score feedback model_answer db.threads h.row h.only h.row_id,
    refl,
  )
