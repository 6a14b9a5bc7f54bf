-- ===== src/Db/Threads.antt =====
-- db/repos.py: sessions, threads and messages.
pub mod Laws
pub mod Sequence
use mathlib.Core.List.{reverse}
use interview_coach.Base.{
  ℕ, String, Bool, true, false, ◌&&◌, Option, none, some, List, [], ◌∷◌, ◌++◌, map, length, keep,
  find, any, ◌==◌, if◌then◌else◌,
}
use interview_coach.Text.{Text}
use interview_coach.Db.Models.{SessionStatus, active, SessionRow, ThreadRow, MessageRow, Db}
use interview_coach.Db.Rows.{
  DbResult, committed, failed, integrity_error, is_active, is_open, order_by, last?, session_key,
  set_status, same_slot, open_in, closed_in, close_at, same_seq, in_thread,
}

module _ {V : Type 0} where
  unfoldable pub create_session : Db V → ℕ → ℕ → ℕ → String → ℕ → Db V × SessionRow
  create_session db id user_id job_id round_type n_questions =
      let row : SessionRow = record {
        id = id;
        user_id = user_id;
        job_id = job_id;
        round_type = round_type;
        status = active;
        n_questions = n_questions;
      } in
      (record db { sessions = db.sessions ++ row ∷ [] }, row)

  unfoldable pub get_session : Db V → ℕ → ℕ → Option SessionRow
  get_session db session_id user_id = find (session_key session_id user_id) db.sessions

  -- Newest first: the rows of the database stand in the order of their creation.
  unfoldable pub list_sessions_for_user : Db V → ℕ → List SessionRow
  list_sessions_for_user db user_id = reverse (keep (λ r. r.user_id == user_id) db.sessions)

  -- True on a hit.
  unfoldable pub update_session_status : Db V → ℕ → ℕ → SessionStatus → Db V × Bool
  unfolding get_session
  update_session_status db session_id user_id status = elim (get_session db session_id user_id) [
    | none ↦ (db, false)
    | some _ ↦ (
      record db { sessions = map (set_status (session_key session_id user_id) status) db.sessions },
      true,
    )
  ]

  unfoldable pub list_active_session_ids_for_user : Db V → ℕ → List ℕ
  list_active_session_ids_for_user db user_id =
      map (λ r. r.id) (reverse (keep (λ r. r.user_id == user_id && is_active r.status) db.sessions))

  unfoldable pub list_active_session_ids_for_job : Db V → ℕ → List ℕ
  list_active_session_ids_for_job db job_id =
      map (λ r. r.id) (reverse (keep (λ r. r.job_id == job_id && is_active r.status) db.sessions))

  -- The unique index `uq_threads_session_thread` refuses a second thread in the same slot.
  unfoldable pub create_thread : Db V → ThreadRow → DbResult (Db V)
  create_thread db row =
      if any (same_slot row.session_id row.thread_index) db.threads
      then failed integrity_error
      else committed (record db { threads = db.threads ++ row ∷ [] })

  unfoldable pub get_thread : Db V → ℕ → Option ThreadRow
  get_thread db thread_id = find (λ t. t.id == thread_id) db.threads

  unfoldable pub get_open_thread : Db V → ℕ → Option ThreadRow
  unfolding order_by
  get_open_thread db session_id =
      last? (order_by (λ t. t.thread_index) (keep (open_in session_id) db.threads))

  unfoldable pub list_threads_for_session : Db V → ℕ → List ThreadRow
  unfolding order_by
  list_threads_for_session db session_id =
      order_by (λ t. t.thread_index) (keep (λ t. t.session_id == session_id) db.threads)

  unfoldable pub count_closed_threads : Db V → ℕ → ℕ
  count_closed_threads db session_id = length (keep (closed_in session_id) db.threads)

  unfoldable pub close_thread : Db V → ℕ → ℕ → Text → Option Text → Db V × Bool
  unfolding get_thread
  close_thread db thread_id score feedback model_answer = elim (get_thread db thread_id) [
    | none ↦ (db, false)
    | some _ ↦ (
      record db { threads = map (close_at thread_id score feedback model_answer) db.threads },
      true,
    )
  ]

  -- The unique index `uq_messages_thread_seq` refuses a second message in the same place.
  unfoldable pub append_message : Db V → MessageRow → DbResult (Db V)
  append_message db row =
      if any (same_seq row.thread_id row.seq) db.messages
      then failed integrity_error
      else committed (record db { messages = db.messages ++ row ∷ [] })

  unfoldable pub list_messages_for_thread : Db V → ℕ → List MessageRow
  unfolding order_by
  list_messages_for_thread db thread_id =
      order_by (λ m. m.seq) (keep (in_thread thread_id) db.messages)

  unfoldable pub count_messages_for_thread : Db V → ℕ → ℕ
  count_messages_for_thread db thread_id = length (keep (in_thread thread_id) db.messages)
