-- ===== src/Db/Rows.antt =====
-- What the queries of db/repos.py are made of: results of a write, orders, and tests on rows.
use interview_coach.Base.{
  ℕ, Bool, true, false, ◌&&◌, Option, none, some, List, [], ◌∷◌, ltb, ◌==◌, if◌then◌else◌,
}
use interview_coach.Text.{Text}
use interview_coach.Db.Models.{
  SessionStatus, active, complete, abandoned, ThreadStatus, open_thread, closed_thread, SessionRow,
  ThreadRow, MessageRow,
}

-- A row breaks a unique index, or the read finds more than one row where one is expected.
pub data DbError : Type 0 where
  integrity_error : DbError

pub data DbResult {ℓ} (A : Type ℓ) : Type ℓ where
  committed : A → DbResult A
  failed : DbError → DbResult A

abbrev pub is_open : ThreadStatus → Bool
is_open open_thread = true
is_open closed_thread = false

abbrev pub is_active : SessionStatus → Bool
is_active active = true
is_active complete = false
is_active abandoned = false

-- `ORDER BY`, ascending, on a number.
module _ {ℓ} {A : Type ℓ} (column : A → ℕ) where
  unfoldable pub insert_by : A → List A → List A
  insert_by a [] = a ∷ []
  insert_by a (b ∷ bs) =
      let rest = insert_by a bs in if ltb (column b) (column a) then b ∷ rest else a ∷ b ∷ bs

  unfoldable pub order_by : List A → List A
  unfolding insert_by
  order_by [] = []
  order_by (a ∷ as') = insert_by a (order_by as')

-- The last row, `ORDER BY … DESC LIMIT 1`.
abbrev pub last? {ℓ} : {A : Type ℓ} → List A → Option A
last? [] = none
last? (a ∷ []) = some a
last? (a ∷ b ∷ bs) = last? (b ∷ bs)

abbrev pub session_key : ℕ → ℕ → SessionRow → Bool
session_key session_id user_id row = row.id == session_id && row.user_id == user_id

abbrev pub set_status : (SessionRow → Bool) → SessionStatus → SessionRow → SessionRow
set_status hit status row = if hit row then record row { status = status } else row

abbrev pub same_slot : ℕ → ℕ → ThreadRow → Bool
same_slot session_id thread_index t = t.session_id == session_id && t.thread_index == thread_index

abbrev pub new_thread :
    ℕ → ℕ → List Text → Option Text → Option Text → Option (List Text) → ℕ → ThreadRow
new_thread session_id thread_index anchors focus_key focus_label focus_document_ids thread_id =
    record {
      id = thread_id;
      session_id = session_id;
      thread_index = thread_index;
      anchors_json = anchors;
      focus_key = focus_key;
      focus_label = focus_label;
      focus_document_ids = focus_document_ids;
      status = open_thread;
      score = none;
      feedback = none;
      model_answer = none;
    }

abbrev pub open_in : ℕ → ThreadRow → Bool
open_in session_id t = t.session_id == session_id && is_open t.status

abbrev pub closed_in : ℕ → ThreadRow → Bool
closed_in session_id t = t.session_id == session_id && (if is_open t.status then false else true)

abbrev pub close_row : ℕ → Text → Option Text → ThreadRow → ThreadRow
close_row score feedback model_answer t = record t {
  score = some score;
  feedback = some feedback;
  model_answer = elim model_answer [ none ↦ t.model_answer | some a ↦ some a ];
  status = closed_thread;
}

abbrev pub close_at : ℕ → ℕ → Text → Option Text → ThreadRow → ThreadRow
close_at thread_id score feedback model_answer t =
    if t.id == thread_id then close_row score feedback model_answer t else t

abbrev pub same_seq : ℕ → ℕ → MessageRow → Bool
same_seq thread_id seq m = m.thread_id == thread_id && m.seq == seq

abbrev pub in_thread : ℕ → MessageRow → Bool
in_thread thread_id m = m.thread_id == thread_id
