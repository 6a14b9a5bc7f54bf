-- ===== src/Db/Threads/Laws.antt =====
-- How many threads of a session are open and closed, and how often a thread was asked, under the
-- updates of db/repos.py.
use interview_coach.Base.{
  ℕ, ◌+◌, ◌≡◌, refl, Bool, true, false, ◌&&◌, Option, some, List, [], ◌∷◌, ◌++◌, map, length, keep,
  any, find, if◌then◌else◌, arith,
}
use interview_coach.Text.{Text}
use interview_coach.Db.Models.{
  SessionStatus, SessionRow, ThreadRow, MessageRow, Role, interviewer, candidate, Db,
}
use interview_coach.Db.Rows.{
  open_in, closed_in, close_at, in_thread, same_seq, committed, session_key, set_status,
}
use interview_coach.Db.Threads.{create_thread, append_message}

abbrev pub is_interviewer : Role → Bool
is_interviewer interviewer = true
is_interviewer candidate = false

abbrev pub asks : ℕ → MessageRow → Bool
asks thread_id m = in_thread thread_id m && is_interviewer m.role

-- How many messages of a thread are the interviewer's.
unfoldable pub asked : List MessageRow → ℕ → ℕ
asked messages thread_id = length (keep (asks thread_id) messages)

pub asked-append :
    (ms : List MessageRow) (m : MessageRow) (thread_id : ℕ)
    → asked (ms ++ m ∷ []) thread_id
      ≡ (if asks thread_id m then asked ms thread_id + 1 else asked ms thread_id)
unfolding asked
asked-append [] m thread_id = ground arith
asked-append (x ∷ ms) m thread_id = ground (arith, asked-append ms m thread_id)

-- A thread without messages was never asked, and has no first message.
pub asked_silent :
    (ms : List MessageRow) (thread_id : ℕ)
    → keep (in_thread thread_id) ms ≡ []
    → asked ms thread_id ≡ 0
unfolding asked
asked_silent [] thread_id h = refl
asked_silent (m ∷ ms) thread_id h = ground (arith, asked_silent ms thread_id)

pub any-same_seq_silent :
    (ms : List MessageRow) (thread_id seq : ℕ)
    → keep (in_thread thread_id) ms ≡ []
    → any (same_seq thread_id seq) ms ≡ false
any-same_seq_silent [] thread_id seq h = refl
any-same_seq_silent (m ∷ ms) thread_id seq h = ground (arith, any-same_seq_silent ms thread_id seq)

module _ {V : Type 0} where
  pub create_thread_lem :
      (db d : Db V) (row : ThreadRow)
      → create_thread db row ≡ committed d
      → d ≡ record db { threads = db.threads ++ row ∷ [] }
  unfolding create_thread
  create_thread_lem db d row h = ground arith

  -- The first message of a fresh thread is never refused.
  pub append_message_first :
      (db : Db V) (row : MessageRow)
      → keep (in_thread row.thread_id) db.messages ≡ []
      → append_message db row ≡ committed (record db { messages = db.messages ++ row ∷ [] })
  unfolding append_message
  append_message_first db row h =
      ground (arith, any-same_seq_silent db.messages row.thread_id row.seq h)

module _ (session_id thread_id score : ℕ) (feedback : Text) (model_answer : Option Text) where
  abbrev close_here : ThreadRow → ThreadRow
  close_here = close_at thread_id score feedback model_answer

  pub keep-open-close_none :
      (ts : List ThreadRow)
      → keep (open_in session_id) ts ≡ []
      → keep (open_in session_id) (map close_here ts) ≡ []
  keep-open-close_none [] h = refl
  keep-open-close_none (t ∷ ts) h = ground (arith, keep-open-close_none ts)

  -- Closing the only open thread of a session leaves none open.
  pub keep-open-close :
      (ts : List ThreadRow) (row : ThreadRow)
      → keep (open_in session_id) ts ≡ row ∷ []
      → row.id ≡ thread_id
      → keep (open_in session_id) (map close_here ts) ≡ []
  keep-open-close [] row h e = cc
  keep-open-close (t ∷ ts) row h e = ground (arith, keep-open-close ts row, keep-open-close_none ts)

  closed_none :
      (ts : List ThreadRow)
      → keep (open_in session_id) ts ≡ []
      → length (keep (closed_in session_id) (map close_here ts))
        ≡ length (keep (closed_in session_id) ts)
  closed_none [] h = refl
  closed_none (t ∷ ts) h = ground (arith, closed_none ts)

  -- It adds one to the closed threads.
  pub length-closed-close :
      (ts : List ThreadRow) (row : ThreadRow)
      → keep (open_in session_id) ts ≡ row ∷ []
      → row.id ≡ thread_id
      → length (keep (closed_in session_id) (map close_here ts))
        ≡ length (keep (closed_in session_id) ts) + 1
  length-closed-close [] row h e = cc
  length-closed-close (t ∷ ts) row h e = ground (arith, length-closed-close ts row, closed_none ts)

-- A session is found again after its status was set.
pub find-set_status :
    (rows : List SessionRow) (session_id user_id : ℕ) (status : SessionStatus) (row : SessionRow)
    → find (session_key session_id user_id) rows ≡ some row
    → find
        (session_key session_id user_id)
        (map (set_status (session_key session_id user_id) status) rows)
      ≡ some (record row { status = status })
find-set_status [] session_id user_id status row h = cc
find-set_status (r ∷ rows) session_id user_id status row h =
    ground (arith, find-set_status rows session_id user_id status row)
