-- ===== src/Interview/Frames.antt =====
-- What an action may have written: messages only, or one more question of the interviewer.
use interview_coach.Base.{ℕ, ◌+◌, ◌≡◌, ◌∙◌, ap, refl, arith}
use interview_coach.Db.Models.{interviewer, candidate, MessageRow, Db}
use interview_coach.Db.Rows.{committed}
use interview_coach.Db.Threads.{append_message}
use interview_coach.Db.Threads.Laws.{asked, asked-append}

-- Only messages were written, and each thread was asked as often as before.
pub record Frame {V : Type 0} (db db' : Db V) : Type 0 where
  pub sessions : db'.sessions ≡ db.sessions
  pub threads : db'.threads ≡ db.threads
  pub asked_as_before : (t : ℕ) → asked db'.messages t ≡ asked db.messages t

pub Frame-refl : {V : Type 0} (db : Db V) → Frame db db
Frame-refl db = record { sessions = refl; threads = refl; asked_as_before = λ t. refl }

pub Frame-trans : {V : Type 0} (a b c : Db V) → Frame a b → Frame b c → Frame a c
Frame-trans a b c f g = record {
  sessions = g.sessions ∙ f.sessions;
  threads = g.threads ∙ f.threads;
  asked_as_before = λ t. g.asked_as_before t ∙ f.asked_as_before t;
}

pub Frame-same : {V : Type 0} (db d : Db V) → d ≡ db → Frame db d
Frame-same db d e = record {
  sessions = ap (λ x. x.sessions) e;
  threads = ap (λ x. x.threads) e;
  asked_as_before = λ t. ap (λ x. asked x.messages t) e;
}

-- One more question in a thread.
pub record Asked {V : Type 0} (thread_id : ℕ) (db db' : Db V) : Type 0 where
  pub sessions : db'.sessions ≡ db.sessions
  pub threads : db'.threads ≡ db.threads
  pub once_more : asked db'.messages thread_id ≡ asked db.messages thread_id + 1

-- What an insert of a message does, if the unique index lets it through.
pub append_message-Asked :
    {V : Type 0} (db db' : Db V) (row : MessageRow)
    → row.role ≡ interviewer
    → append_message db row ≡ committed db'
    → Asked row.thread_id db db'
unfolding append_message
append_message-Asked db db' row r h = record {
  sessions = ground arith;
  threads = ground arith;
  once_more = ground (arith, asked-append db.messages row row.thread_id);
}

pub append_message-Frame :
    {V : Type 0} (db db' : Db V) (row : MessageRow)
    → row.role ≡ candidate
    → append_message db row ≡ committed db'
    → Frame db db'
unfolding append_message
append_message-Frame db db' row r h = record {
  sessions = ground arith;
  threads = ground arith;
  asked_as_before = λ t. ground (arith, asked-append db.messages row t);
}
