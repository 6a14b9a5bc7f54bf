-- ===== src/Db/Threads/Sequence.antt =====
-- The numbers of messages, and the unique index `uq_messages_thread_seq`.
use interview_coach.Base.{
  ℕ, ◌+◌, ◌≡◌, refl, ap, ◌∙◌, sym, subst, Bool, true, false, List, [], ◌∷◌, ◌++◌, length, keep, any,
  ltb, if◌then◌else◌, Bool-cases, inl, inr, arith,
}
use interview_coach.Db.Models.{MessageRow, Db}
use interview_coach.Db.Rows.{DbResult, committed, same_seq, in_thread}
use interview_coach.Db.Threads.{append_message, count_messages_for_thread}

-- The messages of a thread have numbers below `n`.
abbrev pub below : ℕ → ℕ → List MessageRow → Bool
below t n [] = true
below t n (m ∷ ms) =
    let rest = below t n ms in if in_thread t m then (if ltb m.seq n then rest else false) else rest

any-same_seq-below :
    (t n : ℕ) (ms : List MessageRow) → below t n ms ≡ true → any (same_seq t n) ms ≡ false
any-same_seq-below t n [] h = refl
any-same_seq-below t n (m ∷ ms) h = ground (arith, any-same_seq-below t n ms)

below-suc : (t n : ℕ) (ms : List MessageRow) → below t n ms ≡ true → below t (n + 1) ms ≡ true
below-suc t n [] h = refl
below-suc t n (m ∷ ms) h = ground (arith, below-suc t n ms)

count-append :
    (t : ℕ) (ms : List MessageRow) (row : MessageRow)
    → length (keep (in_thread t) (ms ++ row ∷ [])) ≡ (
        if in_thread t row
        then length (keep (in_thread t) ms) + 1
        else length (keep (in_thread t) ms))
count-append t [] row = ground arith
count-append t (m ∷ ms) row = ground (arith, count-append t ms row)

below-append :
    (t n : ℕ) (ms : List MessageRow) (row : MessageRow)
    → below t n ms ≡ true
    → below t n (row ∷ []) ≡ true
    → below t n (ms ++ row ∷ []) ≡ true
below-append t n [] row h k = k
below-append t n (m ∷ ms) row h k = ground (arith, below-append t n ms row)

-- Every thread's messages have numbers below their count.
pub record Numbered {V : Type 0} (db : Db V) : Type 0 where
  pub in_order : (t : ℕ) → below t (count_messages_for_thread db t) db.messages ≡ true

pub record Appended {V : Type 0} (db : Db V) (row : MessageRow) (o : DbResult (Db V)) : Type 0 where
  pub db_after : Db V
  pub done : o ≡ committed db_after
  pub added : db_after.messages ≡ db.messages ++ row ∷ []
  pub numbered : Numbered db_after

module _ {V : Type 0} (db : Db V) (row : MessageRow) where
  abbrev count : ℕ → ℕ
  count t = length (keep (in_thread t) db.messages)

  abbrev Below : ℕ → ℕ → Type 0
  Below t n = below t n (db.messages ++ row ∷ []) ≡ true

  below_here :
      (t : ℕ)
      → row.thread_id ≡ t
      → row.seq ≡ count t
      → below t (count t) db.messages ≡ true
      → Below t (count t + 1)
  below_here t i e h =
      below-append t (count t + 1) db.messages row (below-suc t (count t) db.messages h)
        (ground arith)

  below_elsewhere :
      (t : ℕ) → in_thread t row ≡ false → below t (count t) db.messages ≡ true → Below t (count t)
  below_elsewhere t i h = below-append t (count t) db.messages row h (ground arith)

  still_below :
      (t : ℕ)
      → row.seq ≡ count row.thread_id
      → below t (count t) db.messages ≡ true
      → Below t (length (keep (in_thread t) (db.messages ++ row ∷ [])))
  still_below t e h = elim (Bool-cases (in_thread t row)) [
    | inl here ↦
        let same : row.thread_id ≡ t = ground arith in
        subst (Below t) (sym (ground (arith, count-append t db.messages row, here)))
          (below_here t same (e ∙ ap count same) h)
    | inr elsewhere ↦
        subst (Below t) (sym (ground (arith, count-append t db.messages row, elsewhere)))
          (below_elsewhere t elsewhere h)
  ]

  -- In a database whose messages are numbered below their counts, a message whose number is the
  -- count of its thread is stored, and the messages are numbered so again.
  pub append_message-Appended :
      row.seq ≡ count_messages_for_thread db row.thread_id
      → Numbered db
      → Appended db row (append_message db row)
  unfolding append_message count_messages_for_thread
  append_message-Appended e h = record {
    db_after = record db { messages = db.messages ++ row ∷ [] };
    done = ground (
      arith,
      any-same_seq-below row.thread_id row.seq db.messages (
          subst (λ n. below row.thread_id n db.messages ≡ true) (sym e) (h.in_order row.thread_id)),
    );
    added = refl;
    numbered = record { in_order = λ t. still_below t e (h.in_order t) };
  }
