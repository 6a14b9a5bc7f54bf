-- ===== src/Interview/Route/Recovery.antt =====
-- What `session_message` reads from the database of a thread that a failed run left open.
use interview_coach.Base.{
  ℕ, String, ◌+◌, ◌-◌, ◌≡◌, refl, sym, ap, ◌∙◌, Bool, Option, none, some, List, [], ◌∷◌, length,
  keep, arith,
}
use interview_coach.Text.{Text}
use interview_coach.Db.Models.{SessionRow, ThreadRow, MessageRow, Db}
use interview_coach.Db.Rows.{insert_by, order_by, open_in, in_thread}
use interview_coach.Db.Threads.{get_open_thread, list_messages_for_thread}
use interview_coach.Db.Threads.Laws.{is_interviewer, asks, asked}
use interview_coach.Interview.Graph.{Pause}
use interview_coach.Interview.Graph.Linked.{OpenThread, LinkedAt}
use interview_coach.Interview.Route.{followups_of, fresh_input, adopt}

-- Sorting keeps how many rows pass a test.
module _ {ℓ} {A : Type ℓ} (column : A → ℕ) (p : A → Bool) where
  length-keep-insert_by :
      (a : A) (as' : List A) → length (keep p (insert_by column a as')) ≡ length (keep p (a ∷ as'))
  unfolding insert_by
  length-keep-insert_by a [] = refl
  length-keep-insert_by a (b ∷ bs) = ground (arith, length-keep-insert_by a bs)

  length-keep-order_by :
      (as' : List A) → length (keep p (order_by column as')) ≡ length (keep p as')
  unfolding order_by
  length-keep-order_by [] = refl
  length-keep-order_by (a ∷ as') =
      ground (arith, length-keep-insert_by a (order_by column as'), length-keep-order_by as')

keep-asks :
    (ms : List MessageRow) (t : ℕ)
    → keep (λ m. is_interviewer m.role) (keep (in_thread t) ms) ≡ keep (asks t) ms
keep-asks [] t = refl
keep-asks (m ∷ ms) t = ground (arith, keep-asks ms t)

module _ {V : Type 0} (db : Db V) where
  get_open_thread-only :
      (session_id : ℕ) (row : ThreadRow)
      → keep (open_in session_id) db.threads ≡ row ∷ []
      → get_open_thread db session_id ≡ some row
  unfolding get_open_thread order_by insert_by
  get_open_thread-only session_id row h = rw h

  followups_of-asked :
      (t : ℕ) → followups_of (list_messages_for_thread db t) ≡ asked db.messages t - 1
  unfolding followups_of list_messages_for_thread asked
  followups_of-asked t =
      ap (λ n. n - 1)
        (length-keep-order_by (λ m. m.seq) (λ m. is_interviewer m.role)
            (keep (in_thread t) db.messages)
          ∙ ap length (keep-asks db.messages t))

  -- What `adopt` makes of the open thread of a session.
  pub record Adopted (session_id : ℕ) (round_type : String) (o : Option ℕ) (thread_index used : ℕ)
      (sess : SessionRow) (checkpoint : Option (Pause V)) (msg : Text) : Type 0 where
    pub row : ThreadRow
    pub read_back : get_open_thread db session_id ≡ some row
    pub same_thread : (adopt row msg db (fresh_input sess checkpoint db)).thread_id ≡ o
    pub same_index : (adopt row msg db (fresh_input sess checkpoint db)).thread_index ≡ thread_index
    pub same_count : (adopt row msg db (fresh_input sess checkpoint db)).followups_used ≡ used

  -- If a thread is the one open thread of a session, with its index and its count of follow-ups,
  -- then the endpoint reads back from the database that thread, that index and that count.
  pub adopt-same :
      (session_id : ℕ) (round_type : String) (t thread_index used : ℕ) (sess : SessionRow)
      (checkpoint : Option (Pause V)) (msg : Text)
      → OpenThread 0 session_id round_type t thread_index used db
      → Adopted session_id round_type (some t) thread_index used sess checkpoint msg
  unfolding adopt fresh_input
  adopt-same session_id round_type t thread_index used sess checkpoint msg h = record {
    row = h.row;
    read_back = get_open_thread-only session_id h.row h.only;
    same_thread = ap some h.row_id;
    same_index = h.row_index;
    same_count =
        followups_of-asked h.row.id
        ∙ ap (λ x. asked db.messages x - 1) h.row_id
        ∙ ground (arith, h.in_step);
  }

  read_back-row :
      (session_id : ℕ) (row row' : ThreadRow)
      → keep (open_in session_id) db.threads ≡ row ∷ []
      → get_open_thread db session_id ≡ some row'
      → row ≡ row'
  read_back-row session_id row row' h e = ground (arith, get_open_thread-only session_id row h, e)

  no_open_thread :
      (session_id : ℕ)
      → keep (open_in session_id) db.threads ≡ []
      → get_open_thread db session_id ≡ none
  unfolding get_open_thread order_by
  no_open_thread session_id h = rw h

  -- The message that a thread lacks which was never asked.
  abbrev pub lacking : ℕ → ℕ
  lacking n = 1 - n

  -- Whatever thread is read back, it is linked with its own count of follow-ups; what was lost before
  -- is made up for, but for the question of a thread that was never asked.
  read_back-OpenThread :
      (lost session_id : ℕ) (round_type : String) (t thread_index used : ℕ) (row : ThreadRow)
      → OpenThread lost session_id round_type t thread_index used db
      → get_open_thread db session_id ≡ some row
      → OpenThread
          (lacking (asked db.messages row.id))
          session_id
          round_type
          row.id
          row.thread_index
          (followups_of (list_messages_for_thread db row.id))
          db
  read_back-OpenThread lost session_id round_type t thread_index used row h e =
      let asked_row : asked db.messages row.id + lost ≡ used + 1 =
        ap (λ x. asked db.messages x + lost)
          (ap (λ r. r.id) (sym (read_back-row session_id h.row row h.only e)) ∙ h.row_id)
        ∙ h.in_step in
      record {
        row = row;
        only = h.only ∙ ap (λ r. r ∷ []) (read_back-row session_id h.row row h.only e);
        row_id = refl;
        row_index = refl;
        in_step = omega (arith, followups_of-asked row.id);
        within = λ s known. omega (arith, followups_of-asked row.id, asked_row, h.within s known);
      }

  pub read_back-LinkedAt :
      (lost session_id : ℕ) (round_type : String) (o : Option ℕ) (thread_index used : ℕ)
      (row : ThreadRow)
      → LinkedAt lost session_id round_type o thread_index used db
      → get_open_thread db session_id ≡ some row
      → OpenThread
          (lacking (asked db.messages row.id))
          session_id
          round_type
          row.id
          row.thread_index
          (followups_of (list_messages_for_thread db row.id))
          db
  read_back-LinkedAt lost session_id round_type none thread_index used row (h, l) e =
      ground (arith, no_open_thread session_id h, e)
  read_back-LinkedAt lost session_id round_type (some t) thread_index used row h e =
      read_back-OpenThread lost session_id round_type t thread_index used row h e
