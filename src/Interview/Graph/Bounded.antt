-- ===== src/Interview/Graph/Bounded.antt =====
-- The threads of a session against its number of questions.
use interview_coach.Base.{
  ℕ, ◌+◌, ◌<◌, ◌≤◌, ◌≡◌, ◌⊎◌, inl, inr, refl, sym, ap, ◌∙◌, subst, true, Option, none, some, List,
  [], ◌∷◌, ◌++◌, map, length, length-append, keep, keep-append, find, arith,
}
use interview_coach.Text.{Text}
use interview_coach.Db.Models.{complete, SessionRow, ThreadRow, Db}
use interview_coach.Db.Rows.{open_in, closed_in, close_at, session_key, set_status}
use interview_coach.Db.Threads.{get_session, count_closed_threads}
use interview_coach.Db.Threads.Laws.{keep-open-close, length-closed-close, find-set_status}

-- The session is stored with its number of questions, and its threads, closed and open, are no more.
pub record Bounded {V : Type 0} (session_id user_id n_questions : ℕ) (db : Db V) : Type 0 where
  pub row : SessionRow
  pub found : get_session db session_id user_id ≡ some row
  pub same_number : row.n_questions ≡ n_questions
  pub within :
      count_closed_threads db session_id + length (keep (open_in session_id) db.threads)
      ≤ n_questions

module _ {V : Type 0} (db d : Db V) (session_id user_id n : ℕ) where
  same_count :
      (ts us : List ThreadRow)
      → us ≡ ts
      → length (keep (closed_in session_id) ts) + length (keep (open_in session_id) ts) ≤ n
      → length (keep (closed_in session_id) us) + length (keep (open_in session_id) us) ≤ n
  same_count ts us e h =
      subst
        (λ xs. length (keep (closed_in session_id) xs) + length (keep (open_in session_id) xs) ≤ n)
        (sym e) h

  pub Bounded-same :
      d.sessions ≡ db.sessions
      → d.threads ≡ db.threads
      → Bounded session_id user_id n db
      → Bounded session_id user_id n d
  unfolding get_session count_closed_threads
  Bounded-same s t h = record {
    row = h.row;
    found = ap (find (session_key session_id user_id)) s ∙ h.found;
    same_number = h.same_number;
    within = same_count db.threads d.threads t h.within;
  }

  one_more :
      (ts : List ThreadRow) (row : ThreadRow)
      → keep (open_in session_id) ts ≡ []
      → open_in session_id row ≡ true
      → length (keep (closed_in session_id) ts) < n
      → length (keep (closed_in session_id) (ts ++ row ∷ []))
          + length (keep (open_in session_id) (ts ++ row ∷ []))
        ≤ n
  one_more ts row h on room = ground (
    arith,
    keep-append (open_in session_id) ts (row ∷ []),
    keep-append (closed_in session_id) ts (row ∷ []),
    length-append (keep (closed_in session_id) ts) (keep (closed_in session_id) (row ∷ [])),
  )

  same_questions :
      (a b : SessionRow)
      → get_session db session_id user_id ≡ some a
      → get_session db session_id user_id ≡ some b
      → a.n_questions ≡ b.n_questions
  same_questions a b h k = ap (λ o. elim o [ none ↦ 0 | some r ↦ r.n_questions ]) (sym h ∙ k)

  -- One thread more, while there is a question left.
  pub Bounded-first :
      (session : SessionRow) (row : ThreadRow)
      → Bounded session_id user_id n db
      → get_session db session_id user_id ≡ some session
      → count_closed_threads db session_id < session.n_questions
      → keep (open_in session_id) db.threads ≡ []
      → open_in session_id row ≡ true
      → d.sessions ≡ db.sessions
      → d.threads ≡ db.threads ++ row ∷ []
      → Bounded session_id user_id n d
  unfolding get_session count_closed_threads
  Bounded-first session row h found room none_open on s t = record {
    row = h.row;
    found = ap (find (session_key session_id user_id)) s ∙ h.found;
    same_number = h.same_number;
    within = same_count (db.threads ++ row ∷ []) d.threads t (
        one_more db.threads row none_open on (
          subst (λ x. length (keep (closed_in session_id) db.threads) < x)
            (same_questions session h.row found h.found ∙ h.same_number) room));
  }

  closed_one :
      (ts : List ThreadRow) (row : ThreadRow) (t score : ℕ) (feedback : Text) (answer : Option Text)
      → keep (open_in session_id) ts ≡ row ∷ []
      → row.id ≡ t
      → length (keep (closed_in session_id) ts) + length (keep (open_in session_id) ts) ≤ n
      → length (keep (closed_in session_id) (map (close_at t score feedback answer) ts))
          + length (keep (open_in session_id) (map (close_at t score feedback answer) ts))
        ≤ n
  closed_one ts row t score feedback answer h e w = ground (
    arith,
    length-closed-close session_id t score feedback answer ts row h e,
    keep-open-close session_id t score feedback answer ts row h e,
  )

  -- The open thread is closed, and the session completed or left alone.
  pub Bounded-closed :
      (row : ThreadRow) (t score : ℕ) (feedback : Text) (answer : Option Text)
      → Bounded session_id user_id n db
      → keep (open_in session_id) db.threads ≡ row ∷ []
      → row.id ≡ t
      → d.threads ≡ map (close_at t score feedback answer) db.threads
      → (d.sessions ≡ map (set_status (session_key session_id user_id) complete) db.sessions)
        ⊎ (d.sessions ≡ db.sessions)
      → Bounded session_id user_id n d
  unfolding get_session count_closed_threads
  Bounded-closed row t score feedback answer h only e ts (inl s) = record {
    row = record h.row { status = complete };
    found =
        ap (find (session_key session_id user_id)) s
        ∙ find-set_status db.sessions session_id user_id complete h.row h.found;
    same_number = h.same_number;
    within =
        same_count (map (close_at t score feedback answer) db.threads) d.threads ts
          (closed_one db.threads row t score feedback answer only e h.within);
  }
  Bounded-closed row t score feedback answer h only e ts (inr s) = record {
    row = h.row;
    found = ap (find (session_key session_id user_id)) s ∙ h.found;
    same_number = h.same_number;
    within =
        same_count (map (close_at t score feedback answer) db.threads) d.threads ts
          (closed_one db.threads row t score feedback answer only e h.within);
  }

-- The session as it is read back.
pub Bounded-session :
    {V : Type 0} (db : Db V) (session_id user_id n : ℕ) (sess : SessionRow)
    → sess.id ≡ session_id
    → sess.user_id ≡ user_id
    → get_session db sess.id sess.user_id ≡ some sess
    → Bounded session_id user_id n db
    → Bounded sess.id sess.user_id sess.n_questions db
Bounded-session db session_id user_id n sess i u found h =
    let b : Bounded sess.id sess.user_id n db =
      subst (λ x. Bounded x sess.user_id n db) (sym i)
        (subst (λ x. Bounded session_id x n db) (sym u) h) in
    record {
      row = sess;
      found = found;
      same_number = refl;
      within =
          subst
            (λ x. count_closed_threads db sess.id + length (keep (open_in sess.id) db.threads) ≤ x)
            (sym (
              same_questions db db sess.id sess.user_id n sess b.row found b.found ∙ b.same_number))
            b.within;
    }
