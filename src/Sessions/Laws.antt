-- ===== src/Sessions/Laws.antt =====
-- What creating and abandoning a session do, on every branch.
use interview_coach.Base.{ℕ, ◌≡◌, refl, sym, ap, ◌∙◌, false, some, map, arith}
use interview_coach.Db.Models.{SessionStatus, active, complete, abandoned, SessionRow, Db}
use interview_coach.Db.Rows.{is_active, session_key, set_status}
use interview_coach.Db.Threads.{get_session, update_session_status}
use interview_coach.Db.Threads.Laws.{find-set_status}
use interview_coach.Sessions.{Reply, replied, reread, abandon_found, abandon_session}

module _ {V : Type 0} (db : Db V) (session_id user_id : ℕ) where
  -- The status that a session has after it was abandoned.
  abbrev pub abandoned_status : SessionStatus → SessionStatus
  abandoned_status active = abandoned
  abandoned_status complete = complete
  abandoned_status abandoned = abandoned

  pub record Abandoned (row : SessionRow) (o : Reply V) : Type 0 where
    pub db_after : Db V
    pub row_after : SessionRow
    pub done : o ≡ replied db_after row_after
    pub stored : get_session db_after session_id user_id ≡ some row_after
    pub same_row : row_after ≡ record row { status = abandoned_status row.status }
    pub threads : db_after.threads ≡ db.threads
    pub messages : db_after.messages ≡ db.messages

  updated :
      (row : SessionRow)
      → get_session db session_id user_id ≡ some row
      → (update_session_status db session_id user_id abandoned).0 ≡ record db {
        sessions = map (set_status (session_key session_id user_id) abandoned) db.sessions;
      }
  unfolding update_session_status
  updated row h = ground arith

  abandon_active :
      (d : Db V) (row : SessionRow)
      → (update_session_status db session_id user_id abandoned).0 ≡ d
      → get_session d session_id user_id ≡ some (record row { status = abandoned })
      → row.status ≡ active
      → abandon_found db session_id user_id (some row)
        ≡ replied d (record row { status = abandoned })
  unfolding abandon_found reread
  abandon_active d row u g e = rw (e, u, g)

  abandon_inactive :
      (row : SessionRow)
      → is_active row.status ≡ false
      → abandon_found db session_id user_id (some row) ≡ replied db row
  unfolding abandon_found
  abandon_inactive row e = rw e

  stays :
      (row : SessionRow)
      → get_session db session_id user_id ≡ some row
      → is_active row.status ≡ false
      → row.status ≡ abandoned_status row.status
      → Abandoned row (abandon_session db session_id user_id)
  unfolding abandon_session
  stays row h off e = record {
    db_after = db;
    row_after = row;
    done = ap (abandon_found db session_id user_id) h ∙ abandon_inactive row off;
    stored = h;
    same_row = ap (λ s. record row { status = s }) e;
    threads = refl;
    messages = refl;
  }

  by_status :
      (row : SessionRow) (s : SessionStatus)
      → get_session db session_id user_id ≡ some row
      → row.status ≡ s
      → Abandoned row (abandon_session db session_id user_id)
  unfolding abandon_session get_session
  by_status row active h e =
      let hit = session_key session_id user_id in
      let d : Db V = record db { sessions = map (set_status hit abandoned) db.sessions } in
      let g = find-set_status db.sessions session_id user_id abandoned row h in
      record {
        db_after = d;
        row_after = record row { status = abandoned };
        done =
            ap (abandon_found db session_id user_id) h ∙ abandon_active d row (updated row h) g e;
        stored = g;
        same_row = ap (λ s. record row { status = s }) (sym (ap abandoned_status e));
        threads = refl;
        messages = refl;
      }
  by_status row complete h e = stays row h (ap is_active e) (e ∙ sym (ap abandoned_status e))
  by_status row abandoned h e = stays row h (ap is_active e) (e ∙ sym (ap abandoned_status e))

  -- A session of the user that is abandoned keeps its threads and its messages. If it was active, it
  -- is stored and returned as abandoned; if it was complete or abandoned, it stays as it was.
  pub abandon_session-Abandoned :
      (row : SessionRow)
      → get_session db session_id user_id ≡ some row
      → Abandoned row (abandon_session db session_id user_id)
  abandon_session-Abandoned row h = by_status row row.status h refl
