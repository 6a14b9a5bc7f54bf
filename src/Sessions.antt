-- ===== src/Sessions.antt =====
-- api/sessions/routes.py: creating and abandoning a session.
pub mod Laws
pub mod Ready
use interview_coach.Base.{ℕ, String, Bool, true, false, Option, none, some, if◌then◌else◌}
use interview_coach.Db.Models.{abandoned, SessionRow, Job, Db}
use interview_coach.Db.Rows.{is_active}
use interview_coach.Db.Threads.{get_session, update_session_status}
use interview_coach.Db.Threads
use interview_coach.Db.Packet.{get_job, get_profile, get_company_snapshot_by_job}
use interview_coach.Interview.State.{Env}
use interview_coach.Db.Documents.{present}
use interview_coach.Prep.Readiness.{analyzed}

pub data SessionError : Type 0 where
  job_not_found job_not_analyzed profile_missing company_snapshot_missing : SessionError
  session_not_found : SessionError
  -- `assert row is not None`
  assertion_error : SessionError

-- An error with its status code, and nothing written; or the database and the row that is returned.
pub data Reply (V : Type 0) : Type 0 where
  rejected : SessionError → Reply V
  replied : Db V → SessionRow → Reply V

module _ {V : Type 0} where
  unfoldable pub prepared_session : Env V → Db V → ℕ → ℕ → ℕ → String → ℕ → Job V → Reply V
  prepared_session env db id user_id job_id round_type n_questions job =
      if analyzed env job.parsed_json
      then (if present (get_profile db user_id)
          then (if present (get_company_snapshot_by_job db job_id)
              then (let made = Threads.create_session db id user_id job_id round_type n_questions in
                  replied made.0 made.1)
              else rejected company_snapshot_missing)
          else rejected profile_missing)
      else rejected job_not_analyzed

  unfoldable pub found_job : Env V → Db V → ℕ → ℕ → ℕ → String → ℕ → Option (Job V) → Reply V
  found_job env db id user_id job_id round_type n_questions none = rejected job_not_found
  found_job env db id user_id job_id round_type n_questions (some job) =
      prepared_session env db id user_id job_id round_type n_questions job

  -- `id` is the fresh id of the row.
  unfoldable pub create_session_route : Env V → Db V → ℕ → ℕ → ℕ → String → ℕ → Reply V
  create_session_route env db id user_id job_id round_type n_questions =
      found_job env db id user_id job_id round_type n_questions (get_job db job_id user_id)

  -- The second read gives the row as it stands then.
  unfoldable pub reread : Db V → Option SessionRow → Reply V
  reread db none = rejected assertion_error
  reread db (some row) = replied db row

  unfoldable pub abandon_found : Db V → ℕ → ℕ → Option SessionRow → Reply V
  abandon_found db session_id user_id none = rejected session_not_found
  abandon_found db session_id user_id (some row) =
      if is_active row.status
      then (let db' = (update_session_status db session_id user_id abandoned).0 in
          reread db' (get_session db' session_id user_id))
      else replied db row

  unfoldable pub abandon_session : Db V → ℕ → ℕ → Reply V
  abandon_session db session_id user_id =
      abandon_found db session_id user_id (get_session db session_id user_id)
