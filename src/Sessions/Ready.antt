-- ===== src/Sessions/Ready.antt =====
-- The rollup of the preparation against the endpoint that creates a session.
use interview_coach.Base.{
  ℕ, String, ◌≡◌, refl, ap, ◌∙◌, sym, subst, true, false, none, some, [], ◌∷◌, ◌++◌,
}
use interview_coach.Db.Models.{active, SessionRow, Job, Db}
use interview_coach.Db.Threads.{create_session}
use interview_coach.Db.Packet.{get_job, get_profile, get_company_snapshot_by_job}
use interview_coach.Interview.State.{Env}
use interview_coach.Db.Documents.{present}
use interview_coach.Prep.Readiness.{analyzed, prep_readiness, PrepReadiness, prep_readiness-Ready}
use interview_coach.Sessions.{Reply, replied, found_job, prepared_session, create_session_route}

-- A reply that created an active session, and wrote nothing else.
pub record Created {V : Type 0} (db : Db V) (id user_id job_id : ℕ) (round_type : String)
    (n_questions : ℕ) (o : Reply V) : Type 0 where
  pub db_after : Db V
  pub row : SessionRow
  pub done : o ≡ replied db_after row
  pub written : db_after ≡ record db { sessions = db.sessions ++ row ∷ [] }
  pub row_id : row.id ≡ id
  pub row_user : row.user_id ≡ user_id
  pub row_job : row.job_id ≡ job_id
  pub row_round : row.round_type ≡ round_type
  pub row_questions : row.n_questions ≡ n_questions
  pub row_active : row.status ≡ active

module _ {V : Type 0} (env : Env V) (db : Db V) (id user_id job_id : ℕ) (round_type : String)
    (n_questions : ℕ) where
  prepared_session-Created :
      (job : Job V)
      → analyzed env job.parsed_json ≡ true
      → present (get_profile db user_id) ≡ true
      → present (get_company_snapshot_by_job db job_id) ≡ true
      → Created db id user_id job_id round_type n_questions
          (prepared_session env db id user_id job_id round_type n_questions job)
  unfolding prepared_session create_session
  prepared_session-Created job a p c = record {
    db_after = (create_session db id user_id job_id round_type n_questions).0;
    row = (create_session db id user_id job_id round_type n_questions).1;
    done = rw (a, p, c);
    written = refl;
    row_id = refl;
    row_user = refl;
    row_job = refl;
    row_round = refl;
    row_questions = refl;
    row_active = refl;
  }

  -- If the rollup for a job of the user says that the interview may start, then the endpoint creates
  -- the session: one active row with what was asked for, and nothing else.
  pub create_session_route-Created :
      (job : Job V) (r : PrepReadiness V)
      → get_job db job_id user_id ≡ some job
      → prep_readiness env db user_id job_id ≡ some r
      → r.can_start ≡ true
      → Created db id user_id job_id round_type n_questions
          (create_session_route env db id user_id job_id round_type n_questions)
  unfolding create_session_route found_job
  create_session_route-Created job r h e start =
      let ready = prep_readiness-Ready env db user_id job_id job h in
      let all =
        ready.can_start.0
          (ap (λ o. elim o [ none ↦ false | some x ↦ x.can_start ]) (sym ready.done ∙ e) ∙ start) in
      subst
        (λ o.
          Created db id user_id job_id round_type n_questions
            (found_job env db id user_id job_id round_type n_questions o))
        (sym h) (prepared_session-Created job all.2 all.1 all.3)
