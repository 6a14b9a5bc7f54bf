-- ===== src/Tests/Sessions.antt =====
-- Creating and abandoning a session.
use interview_coach.Base.{◌≡◌, refl, true, some}
use interview_coach.Db.Threads.{get_session}
use interview_coach.Db.Packet.{get_job, get_profile, get_company_snapshot_by_job}
use interview_coach.Prep.Readiness.{
  PrepReadiness, list_documents_for_user, prep_readiness, readiness_of,
}
use interview_coach.Sessions.{abandon_session, create_session_route}
use interview_coach.Sessions.Laws.{Abandoned, abandon_session-Abandoned}
use interview_coach.Sessions.Ready.{Created, create_session_route-Created}
use interview_coach.Text.{Text}
use interview_coach.Tests.Toy.{env, created, session, job}

abandon_session-Abandoned_example : Abandoned created 1 2 session (abandon_session created 1 2)
unfolding get_session
abandon_session-Abandoned_example = abandon_session-Abandoned created 1 2 session refl

found : get_job created 3 2 ≡ some job
unfolding get_job
found = refl

abbrev rollup : PrepReadiness Text
rollup = readiness_of env created 2 3 job

rolled_up : prep_readiness env created 2 3 ≡ some rollup
unfolding prep_readiness get_job
rolled_up = refl

ready : rollup.can_start ≡ true
unfolding readiness_of list_documents_for_user get_profile get_company_snapshot_by_job
ready = refl

create_session_route-Created_example :
    Created created 7 2 3 "technical_challenge" 5
      (create_session_route env created 7 2 3 "technical_challenge" 5)
create_session_route-Created_example =
    create_session_route-Created env created 7 2 3 "technical_challenge" 5 job rollup found
      rolled_up ready
