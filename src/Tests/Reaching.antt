-- ===== src/Tests/Reaching.antt =====
-- A session that has asked its first question and has got an answer.
use interview_coach.Base.{arith}
use interview_coach.Base.{◌≡◌, refl, none, some, [], ◌∷◌, ◌++◌}
use interview_coach.Text.{Text, codes}
use interview_coach.Db.Models.{question, ThreadRow, Db}
use interview_coach.Db.Rows.{new_thread}
use interview_coach.Db.Threads.{get_thread}
use interview_coach.Interview.Effects.{returned}
use interview_coach.Interview.State.{InterviewState, say}
use interview_coach.Interview.Interviewer.Post.{FreshThread}
use interview_coach.Interview.Graph.{
  interviewer, after_interviewer, node_interviewer, node_await_candidate,
}
use interview_coach.Interview.Route.{fresh_input}
use interview_coach.Interview.Route.Reach.{Reach, begins, interviews, answers, Agrees, Reach-Agrees}
use interview_coach.Db.Threads.{get_session, count_closed_threads, create_thread, append_message}
use interview_coach.Db.Packet.{get_profile, get_job, get_company_snapshot_by_job}
use interview_coach.Interview.Effects.{
  ◌>>=◌, ◌>>◌, pure, reads, require, guard, continue, insert, parse_deltas, stored, tell, throw,
}
use interview_coach.Interview.Graph.{
  persist_pending_candidate, open_or_conduct, open_fresh, open_told,
}
use interview_coach.Interview.Interviewer.{
  stream_open_thread, load_context, load_profile, load_job, load_snapshot, open_token,
  stream_question,
}
use interview_coach.Rounds.{get_round_strategy}
use interview_coach.StreamingJson.{feed, feed_chunks, finish, stream_json_object}
use interview_coach.StreamingJson.Automaton.{start, step}
use interview_coach.Text.{text_eq, member, isspace}
use interview_coach.Tests.Toy.{env, supply, session, created}

fresh : FreshThread created supply.thread_id
unfolding get_thread
fresh = record { unused = refl; silent = refl }

abbrev asking : InterviewState Text
asking = record (fresh_input session none created) {
  thread_id = some 20;
  next_move = some (say question);
}

asks :
    (node_interviewer env supply (fresh_input session none created) created).result
    ≡ returned asking
unfolding node_interviewer fresh_input get_session count_closed_threads create_thread append_message
    get_profile get_job get_company_snapshot_by_job ◌>>=◌ ◌>>◌ pure reads require guard continue
    insert parse_deltas stored tell throw persist_pending_candidate open_or_conduct open_fresh
    open_told stream_open_thread load_context load_profile load_job load_snapshot open_token
    stream_question get_round_strategy feed feed_chunks finish stream_json_object start step text_eq
    member isspace
asks = refl

abbrev opening : InterviewState Text
opening = fresh_input session none created

begun : Reach env interviewer opening created
unfolding get_session count_closed_threads
begun = begins session none created refl (ground arith) refl

reached :
    Reach env
      (after_interviewer asking.next_move)
      asking
      (node_interviewer env supply opening created).db
reached = interviews supply opening asking created begun fresh asks

answered :
    Reach env interviewer
      (node_await_candidate (codes "I did.") asking)
      (node_interviewer env supply opening created).db
unfolding after_interviewer
answered = answers (codes "I did.") asking (node_interviewer env supply opening created).db reached

answered-Agrees :
    Agrees interviewer
      (node_await_candidate (codes "I did.") asking)
      (node_interviewer env supply opening created).db
answered-Agrees =
    Reach-Agrees env interviewer (node_await_candidate (codes "I did.") asking)
      (node_interviewer env supply opening created).db answered

-- The run is cut off between the commit of the thread and that of its question.
abbrev unasked : ThreadRow
unasked = new_thread 1 0 [] none none none 20

abbrev cut : Db Text
cut = record created { threads = created.threads ++ unasked ∷ [] }
