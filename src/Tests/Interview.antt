-- ===== src/Tests/Interview.antt =====
-- The interview at work.
use interview_coach.Interview.Route.{message_of}
use interview_coach.Interview.Route.Refusals.{error_of, table, session_message-error}
use interview_coach.Db.Threads.{get_session, count_closed_threads}
use interview_coach.Base.{suc, ◌≡◌, refl, none, some, arith}
use interview_coach.Text.{codes}
use interview_coach.Db.Threads.{get_thread}
use interview_coach.Db.Threads.Laws.{asked}
use interview_coach.Interview.Effects.Ends.{Ends}
use interview_coach.Interview.Frames.{Frame}
use interview_coach.Interview.Interviewer.{stream_open_thread}
use interview_coach.Interview.Interviewer.Post.{FreshThread, OpenPost, stream_open_thread-Ends}
use interview_coach.Interview.Conductor.{stream_conduct}
use interview_coach.Interview.Conductor.Post.{ConductPost, stream_conduct-Ends}
use interview_coach.Interview.Evaluator.{stream_thread_evaluation}
use interview_coach.Interview.Evaluator.Post.{ClosePost, stream_thread_evaluation-Ends}
use interview_coach.Interview.Graph.{interviewer, after_interviewer, drive, node_interviewer}
use interview_coach.Interview.Graph.Linked.{OpenThread}
use interview_coach.Interview.Graph.At.{At}
use interview_coach.Interview.Graph.Post.{node_interviewer-Ends}
use interview_coach.Interview.Graph.Stops.{Stopped, drive_stops}
use interview_coach.Interview.Route.{session_message}
use interview_coach.Interview.Route.Answers.{Answered, session_message-Answered}
use interview_coach.Interview.Route.Recovery.{Adopted, adopt-same}
use interview_coach.Rounds.{behavioral_star, conductor_allowed_actions}
use interview_coach.Tests.Toy.{env, supply, session, thread, created, opened, before, asked_state}

fresh : FreshThread created supply.thread_id
unfolding get_thread
fresh = record { unused = refl; silent = refl }

opened-OpenThread : OpenThread 0 1 "behavioral_star" 10 0 0 opened
unfolding asked
opened-OpenThread = record {
  row = thread;
  only = refl;
  row_id = refl;
  row_index = refl;
  in_step = refl;
  within = λ s e. ground arith;
}

created-At : At 0 interviewer before created
unfolding get_session count_closed_threads
created-At = record {
  linked = (refl, refl);
  placed = tt;
  bounded = record { row = session; found = refl; same_number = refl; within = ground arith };
}

node_interviewer-Ends_example :
    Ends
      (Frame created)
      (λ st' d. At 0 (after_interviewer st'.next_move) st' d)
      (node_interviewer env supply before created)
node_interviewer-Ends_example = node_interviewer-Ends env supply 0 before created created-At fresh

stream_thread_evaluation-Ends_example :
    Ends
      (λ d. d ≡ opened)
      (ClosePost 1 2 10 opened)
      (stream_thread_evaluation env supply 1 2 10 0 "behavioral_star" opened)
stream_thread_evaluation-Ends_example =
    stream_thread_evaluation-Ends env opened supply 1 2 10 0 "behavioral_star"

stream_open_thread-Ends_example :
    Ends
      (λ d. d ≡ created)
      (OpenPost supply 1 2 created)
      (stream_open_thread env supply 1 2 none none none created)
stream_open_thread-Ends_example =
    stream_open_thread-Ends env created supply 1 2 none none none fresh

stream_conduct-Ends_example :
    Ends
      (Frame opened)
      (ConductPost 10 opened)
      (stream_conduct env supply 10 0 (conductor_allowed_actions behavioral_star) opened)
stream_conduct-Ends_example =
    stream_conduct-Ends env supply 10 0 (conductor_allowed_actions behavioral_star) opened

drive_stops_example :
    Stopped (drive env (suc (suc (suc 1))) (λ n. supply) interviewer asked_state opened).pause
drive_stops_example = drive_stops env (λ n. supply) 1 asked_state opened

session_message-Answered_example :
    Answered env
      (λ n. supply)
      opened
      1
      2
      none
      (some (codes "I did."))
      (session_message env (λ n. supply) 1 2 none (some (codes "I did.")) opened)
session_message-Answered_example =
    session_message-Answered env (λ n. supply) opened 1 2 none (some (codes "I did."))

adopt-same_example : Adopted opened 1 "behavioral_star" (some 10) 0 0 session none (codes "I did.")
adopt-same_example =
    adopt-same opened 1 "behavioral_star" 10 0 0 session none (codes "I did.") opened-OpenThread

session_message-error_example :
    error_of (session_message env (λ n. supply) 1 2 none none opened)
    ≡ table opened none (message_of env none) (get_session opened 1 2)
session_message-error_example = session_message-error env (λ n. supply) opened 1 2 none none
