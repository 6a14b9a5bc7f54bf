-- ===== src/Tests/Messages.antt =====
-- An answer behind the question.
use interview_coach.Base.{refl, none, arith}
use interview_coach.Text.{codes}
use interview_coach.Db.Models.{MessageRow, candidate}
use interview_coach.Db.Threads.{append_message, count_messages_for_thread}
use interview_coach.Db.Threads.Sequence.{Numbered, Appended, append_message-Appended}
use interview_coach.Tests.Toy.{opened}

abbrev answer : MessageRow
answer = record {
  id = 12;
  thread_id = 10;
  seq = 1;
  role = candidate;
  kind = none;
  text = codes "I did.";
}

opened-Numbered : Numbered opened
unfolding count_messages_for_thread
opened-Numbered = record { in_order = λ t. ground arith }

append_message-Appended_example : Appended opened answer (append_message opened answer)
unfolding count_messages_for_thread
append_message-Appended_example = append_message-Appended opened answer refl opened-Numbered
