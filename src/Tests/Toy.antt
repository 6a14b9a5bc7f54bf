-- ===== src/Tests/Toy.antt =====
-- A small instance of what the model takes from outside: JSON values are texts, every text loads,
-- and a question, a judgment and an answer are read off a value without looking at it.
use interview_coach.Base.{◌-◌, true, false, ◌&&◌, none, some, [], ◌∷◌, leb, if◌then◌else◌}
use interview_coach.Text.{Text, codes}
use interview_coach.StreamingJson.Automaton.{Python}
use interview_coach.Db.Models.{
  active, open_thread, interviewer, question, cv, SessionRow, ThreadRow, MessageRow, Job, Db,
}
use interview_coach.Interview.State.{InterviewState, string, Env, Supply}
use interview_coach.Interview.Effects.{Deltas}

abbrev pub json : Python Text
json = record {
  loads = λ t. some t;
  is_dict = λ v. true;
  decimal = λ c. if leb b'0' c && leb c b'9' then some (c - b'0') else none;
}

abbrev pub env : Env Text
env = record {
  py = json;
  get = λ v k. some (codes "advance");
  shape = λ v. string v;
  question_fields = λ v. some (record { question = codes "Why?"; anchors = [] });
  judgment_fields = λ v. some (record { score = 7; feedback = codes "Good." });
  model_answer_field = λ v. some (codes "Because.");
}

abbrev pub reply : Deltas
reply = record { chunks = codes "{\"question\": \"W" ∷ codes "hy?\"}" ∷ []; broken = false }

abbrev pub supply : Supply
supply = record {
  candidate_message_id = 100;
  thread_id = 20;
  message_id = 101;
  picked = none;
  passages = [];
  reply = reply;
  model_answer = reply;
}

abbrev pub session : SessionRow
session = record {
  id = 1;
  user_id = 2;
  job_id = 3;
  round_type = "behavioral_star";
  status = active;
  n_questions = 2;
}

abbrev pub thread : ThreadRow
thread = record {
  id = 10;
  session_id = 1;
  thread_index = 0;
  anchors_json = [];
  focus_key = none;
  focus_label = none;
  focus_document_ids = none;
  status = open_thread;
  score = none;
  feedback = none;
  model_answer = none;
}

abbrev pub asked_message : MessageRow
asked_message = record {
  id = 11;
  thread_id = 10;
  seq = 0;
  role = interviewer;
  kind = some question;
  text = codes "Why?";
}

abbrev pub job : Job Text
job = record {
  id = 3;
  user_id = 2;
  raw_text = codes "JD";
  source_url = none;
  content_hash = none;
  parsed_json = some (codes "job");
}

-- A session that was just created, with its preparation done.
abbrev pub created : Db Text
created = record {
  sessions = session ∷ [];
  threads = [];
  messages = [];
  documents =
      record {
        id = 5;
        user_id = 2;
        kind = cv;
        raw_text = codes "CV";
        project_title = none;
        source_url = none;
        parsed_json = none;
        content_hash = none;
      }
      ∷ [];
  mappings = [];
  jobs = job ∷ [];
  profiles = record { user_id = 2; profile_json = codes "profile"; source_doc_ids = 5 ∷ [] } ∷ [];
  snapshots =
      record { job_id = 3; company_name = codes "Acme"; snapshot_json = codes "company" } ∷ [];
}

-- The same session with its first thread open.
abbrev pub opened : Db Text
opened = record created { threads = thread ∷ []; messages = asked_message ∷ [] }

abbrev pub before : InterviewState Text
before = record {
  user_id = 2;
  session_id = 1;
  round_type = "behavioral_star";
  n_questions = 2;
  thread_id = none;
  thread_index = 0;
  anchors = [];
  focus_key = none;
  focus_label = none;
  focus_document_ids = [];
  grounding = [];
  followups_used = 0;
  pending_message = none;
  next_move = none;
  session_status = none;
  profile = some (codes "profile");
  job = some (codes "job");
  company = some (codes "company");
}

abbrev pub asked_state : InterviewState Text
asked_state = record before { thread_id = some 10; pending_message = some (codes "I did.") }
