-- ===== src/Lib.antt =====
-- interview_coach: a model of the backend of the interview coach, and what is proved of it.
--
-- The program: a user prepares a job (CV, profile, job analysis, company research) and then runs an
-- interview session. A session is a list of threads, each a question with follow-ups. One endpoint,
-- `session_message` of src/interview_coach/api/sessions/routes.py, drives a graph of three nodes
-- (src/interview_coach/agents/graph.py, graph_nodes.py): the interviewer opens a thread or conducts
-- the open one, the graph waits for the candidate, and the evaluator closes a thread and at last the
-- session. The nodes talk to a language model through `stream_json_object`
-- (src/interview_coach/agents/streaming_json.py) and to the database through the repositories
-- (src/interview_coach/db/repos.py).
--
-- The files:
--   Base, Text        shared names, lists, tests on numbers; texts as lists of code points
--   StreamingJson     agents/streaming_json.py: Automaton is the state machine, character by
--                     character; Unescape the escapes; Pieces JSON strings; Hex, Chunks and Strings its
--                     theorems
--   Rounds            agents/rounds.py and `_coerce_action`; Allowed its theorems
--   Db                db/models.py and db/repos.py: Models the rows, Rows the parts of queries,
--                     Threads, Packet and Documents the operations, Threads/Laws and
--                     Threads/Sequence their laws
--   Profile           the profile of agents/schemas.py
--   Mapping           agents/nodes/doc_intake.py on profiles: Mapping applies rows, Revert takes them
--                     back, Reapply applies those that are stored. Positions, Deletion, Drops and
--                     Owned are about the deletion by positions, Enrich, Growth, Indexed and RoundTrip
--                     about applying and taking back
--   Github            ingestion/github_repo.py: Github and Layout choose files and lay out the tree,
--                     Picked has the budget, Ingest is `ingest_repo`; Nodes is
--                     agents/nodes/github_ingest.py, with
--                     Barrier its fold, and Ids, Selection, Refresh and Deselect what a selection leaves
--   Interview         State is agents/state.py; Interviewer, Conductor and Evaluator are the
--                     streams of agents/nodes/question_generator.py and evaluator.py; Graph the nodes
--                     and edges of agents/graph_nodes.py and graph.py; Route the endpoint. Effects is
--                     the monad they are written in, with Ends its postconditions; each Post says
--                     what its component leaves in the database; Graph/Linked and Graph/Bounded are
--                     the invariant,
--                     Graph/Stops the termination, Route/Recovery the adoption of an open thread,
--                     Route/Refusals the errors of the endpoint, Route/Answers what a message meets,
--                     Route/Cuts what a failed run or one that is cut off leaves, and
--                     Route/Reach the reachable states
--   Prep              Cache is agents/prep_cache.py, Readiness the rollup of db/repos.py, Mappings
--                     the writes of doc_intake.py and profile_builder.py, Loop the mapping loop of
--                     agents/graph_nodes.py, Nodes the other nodes of the preparation with
--                     job_analyzer.py and company_researcher.py
--   Sessions          creating and abandoning a session, of api/sessions/routes.py; Laws and Ready
--                     are their theorems
--   Chunking          rag/chunking.py from the sections of a document on
--   Tests             examples
--
-- State and effects: an action takes a database and gives the events it pushed, the database it
-- left, and a value or an exception. Each repository call commits by itself, so an exception keeps
-- what was committed before it. Ids that `uuid4` draws, the chunks that the model sends, the focus
-- that the picker draws and the passages retrieved for it are inputs (`Supply`); `json.loads`,
-- pydantic's conversion of fields, Python's truth of a JSON value and the tokenizer are parameters
-- (`Python`, `Env`, `Tokenizer`). A model connection may break after any chunk. The preparation
-- takes the answers of its models, of the search, of GitHub and of the embedder from records
-- (`Intake`, `PrepWorld`, `Outside`), and the user's answers from a function.
--
-- Bounds and fuel: a run of the graph has fuel for four nodes; from the interviewer it passes the
-- evaluator and the interviewer again, which opens a thread and then waits. The window loop of the
-- chunker has one step of fuel for each token, since each window begins behind the one before. A pass
-- of the mapping loop maps or skips a document, so its fuel is the number of those that wait.
--
-- Not modelled: the texts of the prompts and the slices of the profile that go into them, the focus
-- picker, retrieval and embedding, the readers of PDF and DOCX files, regular expressions (on the CV,
-- on repository names, and the split of a text into sections), authentication, the other routes,
-- telemetry, and the frontend. An index of a mapping row is not negative. The unique indexes on
-- documents are not checked. The reachable states are those of one session alone: rows that other
-- sessions write meanwhile are not interleaved.
pub mod Base
pub mod Text
pub mod StreamingJson
pub mod Rounds
pub mod Chunking
pub mod Db
pub mod Profile
pub mod Mapping
pub mod Github
pub mod Prep
pub mod Sessions
pub mod Interview
pub mod Tests
