-- ===== src/Interview/Effects.antt =====
-- What a graph node can do: read and write the database, push events onto the stream, and raise.
pub mod Ends
use interview_coach.Base.{ℕ, Bool, true, false, Option, none, some, List, [], ◌++◌, if◌then◌else◌}
use interview_coach.Text.{Text}
use interview_coach.StreamingJson.Automaton.{StreamError, Event, Python, start}
use interview_coach.StreamingJson.{raised, running, feed_chunks, stream_json_object}
use interview_coach.Db.Models.{SessionStatus, MoveKind, Db}
use interview_coach.Db.Rows.{DbResult, committed, failed}

-- The exceptions that a node lets out, with the code that their text carries.
pub data Exn : Type 0 where
  session_not_found : Exn
  session_status : SessionStatus → Exn
  session_complete : Exn
  profile_missing job_not_found job_not_analyzed company_snapshot_missing : Exn
  unknown_round_type : Exn
  streaming_json_error : StreamError → Exn
  schema_validation : Exn
  thread_not_found : Exn
  integrity : Exn
  model_unavailable : Exn
  attribute_error : Exn

-- agents/interview_events.py: the framing events, and the inner events of the token streams.
pub data Wire (V : Type 0) : Type 0 where
  move : MoveKind → ℕ → ℕ → Wire V
  move_done : Option (List Text) → Wire V
  evaluation : ℕ → Wire V
  evaluation_done : ℕ → SessionStatus → ℕ → Wire V
  wrap : Wire V
  error : Exn → Wire V
  token : ℕ → Wire V
  score : V → Wire V
  feedback_token : ℕ → Wire V
  feedback_done : Wire V
  model_answer_token : ℕ → Wire V
  model_answer_done : Wire V
  model_answer_error : Exn → Wire V

pub data Result {ℓ} (A : Type ℓ) : Type ℓ where
  returned : A → Result A
  threw : Exn → Result A

pub record Ran (V A : Type 0) : Type 0 where
  pub events : List (Wire V)
  pub db : Db V
  pub result : Result A

-- An action over the database. What an exception leaves behind is what was committed before it.
abbrev pub M : Type 0 → Type 0 → Type 0
M V A = Db V → Ran V A

module _ {V A : Type 0} where
  unfoldable pub pure : A → M V A
  pure a db = record { events = []; db = db; result = returned a }

  unfoldable pub throw : Exn → M V A
  throw e db = record { events = []; db = db; result = threw e }

  -- An error, if there is no value.
  unfoldable pub require : Option A → Exn → M V A
  unfolding pure throw
  require none e = throw e
  require (some a) e = pure a

  -- A query
  unfoldable pub reads : (Db V → A) → M V A
  reads f db = record { events = []; db = db; result = returned (f db) }

module _ {V A B : Type 0} where
  unfoldable pub continue : List (Wire V) → Db V → Result A → (A → M V B) → Ran V B
  continue evs db (threw e) k = record { events = evs; db = db; result = threw e }
  continue evs db (returned a) k =
      let rest = k a db in
      record { events = evs ++ rest.events; db = rest.db; result = rest.result }

  infixl 5 ◌>>=◌
  unfoldable pub ◌>>=◌ : M V A → (A → M V B) → M V B
  unfolding continue
  ◌>>=◌ m k db = let r = m db in continue r.events r.db r.result k

infixl 5 ◌>>◌
unfoldable pub ◌>>◌ : {V B : Type 0} → M V (Unit {0}) → M V B → M V B
unfolding ◌>>=◌
m >> k = m >>= λ _. k

module _ {V : Type 0} where
  -- `writer(…)`
  unfoldable pub tell : List (Wire V) → M V (Unit {0})
  tell evs db = record { events = evs; db = db; result = returned tt }

  unfoldable pub guard : Bool → Exn → M V (Unit {0})
  unfolding pure throw
  guard true e = pure tt
  guard false e = throw e

  unfoldable pub stored : Db V → DbResult (Db V) → Ran V (Unit {0})
  stored db (committed db') = record { events = []; db = db'; result = returned tt }
  stored db (failed _) = record { events = []; db = db; result = threw integrity }

  -- An insert, which a unique index may refuse.
  unfoldable pub insert : (Db V → DbResult (Db V)) → M V (Unit {0})
  unfolding stored
  insert f db = stored db (f db)

  -- An update, whose count of rows is not looked at.
  unfoldable pub update : (Db V → Db V × Bool) → M V (Unit {0})
  update f db = record { events = []; db = (f db).0; result = returned tt }

-- The chunks that the language model sends; the connection may break after the last of them.
pub record Deltas : Type 0 where
  pub chunks : List Text
  pub broken : Bool

module _ {V : Type 0} (py : Python V) (strings scalars : List Text) where
  -- `stream_json_object` over the model's chunks: the pairs in order, then the parsed object.
  unfoldable pub parse_deltas : Deltas → List (Event V) × Result V
  parse_deltas d =
      if d.broken
      then (let run = feed_chunks py strings scalars start d.chunks in
          (
            run.events,
            elim run.outcome [
              | raised e ↦ threw (streaming_json_error e)
              | running m ↦ threw model_unavailable
            ],
          ))
      else (let run = stream_json_object py strings scalars d.chunks in
          (
            run.events,
            elim run.outcome [ raised e ↦ threw (streaming_json_error e) | running v ↦ returned v ],
          ))
