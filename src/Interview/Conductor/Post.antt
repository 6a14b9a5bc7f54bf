-- ===== src/Interview/Conductor/Post.antt =====
-- What one step of the conductor leaves in the database, on every path.
use interview_coach.Base.{ℕ, ◌≡◌, refl, Option, none, some, List}
use interview_coach.Text.{Text, codes}
use interview_coach.Rounds
use interview_coach.Rounds.{Action}
use interview_coach.Db.Models.{MoveKind, Db}
use interview_coach.Interview.Effects.Ends.{
  Ends, Ends-bind_same, Ends-stream, Ends-insert, Ends-pure, Ends-throw, Ends-tell, Ends-reads,
}
use interview_coach.Interview.Frames.{Frame, Frame-refl, Asked, append_message-Asked}
use interview_coach.Interview.State.{Env, Supply, falsy, string, other}
use interview_coach.Interview.Conductor.{
  Conducting, Conducted, advanced, conducted, message_text, text_of_shape, say_move, close_or_say,
  settled, stream_move, stream_conduct,
}

abbrev pub ConductPost : {V : Type 0} → ℕ → Db V → Conducted → Db V → Type 0
ConductPost thread_id db advanced db' = Frame db db'
ConductPost thread_id db (conducted k) db' = Asked thread_id db db'

module _ {V : Type 0} (env : Env V) where
  message_text-Ends :
      (o : Option V) (full : Text) (db : Db V)
      → Ends (Frame db) (λ _ d. d ≡ db) (message_text env o full db)
  unfolding message_text text_of_shape
  message_text-Ends none full db = Ends-pure _ _ _ db refl
  message_text-Ends (some v) full db =
      elim (env.shape v) as (λ sh. Ends (Frame db) (λ _ d. d ≡ db) (text_of_shape env sh full db)) [
        | falsy ↦ Ends-pure _ _ _ db refl
        | string t ↦ Ends-pure _ _ _ db refl
        | other t ↦ Ends-throw _ _ _ db (Frame-refl db)
      ]

module _ {V : Type 0} (env : Env V) (s : Supply) (thread_id thread_index : ℕ) where
  say_move-Ends :
      (k : MoveKind) (parsed : V) (c : Conducting) (db : Db V)
      → Ends
          (Frame db)
          (ConductPost thread_id db)
          (say_move env s thread_id thread_index k parsed c db)
  unfolding say_move
  say_move-Ends k parsed c db =
      Ends-bind_same _ _ (message_text env (env.get parsed (codes "message")) c.full_message) _ db
        (message_text-Ends env _ c.full_message db)
        (λ text. Ends-tell _ _ _ _ db (
          Ends-tell _ _ _ _ db (
            Ends-reads _ _ _ _ db (
              Ends-insert _ _ _ _ db (Frame-refl db)
                (λ d h. Ends-pure _ _ _ d (append_message-Asked db d _ refl h))))))

  close_or_say-Ends :
      (a : Action) (parsed : V) (c : Conducting) (db : Db V)
      → Ends
          (Frame db)
          (ConductPost thread_id db)
          (close_or_say env s thread_id thread_index a parsed c db)
  unfolding close_or_say
  close_or_say-Ends Rounds.Action.advance parsed c db = Ends-pure _ _ advanced db (Frame-refl db)
  close_or_say-Ends (Rounds.Action.move k) parsed c db = say_move-Ends k parsed c db

  stream_move-Ends :
      (allowed : List Action) (db : Db V)
      → Ends (Frame db) (λ _ d. d ≡ db) (stream_move env allowed thread_index s db)
  unfolding stream_move
  stream_move-Ends allowed db =
      Ends-stream _ _ _ db _ _ (Frame-refl db) (λ parsed. Ends-pure _ _ _ db refl)

  -- A step that raises or advances leaves sessions and threads as before, and each thread asked as
  -- often as before. One that makes a move leaves sessions and threads as before, and its thread
  -- asked once more.
  pub stream_conduct-Ends :
      (allowed : List Action) (db : Db V)
      → Ends
          (Frame db)
          (ConductPost thread_id db)
          (stream_conduct env s thread_id thread_index allowed db)
  unfolding stream_conduct
  stream_conduct-Ends allowed db =
      Ends-bind_same _ _ _ _ db (stream_move-Ends allowed db)
        (λ read. close_or_say-Ends (settled env allowed read.0 read.1.action) read.0 read.1 db)
