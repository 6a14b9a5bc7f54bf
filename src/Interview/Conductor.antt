-- ===== src/Interview/Conductor.antt =====
-- `stream_conduct` of agents/nodes/question_generator.py: one step of the conductor on an open
-- thread. The fold over the parser's pairs keeps the local variables of the `async for` loop.
pub mod Post
use interview_coach.Base.{
  ℕ, Bool, true, false, not, Option, none, some, List, [], ◌∷◌, ◌++◌, map, if◌then◌else◌,
}
use interview_coach.Text.{Text, codes, strip, text_eq}
use interview_coach.StreamingJson.Automaton.{Event, chunk, field_done, scalar, done}
use interview_coach.Rounds
use interview_coach.Rounds.{Action, get_round_strategy, conductor_allowed_actions, coerce_action}
use interview_coach.Db.Models.{MoveKind, interviewer, Db}
use interview_coach.Db.Threads.{append_message, count_messages_for_thread}
use interview_coach.Interview.Effects.{
  M, Result, unknown_round_type, attribute_error, Wire, move, move_done, token, pure, throw,
  require, reads, ◌>>=◌, ◌>>◌, tell, insert, parse_deltas, continue,
}
use interview_coach.Interview.State.{Shape, falsy, string, other, Env, Supply}

pub record Conducting : Type 0 where
  pub action : Option Action
  pub emitted_move : Bool
  pub buffered : Text
  pub full_message : Text

-- What the step comes to: `("advance", {})`, or `("conducted", {action, …})`.
pub data Conducted : Type 0 where
  advanced : Conducted
  conducted : MoveKind → Conducted

abbrev pub begin : Conducting
begin = record { action = none; emitted_move = false; buffered = []; full_message = [] }

module _ {V : Type 0} (env : Env V) where
  abbrev pub tokens : Text → List (Wire V)
  tokens = map token

  -- `str(raw or "")`
  unfoldable pub raw_text : Option V → Text
  raw_text none = []
  raw_text (some v) = elim (env.shape v) [ falsy ↦ [] | string t ↦ t | other t ↦ t ]

  unfoldable pub on_action : Action → ℕ → ℕ → Conducting → List (Wire V) × Conducting
  on_action Rounds.Action.advance thread_index message_id c =
      ([], record c { action = some Rounds.Action.advance })
  on_action (Rounds.Action.move k) thread_index message_id c = (
    move k thread_index message_id ∷ tokens c.buffered,
    record c { action = some (Rounds.Action.move k); emitted_move = true; buffered = [] },
  )

  unfoldable pub on_chunk : Option Action → ℕ → Conducting → List (Wire V) × Conducting
  on_chunk none ch c =
      ([], record c { full_message = c.full_message ++ ch ∷ []; buffered = c.buffered ++ ch ∷ [] })
  on_chunk (some Rounds.Action.advance) ch c =
      ([], record c { full_message = c.full_message ++ ch ∷ [] })
  on_chunk (some (Rounds.Action.move _)) ch c =
      (token ch ∷ [], record c { full_message = c.full_message ++ ch ∷ [] })

  unfoldable pub on_event : List Action → ℕ → ℕ → Event V → Conducting → List (Wire V) × Conducting
  on_event allowed thread_index message_id (scalar k v) c =
      if text_eq k (codes "action")
      then on_action (coerce_action (raw_text (some v)) allowed) thread_index message_id c
      else ([], c)
  on_event allowed thread_index message_id (chunk k ch) c =
      if text_eq k (codes "message") then on_chunk c.action ch c else ([], c)
  on_event allowed thread_index message_id _ c = ([], c)

  unfoldable pub on_events :
      List Action → ℕ → ℕ → List (Event V) → Conducting → List (Wire V) × Conducting
  on_events allowed thread_index message_id [] c = ([], c)
  on_events allowed thread_index message_id (ev ∷ evs) c =
      let (out, c') = on_event allowed thread_index message_id ev c in
      let (more, c'') = on_events allowed thread_index message_id evs c' in (out ++ more, c'')

  -- The move's utterance, streamed as its chunks arrive, and the parsed object.
  unfoldable pub stream_move : List Action → ℕ → Supply → M V (V × Conducting)
  stream_move allowed thread_index s db =
      let (events, result) =
        parse_deltas env.py (codes "message" ∷ []) (codes "action" ∷ []) s.reply in
      let (out, c) = on_events allowed thread_index s.message_id events begin in
      continue out db result (λ parsed. pure (parsed, c))

  -- `((parsed or {}).get("message") or "".join(full_message) or "").strip()`
  unfoldable pub text_of_shape : Shape → Text → M V Text
  text_of_shape falsy full = pure (strip full)
  text_of_shape (string t) full = pure (strip t)
  text_of_shape (other _) full = throw attribute_error

  unfoldable pub message_text : Option V → Text → M V Text
  message_text none full = pure (strip full)
  message_text (some v) full = text_of_shape (env.shape v) full

  abbrev pub or_generic : Text → Text
  or_generic [] = codes "Can you walk me through that in a bit more detail?"
  or_generic (ch ∷ t) = ch ∷ t

  -- The action that was streamed, or else the one of the parsed object.
  unfoldable pub settled : List Action → V → Option Action → Action
  settled allowed parsed none = coerce_action (raw_text (env.get parsed (codes "action"))) allowed
  settled allowed parsed (some a) = a

  -- What follows the stream for a real move.
  unfoldable pub say_move : Supply → ℕ → ℕ → MoveKind → V → Conducting → M V Conducted
  say_move s thread_id thread_index k parsed c = do
    text ← message_text (env.get parsed (codes "message")) c.full_message
    tell (if c.emitted_move then [] else move k thread_index s.message_id ∷ tokens c.buffered)
    tell (move_done none ∷ [])
    seq ← reads (λ db. count_messages_for_thread db thread_id)
    insert λ db. append_message db (record {
      id = s.message_id;
      thread_id = thread_id;
      seq = seq;
      role = interviewer;
      kind = some k;
      text = or_generic text;
    })
    pure (conducted k)

  unfoldable pub close_or_say : Supply → ℕ → ℕ → Action → V → Conducting → M V Conducted
  close_or_say s thread_id thread_index Rounds.Action.advance parsed c = pure advanced
  close_or_say s thread_id thread_index (Rounds.Action.move k) parsed c =
      say_move s thread_id thread_index k parsed c

  unfoldable pub stream_conduct : Supply → ℕ → ℕ → List Action → M V Conducted
  stream_conduct s thread_id thread_index allowed = do
    read ← stream_move allowed thread_index s
    let action = settled allowed read.0 read.1.action
    close_or_say s thread_id thread_index action read.0 read.1
