-- ===== src/StreamingJson.antt =====
-- agents/streaming_json.py: the incremental parser of a streamed JSON object. The generator is
-- modelled by what it has yielded and by how it stands; the `async for` over the model's output
-- is a list of chunks.
pub mod Unescape
pub mod Automaton
pub mod Chunks
pub mod Hex
pub mod Pieces
pub mod Strings
use interview_coach.Base.{Option, none, some, List, [], ◌∷◌, ◌++◌}
use interview_coach.Base.{if◌then◌else◌}
use interview_coach.Text.{Text, join}
use Automaton.{
  Machine, start, StreamError, malformed, not_dict, Event, done, Step, raise, emit, go, Python,
  step,
}

-- It has raised, or it is suspended (or has ended) with a value.
pub data Outcome {ℓ} (A : Type ℓ) : Type ℓ where
  raised : StreamError → Outcome A
  running : A → Outcome A

-- The pairs yielded so far, and how the generator stands.
pub record Run {ℓ} (V A : Type ℓ) : Type ℓ where
  pub events : List (Event V)
  pub outcome : Outcome A

module _ {V A : Type 0} where
  -- The pairs of an earlier part go in front.
  abbrev pub after : List (Event V) → Run V A → Run V A
  after evs r = record { events = evs ++ r.events; outcome = r.outcome }

  -- One character, and then the rest.
  abbrev pub proceed : Step V → (Machine → Run V A) → Run V A
  proceed (raise e) k = record { events = []; outcome = raised e }
  proceed (emit ev m) k = after (ev ∷ []) (k m)
  proceed (go m) k = k m

module _ {V A B : Type 0} where
  abbrev pub resume : List (Event V) → Outcome A → (A → Run V B) → Run V B
  resume evs (raised e) k = record { events = evs; outcome = raised e }
  resume evs (running a) k = after evs (k a)

  -- The code after a part that may raise.
  abbrev pub and_then : Run V A → (A → Run V B) → Run V B
  and_then r k = resume r.events r.outcome k

module _ {V : Type 0} (py : Python V) (strings scalars : List Text) where
  -- `for ch in chunk: …`
  unfoldable pub feed : Machine → Text → Run V Machine
  feed m [] = record { events = []; outcome = running m }
  feed m (ch ∷ s) = proceed (step py strings scalars m ch) (λ m'. feed m' s)

  -- `async for chunk in deltas: …`
  unfoldable pub feed_chunks : Machine → List Text → Run V Machine
  feed_chunks m [] = record { events = []; outcome = running m }
  feed_chunks m (c ∷ cs) = and_then (feed m c) (λ m'. feed_chunks m' cs)

  -- What follows the loop: `json.loads` of the whole buffer.
  unfoldable pub finish : Text → Run V V
  finish full = elim (py.loads full) [
    | none ↦ record { events = []; outcome = raised malformed }
    | some v ↦
        if py.is_dict v
        then record { events = done v ∷ []; outcome = running v }
        else record { events = []; outcome = raised not_dict }
  ]

  unfoldable pub stream_json_object : List Text → Run V V
  unfolding feed_chunks finish
  stream_json_object chunks = and_then (feed_chunks start chunks) (λ _. finish (join chunks))
