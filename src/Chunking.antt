-- ===== src/Chunking.antt =====
-- `chunk_text` of rag/chunking.py from its sections on: token windows with an overlap. The
-- tokenizer comes from outside, and so does the list of sections.
pub mod Cover
pub mod Numbers
use interview_coach.Base.{
  ℕ, zero, suc, ◌+◌, ◌-◌, min, max, Bool, true, false, Option, none, some, List, [], ◌∷◌, ◌++◌,
  length, take, drop, ltb, ◌==◌, if◌then◌else◌,
}
use interview_coach.Text.{Text, codes, strip}

pub record TextChunk : Type 0 where
  pub chunk_index : ℕ
  pub text : Text
  pub n_tokens : ℕ

-- The tokenizer, without special tokens.
pub record Tokenizer : Type 0 where
  pub input_ids : Text → List ℕ
  pub decode : List ℕ → Text

pub record Section : Type 0 where
  pub header : Option Text
  pub body : Text
  pub is_code : Bool

-- The windows and the overlaps, for prose and for code.
pub record Sizes : Type 0 where
  pub window : ℕ
  pub overlap : ℕ
  pub code_window : ℕ
  pub code_overlap : ℕ

abbrev pub default_sizes : Sizes
default_sizes = record { window = 400; overlap = 50; code_window = 600; code_overlap = 80 }

-- `max(1, sec_window - prefix_token_count)`: a negative difference and 0 both give 1.
unfoldable pub body_window : ℕ → ℕ → ℕ
body_window sec_window prefix_tokens = max 1 (sec_window - prefix_tokens)

unfoldable pub body_step : ℕ → ℕ → ℕ
body_step window overlap = if ltb overlap window then max 1 (window - overlap) else window

abbrev is_empty : Text → Bool
is_empty [] = true
is_empty (c ∷ cs) = false

-- A window of the token list.
pub record Cut : Type 0 where
  pub start : ℕ
  pub stop : ℕ

abbrev also : Cut → Option (List Cut) → Option (List Cut)
also c none = none
also c (some cs) = some (c ∷ cs)

-- The `while` loop over `n` tokens, on fuel; `none` is a loop that was given too little.
unfoldable pub cuts : ℕ → ℕ → ℕ → ℕ → ℕ → Option (List Cut)
cuts zero window step n start = if ltb start n then none else some []
cuts (suc fuel) window step n start =
    let rest = cuts fuel window step n (start + step) in
    let stop = min (start + window) n in
    let cut : Cut = record { start = start; stop = stop } in
    if ltb start n then (if stop == n then some (cut ∷ []) else also cut rest) else some []

module _ (tok : Tokenizer) (sizes : Sizes) (project_title : Option Text) where
  abbrev titled : Option Text → Text
  titled none = []
  titled (some []) = []
  titled (some (c ∷ cs)) = codes "[Project: " ++ c ∷ cs ++ codes "]\n"

  abbrev headed : Option Text → Text
  headed none = []
  headed (some []) = []
  headed (some (c ∷ cs)) = codes "[Section: " ++ c ∷ cs ++ codes "]\n"

  -- `_build_prefix`
  unfoldable pub build_prefix : Option Text → Text
  build_prefix section_header = titled project_title ++ headed section_header

  abbrev pub prefix_token_count : Text → ℕ
  prefix_token_count [] = 0
  prefix_token_count (c ∷ cs) = length (tok.input_ids (c ∷ cs))

  -- The chunks of one section, numbered from `idx`. A window that decodes to nothing is left out.
  unfoldable pub chunks_of : Text → List ℕ → ℕ → List Cut → List TextChunk
  chunks_of prefix ids idx [] = []
  chunks_of prefix ids idx (c ∷ cs) =
      let slice_ids = take (c.stop - c.start) (drop c.start ids) in
      let body_text = strip (tok.decode slice_ids) in
      let chunk : TextChunk = record {
        chunk_index = idx;
        text = prefix ++ body_text;
        n_tokens = length slice_ids + prefix_token_count prefix;
      } in
      let kept = chunks_of prefix ids (suc idx) cs in
      let skipped = chunks_of prefix ids idx cs in
      if is_empty body_text then skipped else chunk ∷ kept

  -- One step of fuel for each token.
  unfoldable pub section_cuts : ℕ → ℕ → Text → List ℕ → Option (List Cut)
  section_cuts sec_window sec_overlap prefix ids =
      let window = body_window sec_window (prefix_token_count prefix) in
      cuts (length ids) window (body_step window sec_overlap) (length ids) 0

  abbrev pub add_chunks : List TextChunk → Option (List TextChunk) → Option (List TextChunk)
  add_chunks chunks none = none
  add_chunks chunks (some more) = some (chunks ++ more)

  -- One section, and the sections behind it, numbered on.
  abbrev pub after_cuts :
      Text
      → List ℕ
      → ℕ
      → Option (List Cut)
      → (ℕ → Option (List TextChunk))
      → Option (List TextChunk)
  after_cuts prefix ids idx none rest = none
  after_cuts prefix ids idx (some cs) rest =
      let chunks = chunks_of prefix ids idx cs in add_chunks chunks (rest (idx + length chunks))

  -- The loop over the sections.
  unfoldable pub chunk_sections : ℕ → List Section → Option (List TextChunk)
  chunk_sections idx [] = some []
  chunk_sections idx (s ∷ ss) =
      let sec_window = if s.is_code then sizes.code_window else sizes.window in
      let sec_overlap = if s.is_code then sizes.code_overlap else sizes.overlap in
      let prefix = build_prefix s.header in
      let ids = tok.input_ids s.body in
      after_cuts prefix ids idx (section_cuts sec_window sec_overlap prefix ids)
        (λ i. chunk_sections i ss)
