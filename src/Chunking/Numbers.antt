-- ===== src/Chunking/Numbers.antt =====
-- The numbers of the chunks of `chunk_text` in rag/chunking.py.
use interview_coach.Base.{
  ℕ, suc, ◌+◌, ◌≡◌, refl, ap, ◌∙◌, Bool, true, false, Option, some, List, [], ◌∷◌, ◌++◌, length,
  ◌==◌, if◌then◌else◌, arith,
}
use interview_coach.Text.{Text}
use interview_coach.Chunking.{
  TextChunk, Tokenizer, Section, Sizes, Cut, build_prefix, chunks_of, add_chunks, after_cuts,
  chunk_sections,
}
use interview_coach.Chunking.Cover.{section_cuts-Covered}

abbrev pub numbered : ℕ → List TextChunk → Bool
numbered i [] = true
numbered i (c ∷ cs) = let rest = numbered (suc i) cs in if c.chunk_index == i then rest else false

numbered-append :
    (i : ℕ) (xs ys : List TextChunk)
    → numbered i xs ≡ true
    → numbered (i + length xs) ys ≡ true
    → numbered i (xs ++ ys) ≡ true
numbered-append i [] ys h k = ground (arith, k)
numbered-append i (x ∷ xs) ys h k = ground (arith, numbered-append (suc i) xs ys)

module _ (tok : Tokenizer) (sizes : Sizes) (project_title : Option Text) where
  chunks_of-numbered :
      (prefix : Text) (ids : List ℕ) (idx : ℕ) (cs : List Cut)
      → numbered idx (chunks_of tok sizes project_title prefix ids idx cs) ≡ true
  unfolding chunks_of
  chunks_of-numbered prefix ids idx [] = refl
  chunks_of-numbered prefix ids idx (c ∷ cs) =
      ground
        (arith, chunks_of-numbered prefix ids (suc idx) cs, chunks_of-numbered prefix ids idx cs)

  pub record Chunked (idx : ℕ) (o : Option (List TextChunk)) : Type 0 where
    pub chunks : List TextChunk
    pub done : o ≡ some chunks
    pub in_order : numbered idx chunks ≡ true

  -- For every list of sections the chunker returns, and its chunks are numbered one after the other.
  pub chunk_sections-numbered :
      (idx : ℕ) (ss : List Section) → Chunked idx (chunk_sections tok sizes project_title idx ss)
  unfolding chunk_sections
  chunk_sections-numbered idx [] = record { chunks = []; done = refl; in_order = refl }
  chunk_sections-numbered idx (s ∷ ss) =
      let prefix = build_prefix tok sizes project_title s.header in
      let ids = tok.input_ids s.body in
      let covered =
        section_cuts-Covered tok sizes project_title
          (if s.is_code then sizes.code_window else sizes.window)
          (if s.is_code then sizes.code_overlap else sizes.overlap) prefix ids in
      let chunks = chunks_of tok sizes project_title prefix ids idx covered.windows in
      let rest = chunk_sections-numbered (idx + length chunks) ss in
      record {
        chunks = chunks ++ rest.chunks;
        done =
            ap
              (λ o.
                after_cuts tok sizes project_title prefix ids idx o
                  (λ i. chunk_sections tok sizes project_title i ss))
              covered.done
            ∙ ap (add_chunks tok sizes project_title chunks) rest.done;
        in_order =
            numbered-append idx chunks rest.chunks
              (chunks_of-numbered prefix ids idx covered.windows) rest.in_order;
      }
