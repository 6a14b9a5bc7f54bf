-- ===== src/Chunking/Cover.antt =====
-- The windows of the loop of `chunk_text` in rag/chunking.py.
use interview_coach.Base.{
  ℕ, zero, suc, ◌+◌, ◌≤◌, ◌<◌, ◌≡◌, refl, Option, some, List, [], ◌∷◌, length, ltb, Bool-cases, inl,
  inr, arith,
}
use interview_coach.Chunking.{
  Cut, cuts, body_window, body_step, Tokenizer, Sizes, prefix_token_count, section_cuts,
}
use interview_coach.Text.{Text}

-- From `covered` tokens on: each window begins inside what is covered, reaches beyond it, is no
-- longer than `window`, and the last one ends with the last token.
abbrev pub Covers : ℕ → ℕ → ℕ → List Cut → Type 0
Covers window n covered [] = covered ≡ n
Covers window n covered (c ∷ cs) =
    (c.start ≤ covered)
    × (covered < c.stop)
    × (c.stop ≤ c.start + window)
    × (c.stop ≤ n)
    × Covers window n c.stop cs

pub record Covered (window n covered : ℕ) (o : Option (List Cut)) : Type 0 where
  pub windows : List Cut
  pub done : o ≡ some windows
  pub covers : Covers window n covered windows

module _ (window step n : ℕ) (pos : 0 < step) (short : step ≤ window) where
  module _ (fuel start covered : ℕ) (b : start ≤ covered) (c : covered < n)
      (d : covered < start + window) where
    last_cut : n ≤ start + window → Covered window n covered (cuts (suc fuel) window step n start)
    unfolding cuts
    last_cut h = record {
      windows = record { start = start; stop = n } ∷ [];
      done = ground arith;
      covers = (b, c, h, ground arith, refl);
    }

    next_cut :
        start + window < n
        → Covered window n (start + window) (cuts fuel window step n (start + step))
        → Covered window n covered (cuts (suc fuel) window step n start)
    unfolding cuts
    next_cut h r = record {
      windows = record { start = start; stop = start + window } ∷ r.windows;
      done = ground (arith, r.done);
      covers = (b, d, ground arith, ground arith, r.covers);
    }

  cuts-Covered :
      (fuel start covered : ℕ)
      → n ≤ start + fuel
      → start ≤ covered
      → covered < n
      → covered < start + window
      → Covered window n covered (cuts fuel window step n start)
  unfolding cuts
  cuts-Covered zero start covered f b c d = record {
    windows = [];
    done = ground arith;
    covers = ground arith;
  }
  cuts-Covered (suc fuel) start covered f b c d = elim (Bool-cases (ltb (start + window) n)) [
    | inl more ↦ next_cut fuel start covered b c d (ground arith) (
        cuts-Covered fuel (start + step) (start + window) (ground arith) (ground arith)
          (ground arith) (ground arith))
    | inr last ↦ last_cut fuel start covered b c d (ground arith)
  ]

body_window-pos : (sec_window prefix_tokens : ℕ) → 0 < body_window sec_window prefix_tokens
unfolding body_window
body_window-pos sec_window prefix_tokens = omega arith

body_step-pos : (window overlap : ℕ) → 0 < window → 0 < body_step window overlap
unfolding body_step
body_step-pos window overlap h = ground arith

body_step-short : (window overlap : ℕ) → 0 < window → body_step window overlap ≤ window
unfolding body_step
body_step-short window overlap h = ground arith

length_cuts-Covered :
    (window overlap n : ℕ)
    → 0 < window
    → Covered window n 0 (cuts n window (body_step window overlap) n 0)
unfolding cuts
length_cuts-Covered window overlap zero h = record { windows = []; done = refl; covers = refl }
length_cuts-Covered window overlap (suc n) h =
    cuts-Covered window (body_step window overlap) (suc n) (body_step-pos window overlap h)
      (body_step-short window overlap h) (suc n) 0 0 (ground arith) (ground arith) (ground arith)
      (ground arith)

-- The loop over the tokens of a section ends, and its windows cover the tokens without a gap:
-- whatever the window, the overlap and the prefix, and also where the prefix fills the window.
pub section_cuts-Covered :
    (tok : Tokenizer) (sizes : Sizes) (project_title : Option Text) (sec_window sec_overlap : ℕ)
    (prefix : Text) (ids : List ℕ)
    → Covered
        (body_window sec_window (prefix_token_count tok sizes project_title prefix))
        (length ids)
        0
        (section_cuts tok sizes project_title sec_window sec_overlap prefix ids)
unfolding section_cuts
section_cuts-Covered tok sizes project_title sec_window sec_overlap prefix ids =
    length_cuts-Covered _ sec_overlap (length ids) (body_window-pos sec_window _)
