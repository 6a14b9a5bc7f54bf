-- ===== src/Mapping/Drops.antt =====
-- agents/nodes/doc_intake.py, `_mutate_profile_revert`: what the second pass deletes, said without
-- positions.
use interview_coach.Base.{
  ℕ, zero, suc, ◌+◌, ◌≤◌, ◌≡◌, ◌≢◌, refl, sym, ap, ◌∙◌, Bool, true, false, List, [], ◌∷◌, delete_at,
  arith,
}
use interview_coach.Profile.{Experience}
use interview_coach.Mapping.{set_highlights}
use interview_coach.Mapping.Positions.{below, descending, listed}
use interview_coach.Mapping.Revert.{less_pair, same_pair, drop_highlight, drop_highlights}
use interview_coach.Mapping.Deletion.{
  Highest, unmarked, unmarked-same, unmarked-none, unmarked-delete_at,
}

-- Experiences, counted from `n`, without the highlights that are marked.
abbrev pub unmarked_highlights : (ℕ → ℕ → Bool) → ℕ → List Experience → List Experience
unmarked_highlights q n [] = []
unmarked_highlights q n (e ∷ es) =
    set_highlights e (unmarked (q n) 0 e.highlights) ∷ unmarked_highlights q (suc n) es

pub unmarked_highlights-same :
    (q r : ℕ → ℕ → Bool) (n : ℕ) (es : List Experience)
    → ((i j : ℕ) → n ≤ i → q i j ≡ r i j)
    → unmarked_highlights q n es ≡ unmarked_highlights r n es
unmarked_highlights-same q r n [] h = refl
unmarked_highlights-same q r n (e ∷ es) h = λ i.
    set_highlights e (unmarked-same (q n) (r n) 0 e.highlights (λ j l. h n j (omega arith)) i)
    ∷ unmarked_highlights-same q r (suc n) es (λ i j l. h i j (omega (arith, l))) i

pub unmarked_highlights-none :
    (q : ℕ → ℕ → Bool) (n : ℕ) (es : List Experience)
    → ((i j : ℕ) → n ≤ i → q i j ≡ false)
    → unmarked_highlights q n es ≡ es
unmarked_highlights-none q n [] h = refl
unmarked_highlights-none q n (e ∷ es) h = λ i.
    set_highlights e (unmarked-none (q n) 0 e.highlights (λ j l. h n j (omega arith)) i)
    ∷ unmarked_highlights-none q (suc n) es (λ i j l. h i j (omega (arith, l))) i

-- One deletion, if the mark of `(a, b)` is the only one that `r` lacks, and it is the highest of `a`.
module _ (q r : ℕ → ℕ → Bool) (a b : ℕ) (row : Highest (q a) (r a) b)
    (rows : (i j : ℕ) → i ≢ a → q i j ≡ r i j) where
  unmarked_highlights-drop :
      (n k : ℕ) (es : List Experience)
      → n + k ≡ a
      → unmarked_highlights q n es ≡ unmarked_highlights r n (drop_highlight k b es)
  unmarked_highlights-drop n k [] e = refl
  unmarked_highlights-drop n zero (x ∷ xs) e =
      let here : n ≡ a = omega (arith, e) in
      λ i.
        set_highlights x (
          (ap (λ m. unmarked (q m) 0 x.highlights) here
              ∙ unmarked-delete_at (q a) (r a) b 0 b x.highlights row (omega arith)
              ∙ ap (λ m. unmarked (r m) 0 (delete_at b x.highlights)) (sym here))
            i)
        ∷ unmarked_highlights-same q r (suc n) xs (λ i j l. rows i j (omega (arith, here, l))) i
  unmarked_highlights-drop n (suc k) (x ∷ xs) e = λ i.
      set_highlights x
        (unmarked-same (q n) (r n) 0 x.highlights (λ j l. rows n j (omega (arith, e))) i)
      ∷ unmarked_highlights-drop (suc n) k xs (omega (arith, e)) i

listed-below_pair :
    (a b j : ℕ) (ds : List (ℕ × ℕ))
    → below less_pair same_pair (a, b) ds ≡ true
    → b ≤ j
    → listed less_pair same_pair (a, j) ds ≡ false
listed-below_pair a b j [] h l = refl
listed-below_pair a b j (d ∷ ds) h l = ground (arith, listed-below_pair a b j ds)

pub drop_highlights-unmarked :
    (ds : List (ℕ × ℕ)) (es : List Experience)
    → descending less_pair same_pair ds ≡ true
    → drop_highlights ds es ≡ unmarked_highlights (λ i j. listed less_pair same_pair (i, j) ds) 0 es
unfolding drop_highlights
drop_highlights-unmarked [] es h = sym (unmarked_highlights-none _ 0 es (λ i j l. refl))
drop_highlights-unmarked (d ∷ ds) es h =
    drop_highlights-unmarked ds (drop_highlight d.0 d.1 es) (ground arith)
    ∙ sym (
        unmarked_highlights-drop (λ i j. listed less_pair same_pair (i, j) (d ∷ ds))
          (λ i j. listed less_pair same_pair (i, j) ds) d.0 d.1
          (record {
            marked = ground arith;
            others = λ j n. ground (arith, n);
            none_above = λ j l. listed-below_pair d.0 d.1 j ds (ground arith) l;
          })
          (λ i j n. ground (arith, n)) 0 d.0 es (omega arith))
