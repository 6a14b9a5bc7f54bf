-- ===== src/Mapping/Deletion.antt =====
-- agents/nodes/doc_intake.py, `_mutate_profile_revert`: deleting marked positions from the highest
-- down leaves the elements whose positions are not marked.
use interview_coach.Base.{
  ℕ, zero, suc, ◌+◌, ◌≤◌, ◌<◌, ◌≡◌, ◌≢◌, refl, sym, subst, ◌∙◌, Bool, true, false, not, List, [],
  ◌∷◌, keep, delete_at, if◌then◌else◌, arith,
}
use interview_coach.Mapping.Positions.{below, descending, listed}
use interview_coach.Mapping.Revert.{less, same, positions}

-- `q` marks `d` beside what `r` marks, and `r` marks nothing from `d` on.
pub record Highest (q r : ℕ → Bool) (d : ℕ) : Type 0 where
  pub marked : q d ≡ true
  pub others : (j : ℕ) → j ≢ d → q j ≡ r j
  pub none_above : (j : ℕ) → d ≤ j → r j ≡ false

listed-below :
    (j d : ℕ) (ds : List ℕ) → below less same d ds ≡ true → d ≤ j → listed less same j ds ≡ false
listed-below j d [] h l = refl
listed-below j d (e ∷ ds) h l = ground (arith, listed-below j d ds)

Highest-head :
    (d : ℕ) (ds : List ℕ)
    → below less same d ds ≡ true
    → Highest (λ j. listed less same j (d ∷ ds)) (λ j. listed less same j ds) d
Highest-head d ds h = record {
  marked = ground arith;
  others = λ j n. ground (arith, n);
  none_above = λ j l. listed-below j d ds h l;
}

module _ {A : Type 0} where
  -- The elements, counted from `n`, whose position is not marked.
  abbrev pub unmarked : (ℕ → Bool) → ℕ → List A → List A
  unmarked q n [] = []
  unmarked q n (x ∷ xs) = let rest = unmarked q (suc n) xs in if q n then rest else x ∷ rest

  pub unmarked-none :
      (q : ℕ → Bool) (n : ℕ) (xs : List A) → ((j : ℕ) → n ≤ j → q j ≡ false) → unmarked q n xs ≡ xs
  unmarked-none q n [] h = refl
  unmarked-none q n (x ∷ xs) h =
      ground (arith, h n, unmarked-none q (suc n) xs (λ j l. h j (omega (arith, l))))

  pub unmarked-same :
      (q r : ℕ → Bool) (n : ℕ) (xs : List A)
      → ((j : ℕ) → n ≤ j → q j ≡ r j)
      → unmarked q n xs ≡ unmarked r n xs
  unmarked-same q r n [] h = refl
  unmarked-same q r n (x ∷ xs) h =
      ground (arith, h n, unmarked-same q r (suc n) xs (λ j l. h j (omega (arith, l))))

  pub unmarked-delete_at :
      (q r : ℕ → Bool) (d n k : ℕ) (xs : List A)
      → Highest q r d
      → n + k ≡ d
      → unmarked q n xs ≡ unmarked r n (delete_at k xs)
  unmarked-delete_at q r d n k [] h e = refl
  unmarked-delete_at q r d n zero (x ∷ xs) h e =
      let here : q n ≡ true = subst (λ m. q m ≡ true) (sym (omega (arith, e))) h.marked in
      let upper : unmarked q (suc n) xs ≡ xs =
        unmarked-none q (suc n) xs
          λ j l. h.others j (omega (arith, e, l)) ∙ h.none_above j (omega (arith, e, l)) in
      let lower : unmarked r n xs ≡ xs =
        unmarked-none r n xs (λ j l. h.none_above j (omega (arith, e, l))) in
      ground (arith, here, upper, lower)
  unmarked-delete_at q r d n (suc k) (x ∷ xs) h e = ground (
    arith,
    h.others n (omega (arith, e)),
    unmarked-delete_at q r d (suc n) k xs h (omega (arith, e)),
  )

  -- `for d in ds: del xs[d]`
  abbrev pub delete_each : List ℕ → List A → List A
  delete_each [] xs = xs
  delete_each (d ∷ ds) xs = delete_each ds (delete_at d xs)

  pub delete_each-unmarked :
      (ds : List ℕ) (xs : List A)
      → descending less same ds ≡ true
      → delete_each ds xs ≡ unmarked (λ j. listed less same j ds) 0 xs
  delete_each-unmarked [] xs h = sym (unmarked-none (λ j. false) 0 xs (λ j l. refl))
  delete_each-unmarked (d ∷ ds) xs h =
      delete_each-unmarked ds (delete_at d xs) (ground arith)
      ∙ sym (
          unmarked-delete_at (λ j. listed less same j (d ∷ ds)) (λ j. listed less same j ds) d 0 d
            xs (Highest-head d ds (ground arith)) (omega arith))

  -- Without the positions of the elements that pass a test
  listed-positions_below :
      (p : A → Bool) (j n : ℕ) (xs : List A) → j < n → listed less same j (positions p n xs) ≡ false
  listed-positions_below p j n [] l = refl
  listed-positions_below p j n (x ∷ xs) l =
      ground (arith, listed-positions_below p j (suc n) xs (omega (arith, l)))

  pub unmarked-positions :
      (p : A → Bool) (n : ℕ) (xs : List A)
      → unmarked (λ j. listed less same j (positions p n xs)) n xs ≡ keep (λ x. not (p x)) xs
  unmarked-positions p n [] = refl
  unmarked-positions p n (x ∷ xs) =
      let rest : unmarked (λ j. listed less same j (positions p n (x ∷ xs))) (suc n) xs
          ≡ keep (λ y. not (p y)) xs =
        unmarked-same _ (λ j. listed less same j (positions p (suc n) xs)) (suc n) xs
          (λ j l. ground (arith, l))
        ∙ unmarked-positions p (suc n) xs in
      ground (arith, rest, listed-positions_below p n (suc n) xs (omega arith))
