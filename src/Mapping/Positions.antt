-- ===== src/Mapping/Positions.antt =====
-- agents/nodes/doc_intake.py, `_mutate_profile_revert`: positions marked in a list, sorted
-- downwards, and deleted one after the other.
use interview_coach.Base.{
  ◌≡◌, refl, ap, ◌∙◌, Bool, true, false, ◌&&◌, ◌||◌, List, [], ◌∷◌, if◌then◌else◌, arith,
}

module _ {A : Type 0} (less same : A → A → Bool) where
  -- `sorted(set(…), reverse=True)`
  unfoldable pub insert_down : A → List A → List A
  insert_down x [] = x ∷ []
  insert_down x (y ∷ ys) =
      let rest = insert_down x ys in
      if less y x then x ∷ y ∷ ys else if same x y then y ∷ ys else y ∷ rest

  unfoldable pub sorted_down : List A → List A
  unfolding insert_down
  sorted_down [] = []
  sorted_down (x ∷ xs) = insert_down x (sorted_down xs)

  -- Everything in the list is less than `x`.
  abbrev pub below : A → List A → Bool
  below x [] = true
  below x (y ∷ ys) = less y x && below x ys

  abbrev pub descending : List A → Bool
  descending [] = true
  descending (x ∷ xs) = below x xs && descending xs

  abbrev pub listed : A → List A → Bool
  listed x [] = false
  listed x (y ∷ ys) = same x y || listed x ys

  -- What the sort relies on
  pub record Order : Type 0 where
    pub total : (x y : A) → less y x ≡ false → same x y ≡ false → less x y ≡ true
    pub trans : (x y z : A) → less x y ≡ true → less y z ≡ true → less x z ≡ true
    pub same_left : (x y z : A) → same x y ≡ true → same z x ≡ same z y

  module _ (o : Order) where
    listed-insert_down :
        (z x : A) (ys : List A) → listed z (insert_down x ys) ≡ same z x || listed z ys
    unfolding insert_down
    listed-insert_down z x [] = refl
    listed-insert_down z x (y ∷ ys) = ground (arith, listed-insert_down z x ys, o.same_left x y z)

    pub listed-sorted_down : (z : A) (xs : List A) → listed z (sorted_down xs) ≡ listed z xs
    unfolding sorted_down
    listed-sorted_down z [] = refl
    listed-sorted_down z (x ∷ xs) =
        listed-insert_down z x (sorted_down xs) ∙ ap (λ b. same z x || b) (listed-sorted_down z xs)

    below_trans : (x y : A) (zs : List A) → less x y ≡ true → below x zs ≡ true → below y zs ≡ true
    below_trans x y [] l h = refl
    below_trans x y (z ∷ zs) l h = ground (arith, o.trans z x y, below_trans x y zs)

    below-insert_down :
        (b x : A) (ys : List A)
        → less x b ≡ true
        → below b ys ≡ true
        → below b (insert_down x ys) ≡ true
    unfolding insert_down
    below-insert_down b x [] l h = ground arith
    below-insert_down b x (y ∷ ys) l h = ground (arith, below-insert_down b x ys)

    descending-insert_down :
        (x : A) (ys : List A) → descending ys ≡ true → descending (insert_down x ys) ≡ true
    unfolding insert_down
    descending-insert_down x [] h = refl
    descending-insert_down x (y ∷ ys) h = ground (
      arith,
      descending-insert_down x ys,
      below_trans y x ys,
      below-insert_down y x ys,
      o.total x y,
    )

    pub descending-sorted_down : (xs : List A) → descending (sorted_down xs) ≡ true
    unfolding sorted_down
    descending-sorted_down [] = refl
    descending-sorted_down (x ∷ xs) =
        descending-insert_down x (sorted_down xs) (descending-sorted_down xs)
