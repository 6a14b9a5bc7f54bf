-- ===== src/Prep/Cache/Sets.antt =====
-- The verdict on the profile, with document ids as sets.
use interview_coach.Base.{
  ℕ, ◌<◌, ◌≡◌, ◌↔◌, refl, sym, ap, subst, ◌∙◌, Bool, true, false, Option, List, [], ◌∷◌, ltb, ◌==◌,
  if◌then◌else◌, arith,
}
use interview_coach.Prep.Cache.{
  hit, cached, insert_set, normalize, same_ids, ids_or_empty, decide_profile_cache,
}

unfoldable pub has : ℕ → List ℕ → Bool
has x [] = false
has x (y ∷ ys) = let rest = has x ys in if x == y then true else rest

has-insert_set :
    (x y : ℕ) (ys : List ℕ) → has x (insert_set y ys) ≡ (if x == y then true else has x ys)
unfolding has insert_set
has-insert_set x y [] = ground arith
has-insert_set x y (z ∷ zs) = ground (arith, has-insert_set x y zs)

pub has-normalize : (x : ℕ) (xs : List ℕ) → has x (normalize xs) ≡ has x xs
unfolding has normalize
has-normalize x [] = refl
has-normalize x (y ∷ ys) = ground (arith, has-insert_set x y (normalize ys), has-normalize x ys)

-- The elements ascend from above a bound.
abbrev above : ℕ → List ℕ → Bool
above b [] = true
above b (x ∷ xs) = let rest = above x xs in if ltb b x then rest else false

abbrev ascending : List ℕ → Bool
ascending [] = true
ascending (x ∷ xs) = above x xs

above-insert_set :
    (b x : ℕ) (xs : List ℕ) → b < x → above b xs ≡ true → above b (insert_set x xs) ≡ true
unfolding insert_set
above-insert_set b x [] l h = ground arith
above-insert_set b x (y ∷ ys) l h = ground (arith, above-insert_set y x ys)

ascending-insert_set :
    (x : ℕ) (xs : List ℕ) → ascending xs ≡ true → ascending (insert_set x xs) ≡ true
unfolding insert_set
ascending-insert_set x [] h = refl
ascending-insert_set x (y ∷ ys) h = ground (arith, above-insert_set y x ys)

ascending-normalize : (xs : List ℕ) → ascending (normalize xs) ≡ true
unfolding normalize
ascending-normalize [] = refl
ascending-normalize (x ∷ xs) = ascending-insert_set x (normalize xs) (ascending-normalize xs)

has-above : (b x : ℕ) (xs : List ℕ) → above b xs ≡ true → has x xs ≡ true → b < x
unfolding has
has-above b x [] h m = cc
has-above b x (y ∷ ys) h m = ground (arith, has-above y x ys)

abbrev pub SameSet : List ℕ → List ℕ → Type 0
SameSet xs ys = (x : ℕ) → has x xs ≡ has x ys

ascending_tail : (x : ℕ) (xs : List ℕ) → above x xs ≡ true → ascending xs ≡ true
ascending_tail x [] h = refl
ascending_tail x (y ∷ ys) h = ground arith

module _ (x y : ℕ) (xs ys : List ℕ) (h : above x xs ≡ true) (k : above y ys ≡ true) where
  same_head : SameSet (x ∷ xs) (y ∷ ys) → x ≡ y
  unfolding has
  same_head e = ground (arith, e x, e y, has-above y x ys k, has-above x y xs h)

  same_tail : x ≡ y → SameSet (x ∷ xs) (y ∷ ys) → SameSet xs ys
  unfolding has
  same_tail heads e z = ground (arith, heads, e z, has-above x z xs h, has-above y z ys k)

-- Two ascending lists with the same elements are one list.
ascending_unique :
    (xs ys : List ℕ) → ascending xs ≡ true → ascending ys ≡ true → SameSet xs ys → xs ≡ ys
unfolding has
ascending_unique [] [] h k e = refl
ascending_unique [] (y ∷ ys) h k e = ground (arith, e y)
ascending_unique (x ∷ xs) [] h k e = ground (arith, e x)
ascending_unique (x ∷ xs) (y ∷ ys) h k e =
    let heads : x ≡ y = same_head x y xs ys h k e in
    let tails : xs ≡ ys =
      ascending_unique xs ys (ascending_tail x xs h) (ascending_tail y ys k)
        (same_tail x y xs ys h k heads e) in
    cc

same_ids_sound : (xs ys : List ℕ) → same_ids xs ys ≡ true → xs ≡ ys
unfolding same_ids
same_ids_sound [] [] h = refl
same_ids_sound [] (y ∷ ys) h = cc
same_ids_sound (x ∷ xs) [] h = cc
same_ids_sound (x ∷ xs) (y ∷ ys) h = ground (arith, same_ids_sound xs ys)

pub same_ids_self : (xs : List ℕ) → same_ids xs xs ≡ true
unfolding same_ids
same_ids_self [] = refl
same_ids_self (x ∷ xs) = ground (arith, same_ids_self xs)

same_ids-SameSet : (xs ys : List ℕ) → same_ids (normalize xs) (normalize ys) ≡ true → SameSet xs ys
same_ids-SameSet xs ys h x =
    sym (has-normalize x xs)
    ∙ ap (has x) (same_ids_sound (normalize xs) (normalize ys) h)
    ∙ has-normalize x ys

pub SameSet-same_ids :
    (xs ys : List ℕ) → SameSet xs ys → same_ids (normalize xs) (normalize ys) ≡ true
SameSet-same_ids xs ys h =
    subst (λ zs. same_ids (normalize xs) zs ≡ true)
      (ascending_unique (normalize xs) (normalize ys) (ascending-normalize xs)
        (ascending-normalize ys) (λ x. has-normalize x xs ∙ h x ∙ sym (has-normalize x ys)))
      (same_ids_self (normalize xs))

-- The stored profile is reused exactly if there is one and its document ids are, as a set, the
-- current ones.
pub decide_profile_cache_lem :
    (profile_exists : Bool) (stored : Option (List ℕ)) (current : List ℕ)
    → (decide_profile_cache profile_exists stored current ≡ hit cached)
      ↔ ((profile_exists ≡ true) × SameSet (ids_or_empty stored) current)
unfolding decide_profile_cache
decide_profile_cache_lem false stored current = (λ e. ground arith, λ p. ground (arith, p.0))
decide_profile_cache_lem true stored current = (
  λ e. (refl, same_ids-SameSet (ids_or_empty stored) current (ground arith)),
  λ p. ground (arith, SameSet-same_ids (ids_or_empty stored) current p.1),
)
