-- ===== src/Base/Lists.antt =====
-- Lists measured by native numbers, filtered by Boolean tests, and predicates over lists.
use Prim.Native.Nat.{ℕ, zero, suc, ◌+◌, ◌≤◌}
use mathlib.Core.Path.{◌≡◌, refl}
use mathlib.Core.Bool.{Bool, true, false}
use mathlib.Core.Option.{Option, none, some}
use mathlib.Core.List.{List, [], ◌∷◌, ◌++◌}
use native.Mathlib.Omega.{arith}
use interview_coach.Base.Tests.{if◌then◌else◌}

module _ {ℓ} {A : Type ℓ} where
  abbrev pub length : List A → ℕ
  length [] = 0
  length (x ∷ xs) = suc (length xs)

  abbrev pub take : ℕ → List A → List A
  take zero xs = []
  take (suc n) [] = []
  take (suc n) (x ∷ xs) = x ∷ take n xs

  abbrev pub drop : ℕ → List A → List A
  drop zero xs = xs
  drop (suc n) [] = []
  drop (suc n) (x ∷ xs) = drop n xs

  -- `xs[n]`, if there is one.
  abbrev pub at : ℕ → List A → Option A
  at n [] = none
  at zero (x ∷ xs) = some x
  at (suc n) (x ∷ xs) = at n xs

  -- `xs[n] = y`
  abbrev pub set_at : ℕ → A → List A → List A
  set_at n y [] = []
  set_at zero y (x ∷ xs) = y ∷ xs
  set_at (suc n) y (x ∷ xs) = x ∷ set_at n y xs

  -- `xs[n] = f(xs[n])`
  abbrev pub modify_at : ℕ → (A → A) → List A → List A
  modify_at n f [] = []
  modify_at zero f (x ∷ xs) = f x ∷ xs
  modify_at (suc n) f (x ∷ xs) = x ∷ modify_at n f xs

  -- `del xs[n]`, if there is one.
  abbrev pub delete_at : ℕ → List A → List A
  delete_at n [] = []
  delete_at zero (x ∷ xs) = xs
  delete_at (suc n) (x ∷ xs) = x ∷ delete_at n xs

  pub length-append : (xs ys : List A) → length (xs ++ ys) ≡ length xs + length ys
  length-append [] ys = omega arith
  length-append (x ∷ xs) ys = omega (arith, length-append xs ys)

  -- `[x for x in xs if p x]`
  abbrev pub keep : (A → Bool) → List A → List A
  keep p [] = []
  keep p (x ∷ xs) = let rest = keep p xs in if p x then x ∷ rest else rest

  -- The first element that passes the test.
  abbrev pub find : (A → Bool) → List A → Option A
  find p [] = none
  find p (x ∷ xs) = let rest = find p xs in if p x then some x else rest

  -- `any(p x for x in xs)`
  abbrev pub any : (A → Bool) → List A → Bool
  any p [] = false
  any p (x ∷ xs) = let rest = any p xs in if p x then true else rest

  pub keep-append : (p : A → Bool) (xs ys : List A) → keep p (xs ++ ys) ≡ keep p xs ++ keep p ys
  keep-append p [] ys = refl
  keep-append p (x ∷ xs) ys = ground (arith, keep-append p xs ys)

  pub length-keep : (p : A → Bool) (xs : List A) → length (keep p xs) ≤ length xs
  length-keep p [] = omega arith
  length-keep p (x ∷ xs) = ground (arith, length-keep p xs)

module _ {ℓ κ} {A : Type ℓ} (P : A → Type κ) where
  abbrev pub All : List A → Type κ
  All [] = Unit
  All (x ∷ xs) = P x × All xs

  pub All-append : (xs ys : List A) → All xs → All ys → All (xs ++ ys)
  All-append [] ys _ hy = hy
  All-append (x ∷ xs) ys (px, hx) hy = (px, All-append xs ys hx hy)

  pub All-if :
      (b : Bool) (xs ys : List A)
      → (b ≡ true → All xs)
      → (b ≡ false → All ys)
      → All (if b then xs else ys)
  All-if true xs ys f g = f refl
  All-if false xs ys f g = g refl

  pub All-keep : (p : A → Bool) (xs : List A) → All xs → All (keep p xs)
  All-keep p [] h = tt
  All-keep p (x ∷ xs) (h, hs) =
      All-if (p x) _ _ (λ t. (h, All-keep p xs hs)) (λ t. All-keep p xs hs)

module _ {ℓ} {A : Type ℓ} where
  pub All_weaken {κ μ} :
      (P : A → Type κ) (Q : A → Type μ) (xs : List A) → ((x : A) → P x → Q x) → All P xs → All Q xs
  All_weaken P Q [] f h = tt
  All_weaken P Q (x ∷ xs) f (h, hs) = (f x h, All_weaken P Q xs f hs)

  pub All_kept : (p : A → Bool) (xs : List A) → All (λ x. p x ≡ true) (keep p xs)
  All_kept p [] = tt
  All_kept p (x ∷ xs) =
      All-if (λ y. p y ≡ true) (p x) _ _ (λ t. (t, All_kept p xs)) (λ t. All_kept p xs)
