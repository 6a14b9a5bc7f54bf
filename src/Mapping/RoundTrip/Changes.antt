-- ===== src/Mapping/RoundTrip/Changes.antt =====
-- agents/nodes/doc_intake.py: one highlight changed, in the relation to the profile before.
use interview_coach.Base.{
  ℕ, zero, suc, ◌+◌, ◌≡◌, ◌≢◌, refl, ap, subst, Bool, true, false, ◌&&◌, ◌||◌, Option, none, some,
  List, [], ◌∷◌, at, set_at, ◌==◌, arith,
}
use interview_coach.Profile.{Highlight, Experience, Profile}
use interview_coach.Db.Models.{Extracted, MappingKind, highlight, experience, project, unknown_kind}
use interview_coach.Mapping.{
  Applied, applied, value_error, item, enrich, set_highlights, set_experiences, set_projects,
}
use interview_coach.Mapping.Revert.{at_item, impoverish}
use interview_coach.Mapping.Growth.{
  GrewHls, GrewHls-enrich, GrewHls-impoverish, in_range, fresh_highlights, fresh_experiences,
}
use interview_coach.Mapping.Growth.Profiles.{GrewExps, GrewExps-set, GrewExps-weaken, GrewProjs}

-- Does a row of kind `highlight` name the highlight `j` of the experience `i`?
abbrev pub hits : ℕ → ℕ → MappingKind → Option ℕ → Option ℕ → Bool
hits i j highlight (some k) (some l) = i == k && j == l
hits i j highlight (some k) none = false
hits i j highlight none _ = false
hits i j experience _ _ = false
hits i j project _ _ = false
hits i j (unknown_kind _) _ _ = false

abbrev pub highlight_in : ℕ → Option Experience → Bool
highlight_in j none = false
highlight_in j (some e) = in_range j e.highlights

-- A row of kind `highlight` names a highlight that the profile has.
abbrev pub original : Profile → MappingKind → Option ℕ → Option ℕ → Bool
original p highlight (some i) (some j) = highlight_in j (at i p.experiences)
original p highlight (some i) none = true
original p highlight none _ = true
original p experience _ _ = true
original p project _ _ = true
original p (unknown_kind _) _ _ = true

module _ (doc_id : ℕ) (x : Extracted) where
  abbrev pub Grew : (ℕ → ℕ → Bool) → (ℕ → Bool) → Bool → Profile → Profile → Type 0
  Grew s b c p q =
      (q ≡ set_projects (set_experiences p q.experiences) q.projects)
      × GrewExps doc_id x s b 0 p.experiences q.experiences
      × GrewProjs doc_id x c p.projects q.projects

experience_injective : {a b : Experience} → some a ≡ some b → a ≡ b
experience_injective e = cc

-- What `item` has found, if it ended well.
module _ {A B : Type 0} (k : ℕ → A → Applied B) (b : B) where
  found_item :
      (xs : List A) (i : ℕ) (o : Option A)
      → at i xs ≡ o
      → (elim o [ none ↦ value_error | some a ↦ k i a ]) ≡ applied b
      → (a : A) × (at i xs ≡ some a) × (k i a ≡ applied b)
  found_item xs i none e h = cc
  found_item xs i (some a) e h = (a, e, h)

  pub item-applied :
      (xs : List A) (idx : Option ℕ)
      → item xs idx k ≡ applied b
      → (i : ℕ) × (idx ≡ some i) × (a : A) × (at i xs ≡ some a) × (k i a ≡ applied b)
  unfolding item
  item-applied xs none h = cc
  item-applied xs (some i) h = let r = found_item xs i (at i xs) refl h in (i, refl, r.0, r.1, r.2)

fresh_at :
    (doc_id : ℕ) (x : Extracted) (i : ℕ) (es : List Experience) (u : Experience)
    → at i es ≡ some u
    → fresh_experiences doc_id x es ≡ true
    → fresh_highlights doc_id x u.highlights ≡ true
fresh_at doc_id x i [] u a f = cc
fresh_at doc_id x zero (e ∷ es) u a f =
    subst (λ v. fresh_highlights doc_id x v.highlights ≡ true) (experience_injective a)
      (ground (arith, f))
fresh_at doc_id x (suc i) (e ∷ es) u a f = fresh_at doc_id x i es u a (ground (arith, f))

pub applied_injective : {p q : Profile} → applied p ≡ applied q → p ≡ q
applied_injective e = cc

pub in_range-at :
    {A : Type 0} (j : ℕ) (xs : List A) → in_range j xs ≡ true → (a : A) × (at j xs ≡ some a)
in_range-at j [] h = cc
in_range-at zero (x ∷ xs) h = (x, refl)
in_range-at (suc j) (x ∷ xs) h = in_range-at j xs h

module _ {A B : Type 0} (d : B) (k : ℕ → A → B) where
  pub at_item-found :
      (xs : List A) (i : ℕ) (a : A) → at i xs ≡ some a → at_item xs (some i) d k ≡ k i a
  unfolding at_item
  at_item-found xs i a e = ap (λ o. elim o [ none ↦ d | some b ↦ k i b ]) e

pub at_item-same :
    {A B : Type 0} (d : B) (xs : List A) (o : Option ℕ) → at_item xs o d (λ _ _. d) ≡ d
unfolding at_item
at_item-same d xs none = refl
at_item-same d xs (some i) = one_of (at i xs)
  where
    one_of : {A : Type 0} (o : Option A) → elim o [ none ↦ d | some a ↦ d ] ≡ d
    one_of none = refl
    one_of (some a) = refl

module _ (doc_id : ℕ) (x : Extracted) (b : ℕ → Bool) (c : Bool) (p : Profile) where
  pub weakened :
      (s t : ℕ → ℕ → Bool) (q : Profile)
      → ((k l : ℕ) → s k l ≡ true → t k l ≡ true)
      → Grew doc_id x s b c p q
      → Grew doc_id x t b c p q
  weakened s t q f (g, es, ps) =
      (g, GrewExps-weaken doc_id x s t b 0 p.experiences q.experiences (λ k l _. f k l) es, ps)

  pub replaced :
      (s t : ℕ → ℕ → Bool) (q : Profile) (i : ℕ) (e : Experience) (hs : List Highlight)
      → at i q.experiences ≡ some e
      → ((k l : ℕ) → k ≢ i → s k l ≡ true → t k l ≡ true)
      → ((u : Experience)
          → at i p.experiences ≡ some u
          → GrewHls doc_id x (s i) (b i) 0 u.highlights e.highlights
          → GrewHls doc_id x (t i) (b i) 0 u.highlights hs)
      → Grew doc_id x s b c p q
      → Grew doc_id x t b c p (set_experiences q (set_at i (set_highlights e hs) q.experiences))
  replaced s t q i e hs a o f (g, es, ps) =
      let here : i ≡ 0 + i = omega arith in
      (
        ap (λ u. set_experiences u (set_at i (set_highlights e hs) q.experiences)) g,
        GrewExps-set doc_id x s t b 0 i p.experiences q.experiences e hs a
            (subst (λ m. (k l : ℕ) → k ≢ m → s k l ≡ true → t k l ≡ true) here o)
            (λ u au.
              subst
                (λ m.
                  GrewHls doc_id x (s m) (b m) 0 u.highlights e.highlights
                  → GrewHls doc_id x (t m) (b m) 0 u.highlights hs)
                here (f u au))
            es,
        ps,
      )

  still_in :
      (j : ℕ) (o : Option Experience) (u : Experience)
      → o ≡ some u
      → highlight_in j o ≡ true
      → in_range j u.highlights ≡ true
  still_in j o u e h = subst (λ v. highlight_in j v ≡ true) e h

  pub enriched_at :
      (s : ℕ → ℕ → Bool) (q : Profile) (i j : ℕ) (e : Experience) (hl : Highlight)
      → at i q.experiences ≡ some e
      → at j e.highlights ≡ some hl
      → highlight_in j (at i p.experiences) ≡ true
      → s i j ≡ true
      → Grew doc_id x s b c p q
      → Grew doc_id x s b c p (
          set_experiences q (
            set_at i (set_highlights e (set_at j (enrich doc_id x hl) e.highlights)) q.experiences))
  enriched_at s q i j e hl ai aj o m =
      replaced s s q i e _ ai (λ k l _ t. t)
        λ u au.
          GrewHls-enrich doc_id x (s i) (b i) 0 j u.highlights e.highlights hl aj
            (still_in j (at i p.experiences) u au o) (subst (λ k. s i k ≡ true) (omega arith) m)

  pub impoverished_at :
      (s t : ℕ → ℕ → Bool) (q : Profile) (i j : ℕ) (e : Experience) (hl : Highlight)
      → at i q.experiences ≡ some e
      → at j e.highlights ≡ some hl
      → highlight_in j (at i p.experiences) ≡ true
      → fresh_experiences doc_id x p.experiences ≡ true
      → ((k l : ℕ) → s k l ≡ true → (k == i && l == j || t k l) ≡ true)
      → Grew doc_id x s b c p q
      → Grew doc_id x t b c p (
          set_experiences q (
            set_at i
              (set_highlights e (set_at j (impoverish doc_id x hl) e.highlights))
              q.experiences))
  impoverished_at s t q i j e hl ai aj o f m =
      replaced s t q i e _ ai (λ k l n h. ground (arith, n, m k l h))
        λ u au.
          GrewHls-impoverish doc_id x (s i) (t i) (b i) 0 j u.highlights e.highlights hl aj
            (still_in j (at i p.experiences) u au o) (fresh_at doc_id x i p.experiences u au f)
            (λ l n h. ground (arith, n, m i l h))
