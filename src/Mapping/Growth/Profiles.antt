-- ===== src/Mapping/Growth/Profiles.antt =====
-- agents/nodes/doc_intake.py: the relation between highlights, carried to experiences and profiles.
use interview_coach.Base.{
  ℕ, zero, suc, ◌+◌, ◌≤◌, ◌≡◌, ◌≢◌, ◌⊎◌, inl, inr, refl, sym, ap, subst, ◌∙◌, Bool, true, false,
  not, some, List, [], ◌∷◌, ◌++◌, All, All-append, at, set_at, keep, if◌then◌else◌, arith,
}
use interview_coach.Profile.{Highlight, Experience, ProjectItem}
use interview_coach.Db.Models.{Extracted, MappingRow}
use interview_coach.Mapping.{set_highlights}
use interview_coach.Mapping.Owned.{owned_highlight, owned_project, named, kept_highlights}
use interview_coach.Mapping.Growth.{
  GrewHls, GrewHls-start, GrewHls-weaken, GrewHls-none, fresh_experiences, fresh_projects,
}

module _ (doc_id : ℕ) (x : Extracted) where
  -- The experiences, counted from `n`: `s` marks enriched highlights by their two indices, `b` the
  -- experiences that may have further ones.
  abbrev pub GrewExps : (ℕ → ℕ → Bool) → (ℕ → Bool) → ℕ → List Experience → List Experience → Type 0
  GrewExps s b n [] [] = Unit
  GrewExps s b n [] (e' ∷ es') = ⊥
  GrewExps s b n (e ∷ es) [] = ⊥
  GrewExps s b n (e ∷ es) (e' ∷ es') =
      (e' ≡ set_highlights e e'.highlights)
      × GrewHls doc_id x (s n) (b n) 0 e.highlights e'.highlights
      × GrewExps s b (suc n) es es'

  pub GrewExps-start :
      (s : ℕ → ℕ → Bool) (b : ℕ → Bool) (n : ℕ) (es : List Experience) → GrewExps s b n es es
  GrewExps-start s b n [] = tt
  GrewExps-start s b n (e ∷ es) =
      (refl, GrewHls-start doc_id x (s n) (b n) 0 e.highlights, GrewExps-start s b (suc n) es)

  pub GrewExps-weaken :
      (s t : ℕ → ℕ → Bool) (b : ℕ → Bool) (n : ℕ) (es es' : List Experience)
      → ((k l : ℕ) → n ≤ k → s k l ≡ true → t k l ≡ true)
      → GrewExps s b n es es'
      → GrewExps t b n es es'
  GrewExps-weaken s t b n [] [] f g = g
  GrewExps-weaken s t b n [] (e' ∷ es') f g = g
  GrewExps-weaken s t b n (e ∷ es) [] f g = g
  GrewExps-weaken s t b n (e ∷ es) (e' ∷ es') f (g, hs, gs) = (
    g,
    GrewHls-weaken doc_id x (s n) (t n) (b n) 0 e.highlights e'.highlights
        (λ l _. f n l (omega arith)) hs,
    GrewExps-weaken s t b (suc n) es es' (λ k l p. f k l (omega (arith, p))) gs,
  )

  some_injective : {a b : Experience} → some a ≡ some b → a ≡ b
  some_injective e = cc

  -- Other highlights for one experience, if they stand in the relation.
  pub GrewExps-set :
      (s t : ℕ → ℕ → Bool) (b : ℕ → Bool) (n i : ℕ) (es es' : List Experience) (e' : Experience)
      (hs : List Highlight)
      → at i es' ≡ some e'
      → ((k l : ℕ) → k ≢ n + i → s k l ≡ true → t k l ≡ true)
      → ((e : Experience)
          → at i es ≡ some e
          → GrewHls doc_id x (s (n + i)) (b (n + i)) 0 e.highlights e'.highlights
          → GrewHls doc_id x (t (n + i)) (b (n + i)) 0 e.highlights hs)
      → GrewExps s b n es es'
      → GrewExps t b n es (set_at i (set_highlights e' hs) es')
  GrewExps-set s t b n i [] [] e' hs a o f g = tt
  GrewExps-set s t b n i [] (k ∷ es') e' hs a o f g = absurd g
  GrewExps-set s t b n i (e ∷ es) [] e' hs a o f g = g
  GrewExps-set s t b n zero (e ∷ es) (k ∷ es') e' hs a o f (g, h, gs) =
      let here : n + 0 ≡ n = omega arith in
      let same : k ≡ e' = some_injective a in
      (
        ap (λ u. set_highlights u hs) (sym same ∙ g),
        subst (λ m. GrewHls doc_id x (t m) (b m) 0 e.highlights hs) here
            (f e refl (
              subst (λ u. GrewHls doc_id x (s (n + 0)) (b (n + 0)) 0 e.highlights u.highlights) same
                (subst (λ m. GrewHls doc_id x (s m) (b m) 0 e.highlights k.highlights) (sym here)
                  h))),
        GrewExps-weaken s t b (suc n) es es' (λ m l p. o m l (omega (arith, p))) gs,
      )
  GrewExps-set s t b n (suc i) (e ∷ es) (k ∷ es') e' hs a o f (g, h, gs) =
      let there : suc n + i ≡ n + suc i = omega arith in
      (
        g,
        GrewHls-weaken doc_id x (s n) (t n) (b n) 0 e.highlights k.highlights
            (λ l _. o n l (omega arith)) h,
        GrewExps-set s t b (suc n) i es es' e' hs a (λ m l p. o m l (omega (arith, p)))
            (λ u au gu.
              subst (λ m. GrewHls doc_id x (t m) (b m) 0 u.highlights hs) (sym there)
                (f u au (
                  subst (λ m. GrewHls doc_id x (s m) (b m) 0 u.highlights e'.highlights) there gu)))
            gs,
      )

  -- The projects: further ones, that the document owns, may follow if `b`.
  abbrev pub GrewProjs : Bool → List ProjectItem → List ProjectItem → Type 0
  GrewProjs b [] qs' = All (λ q. owned_project doc_id q ≡ true) qs' × ((b ≡ true) ⊎ (qs' ≡ []))
  GrewProjs b (q ∷ qs) [] = ⊥
  GrewProjs b (q ∷ qs) (q' ∷ qs') = (q' ≡ q) × GrewProjs b qs qs'

  pub GrewProjs-start : (b : Bool) (qs : List ProjectItem) → GrewProjs b qs qs
  GrewProjs-start b [] = (tt, inr refl)
  GrewProjs-start b (q ∷ qs) = (refl, GrewProjs-start b qs)

  pub GrewProjs-append :
      (b : Bool) (qs qs' : List ProjectItem) (new : ProjectItem)
      → b ≡ true
      → owned_project doc_id new ≡ true
      → GrewProjs b qs qs'
      → GrewProjs b qs (qs' ++ new ∷ [])
  GrewProjs-append b [] qs' new e o (g, _) = (All-append _ qs' (new ∷ []) g (o, tt), inl e)
  GrewProjs-append b (q ∷ qs) [] new e o g = absurd g
  GrewProjs-append b (q ∷ qs) (q' ∷ qs') new e o (g, gs) = (g, GrewProjs-append b qs qs' new e o gs)

  none_owned :
      (qs : List ProjectItem)
      → All (λ q. owned_project doc_id q ≡ true) qs
      → keep (λ q. not (owned_project doc_id q)) qs ≡ []
  none_owned [] a = refl
  none_owned (q ∷ qs) (o, a) = ground (arith, o, none_owned qs a)

  kept_first :
      (b : Bool) (q : ProjectItem) (qs : List ProjectItem)
      → owned_project doc_id q ≡ false
      → (if b then keep (λ k. not (owned_project doc_id k)) (q ∷ qs) else q ∷ qs)
        ≡ q ∷ (if b then keep (λ k. not (owned_project doc_id k)) qs else qs)
  kept_first true q qs o = ground (arith, o)
  kept_first false q qs o = refl

  pub GrewProjs-none :
      (b : Bool) (qs qs' : List ProjectItem)
      → fresh_projects doc_id qs ≡ true
      → GrewProjs b qs qs'
      → (if b then keep (λ q. not (owned_project doc_id q)) qs' else qs') ≡ qs
  GrewProjs-none true [] qs' f (a, _) = none_owned qs' a
  GrewProjs-none false [] qs' f (a, inl e) = cc
  GrewProjs-none false [] qs' f (a, inr e) = e
  GrewProjs-none b (q ∷ qs) [] f g = absurd g
  GrewProjs-none b (q ∷ qs) (q' ∷ qs') f (g, gs) =
      ap (λ k. if b then keep (λ l. not (owned_project doc_id l)) (k ∷ qs') else k ∷ qs') g
      ∙ kept_first b q qs' (ground (arith, f))
      ∙ ap (λ ks. q ∷ ks) (GrewProjs-none b qs qs' (ground (arith, f)) gs)

  kept_one :
      (b : Bool) (e e' : Experience)
      → e' ≡ set_highlights e e'.highlights
      → (if b then keep (λ h. not (owned_highlight doc_id h)) e'.highlights else e'.highlights)
        ≡ e.highlights
      → (if b
          then set_highlights e' (keep (λ h. not (owned_highlight doc_id h)) e'.highlights)
          else e')
        ≡ e
  kept_one true e e' g h =
      ap (λ u. set_highlights u (keep (λ k. not (owned_highlight doc_id k)) e'.highlights)) g
      ∙ ap (set_highlights e) h
  kept_one false e e' g h = g ∙ ap (set_highlights e) h

  pub GrewExps-none :
      (rows : List MappingRow) (n : ℕ) (es es' : List Experience)
      → fresh_experiences doc_id x es ≡ true
      → GrewExps (λ _ _. false) (λ i. named i rows) n es es'
      → kept_highlights doc_id rows n es' ≡ es
  GrewExps-none rows n [] [] f g = refl
  GrewExps-none rows n [] (e' ∷ es') f g = absurd g
  GrewExps-none rows n (e ∷ es) [] f g = absurd g
  GrewExps-none rows n (e ∷ es) (e' ∷ es') f (g, h, gs) = λ i.
      kept_one (named n rows) e e' g
        (GrewHls-none doc_id x (named n rows) 0 e.highlights e'.highlights (ground (arith, f)) h) i
      ∷ GrewExps-none rows (suc n) es es' (ground (arith, f)) gs i
