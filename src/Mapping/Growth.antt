-- ===== src/Mapping/Growth.antt =====
-- agents/nodes/doc_intake.py: how a profile stands to the one from which a document's mapping, so
-- far as it was applied and not yet taken back, has made it.
pub mod Profiles
use interview_coach.Base.{
  ℕ, zero, suc, ◌+◌, ◌≤◌, ◌≡◌, ◌≢◌, ◌⊎◌, inl, inr, refl, sym, ap, subst, ◌∙◌, Bool, true, false,
  not, ◌&&◌, ◌||◌, Option, none, some, List, [], ◌∷◌, ◌++◌, All, All-append, at, set_at, keep, any,
  ◌==◌, if◌then◌else◌, arith,
}
use interview_coach.Profile.{Highlight, Experience, ProjectItem, Profile}
use interview_coach.Db.Models.{Extracted}
use interview_coach.Mapping.{enrich, set_highlights, set_experiences, set_projects}
use interview_coach.Mapping.Revert.{only_by, impoverish}
use interview_coach.Mapping.Owned.{owned_highlight, owned_project}
use interview_coach.Mapping.Enrich.{
  fresh_highlight, impoverish-enrich, impoverish-fresh, enrich_twice,
}

abbrev pub in_range {ℓ} : {A : Type ℓ} → ℕ → List A → Bool
in_range n [] = false
in_range zero (x ∷ xs) = true
in_range (suc n) (x ∷ xs) = in_range n xs

abbrev pub fresh_highlights : ℕ → Extracted → List Highlight → Bool
fresh_highlights doc_id x [] = true
fresh_highlights doc_id x (h ∷ hs) = fresh_highlight doc_id x h && fresh_highlights doc_id x hs

abbrev pub fresh_experiences : ℕ → Extracted → List Experience → Bool
fresh_experiences doc_id x [] = true
fresh_experiences doc_id x (e ∷ es) =
    fresh_highlights doc_id x e.highlights && fresh_experiences doc_id x es

abbrev pub fresh_projects : ℕ → List ProjectItem → Bool
fresh_projects doc_id [] = true
fresh_projects doc_id (q ∷ qs) = not (owned_project doc_id q) && fresh_projects doc_id qs

module _ (doc_id : ℕ) (x : Extracted) where
  -- The highlights of one experience, counted from `n`: those in `s` may be enriched; further ones,
  -- that the document owns, may follow if `b`.
  abbrev pub GrewHls : (ℕ → Bool) → Bool → ℕ → List Highlight → List Highlight → Type 0
  GrewHls s b n [] hs' = All (λ h. owned_highlight doc_id h ≡ true) hs' × ((b ≡ true) ⊎ (hs' ≡ []))
  GrewHls s b n (h ∷ hs) [] = ⊥
  GrewHls s b n (h ∷ hs) (h' ∷ hs') =
      ((h' ≡ h) ⊎ ((s n ≡ true) × (h' ≡ enrich doc_id x h))) × GrewHls s b (suc n) hs hs'

  pub GrewHls-start : (s : ℕ → Bool) (b : Bool) (n : ℕ) (hs : List Highlight) → GrewHls s b n hs hs
  GrewHls-start s b n [] = (tt, inr refl)
  GrewHls-start s b n (h ∷ hs) = (inl refl, GrewHls-start s b (suc n) hs)

  marked_too :
      (b c : Bool) (h h' : Highlight)
      → (b ≡ true → c ≡ true)
      → ((h' ≡ h) ⊎ ((b ≡ true) × (h' ≡ enrich doc_id x h)))
      → (h' ≡ h) ⊎ ((c ≡ true) × (h' ≡ enrich doc_id x h))
  marked_too b c h h' f (inl e) = inl e
  marked_too b c h h' f (inr (m, e)) = inr (f m, e)

  pub GrewHls-weaken :
      (s t : ℕ → Bool) (b : Bool) (n : ℕ) (hs hs' : List Highlight)
      → ((l : ℕ) → n ≤ l → s l ≡ true → t l ≡ true)
      → GrewHls s b n hs hs'
      → GrewHls t b n hs hs'
  GrewHls-weaken s t b n [] hs' f g = g
  GrewHls-weaken s t b n (h ∷ hs) [] f g = g
  GrewHls-weaken s t b n (h ∷ hs) (h' ∷ hs') f (g, gs) = (
    marked_too (s n) (t n) h h' (f n (omega arith)) g,
    GrewHls-weaken s t b (suc n) hs hs' (λ l k. f l (omega (arith, k))) gs,
  )

  enriched :
      (b : Bool) (h h' : Highlight)
      → ((h' ≡ h) ⊎ ((b ≡ true) × (h' ≡ enrich doc_id x h)))
      → enrich doc_id x h' ≡ enrich doc_id x h
  enriched b h h' (inl e) = ap (enrich doc_id x) e
  enriched b h h' (inr (m, e)) = ap (enrich doc_id x) e ∙ enrich_twice doc_id x h

  restored :
      (b : Bool) (h h' : Highlight)
      → fresh_highlight doc_id x h ≡ true
      → ((h' ≡ h) ⊎ ((b ≡ true) × (h' ≡ enrich doc_id x h)))
      → impoverish doc_id x h' ≡ h
  restored b h h' f (inl e) = ap (impoverish doc_id x) e ∙ impoverish-fresh doc_id x h f
  restored b h h' f (inr (m, e)) = ap (impoverish doc_id x) e ∙ impoverish-enrich doc_id x h f

  some_injective : {a b : Highlight} → some a ≡ some b → a ≡ b
  some_injective e = cc

  pub GrewHls-enrich :
      (s : ℕ → Bool) (b : Bool) (n j : ℕ) (hs hs' : List Highlight) (h' : Highlight)
      → at j hs' ≡ some h'
      → in_range j hs ≡ true
      → s (n + j) ≡ true
      → GrewHls s b n hs hs'
      → GrewHls s b n hs (set_at j (enrich doc_id x h') hs')
  GrewHls-enrich s b n zero (h ∷ hs) (k ∷ hs') h' e r m (g, gs) = (
    inr (
      subst (λ l. s l ≡ true) (omega arith) m,
      ap (enrich doc_id x) (sym (some_injective e)) ∙ enriched (s n) h k g,
    ),
    gs,
  )
  GrewHls-enrich s b n (suc j) (h ∷ hs) (k ∷ hs') h' e r m (g, gs) =
      (g, GrewHls-enrich s b (suc n) j hs hs' h' e r (subst (λ l. s l ≡ true) (omega arith) m) gs)
  GrewHls-enrich s b n j [] hs' h' e r m g = cc
  GrewHls-enrich s b n j (h ∷ hs) [] h' e r m g = g

  -- The mark that is taken back is the one of `j`.
  pub GrewHls-impoverish :
      (s t : ℕ → Bool) (b : Bool) (n j : ℕ) (hs hs' : List Highlight) (h' : Highlight)
      → at j hs' ≡ some h'
      → in_range j hs ≡ true
      → fresh_highlights doc_id x hs ≡ true
      → ((l : ℕ) → l ≢ n + j → s l ≡ true → t l ≡ true)
      → GrewHls s b n hs hs'
      → GrewHls t b n hs (set_at j (impoverish doc_id x h') hs')
  GrewHls-impoverish s t b n zero (h ∷ hs) (k ∷ hs') h' e r f m (g, gs) = (
    inl (
        ap (impoverish doc_id x) (sym (some_injective e))
        ∙ restored (s n) h k (ground (arith, f)) g),
    GrewHls-weaken s t b (suc n) hs hs' (λ l p. m l (omega (arith, p))) gs,
  )
  GrewHls-impoverish s t b n (suc j) (h ∷ hs) (k ∷ hs') h' e r f m (g, gs) = (
    marked_too (s n) (t n) h k (m n (omega arith)) g,
    GrewHls-impoverish s t b (suc n) j hs hs' h' e r (ground (arith, f))
        (λ l p. m l (omega (arith, p))) gs,
  )
  GrewHls-impoverish s t b n j [] hs' h' e r f m g = cc
  GrewHls-impoverish s t b n j (h ∷ hs) [] h' e r f m g = g

  pub GrewHls-append :
      (s : ℕ → Bool) (b : Bool) (n : ℕ) (hs hs' : List Highlight) (new : Highlight)
      → b ≡ true
      → owned_highlight doc_id new ≡ true
      → GrewHls s b n hs hs'
      → GrewHls s b n hs (hs' ++ new ∷ [])
  GrewHls-append s b n [] hs' new e o (g, _) = (All-append _ hs' (new ∷ []) g (o, tt), inl e)
  GrewHls-append s b n (h ∷ hs) (h' ∷ hs') new e o (g, gs) =
      (g, GrewHls-append s b (suc n) hs hs' new e o gs)
  GrewHls-append s b n (h ∷ hs) [] new e o g = absurd g

  not_owned : (ids : List ℕ) → any (λ i. i == doc_id) ids ≡ false → only_by doc_id ids ≡ false
  not_owned [] f = refl
  not_owned (i ∷ []) f = ground (arith, f)
  not_owned (i ∷ j ∷ is) f = refl

  none_owned :
      (hs : List Highlight)
      → All (λ h. owned_highlight doc_id h ≡ true) hs
      → keep (λ h. not (owned_highlight doc_id h)) hs ≡ []
  none_owned [] a = refl
  none_owned (h ∷ hs) (o, a) = ground (arith, o, none_owned hs a)

  kept_first :
      (b : Bool) (h : Highlight) (hs : List Highlight)
      → owned_highlight doc_id h ≡ false
      → (if b then keep (λ k. not (owned_highlight doc_id k)) (h ∷ hs) else h ∷ hs)
        ≡ h ∷ (if b then keep (λ k. not (owned_highlight doc_id k)) hs else hs)
  kept_first true h hs o = ground (arith, o)
  kept_first false h hs o = refl

  unchanged : (h h' : Highlight) → ((h' ≡ h) ⊎ ((false ≡ true) × (h' ≡ enrich doc_id x h))) → h' ≡ h
  unchanged h h' (inl e) = e
  unchanged h h' (inr (m, e)) = cc

  -- What is left when no mark is.
  pub GrewHls-none :
      (b : Bool) (n : ℕ) (hs hs' : List Highlight)
      → fresh_highlights doc_id x hs ≡ true
      → GrewHls (λ _. false) b n hs hs'
      → (if b then keep (λ h. not (owned_highlight doc_id h)) hs' else hs') ≡ hs
  GrewHls-none true n [] hs' f (a, _) = none_owned hs' a
  GrewHls-none false n [] hs' f (a, inl e) = cc
  GrewHls-none false n [] hs' f (a, inr e) = e
  GrewHls-none b n (h ∷ hs) [] f g = absurd g
  GrewHls-none b n (h ∷ hs) (h' ∷ hs') f (g, gs) =
      ap (λ k. if b then keep (λ l. not (owned_highlight doc_id l)) (k ∷ hs') else k ∷ hs')
        (unchanged h h' g)
      ∙ kept_first b h hs' (not_owned h.source_document_ids (ground (arith, f)))
      ∙ ap (λ ks. h ∷ ks) (GrewHls-none b (suc n) hs hs' (ground (arith, f)) gs)
