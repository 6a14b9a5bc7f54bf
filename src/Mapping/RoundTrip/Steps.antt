-- ===== src/Mapping/RoundTrip/Steps.antt =====
-- agents/nodes/doc_intake.py: one row applied, one row taken back.
use interview_coach.Base.{
  ℕ, zero, suc, ◌≡◌, refl, sym, ap, subst, ◌∙◌, Bool, true, ◌||◌, Option, none, some, List, [], ◌∷◌,
  ◌++◌, at, set_at, ==_self, arith,
}
use interview_coach.Profile.{Highlight, Experience, Profile}
use interview_coach.Db.Models.{
  Extracted, MappingKind, highlight, experience, project, unknown_kind, MappingRow,
}
use interview_coach.Mapping.{
  applied, apply_row, doc_highlight, doc_project, resolve_extracted_payload, set_highlights,
  set_experiences, set_projects,
}
use interview_coach.Mapping.Revert.{at_item, impoverish, strip_highlight, strip_row}
use interview_coach.Mapping.Owned.{names, is_project}
use interview_coach.Mapping.Growth.{GrewHls, GrewHls-append, in_range, fresh_experiences}
use interview_coach.Mapping.Growth.Profiles.{GrewExps, GrewProjs-append}
use interview_coach.Mapping.RoundTrip.Changes.{
  hits, highlight_in, original, Grew, item-applied, in_range-at, at_item-found, at_item-same,
  applied_injective, weakened, replaced, enriched_at, impoverished_at,
}

module _ (doc_id : ℕ) (x : Extracted) (b : ℕ → Bool) (c : Bool) (p : Profile) where
  indices_hit :
      (i j : ℕ) (o o' : Option ℕ) → o ≡ some i → o' ≡ some j → hits i j highlight o o' ≡ true
  indices_hit i j o o' e e' =
      subst (λ v. hits i j highlight v o' ≡ true) (sym e)
        (subst (λ v. hits i j highlight (some i) v ≡ true) (sym e')
          (ground (arith, ==_self i, ==_self j)))

  original_in :
      (i j : ℕ) (o o' : Option ℕ)
      → o ≡ some i
      → o' ≡ some j
      → original p highlight o o' ≡ true
      → highlight_in j (at i p.experiences) ≡ true
  original_in i j o o' e e' h =
      subst (λ v. original p highlight (some i) v ≡ true) e'
        (subst (λ v. original p highlight v o' ≡ true) e h)

  index_named : (i : ℕ) (o : Option ℕ) → o ≡ some i → names i experience o ≡ true
  index_named i o e = subst (λ v. names i experience v ≡ true) (sym e) (==_self i)

  module _ (s : ℕ → ℕ → Bool) (q q' : Profile) (row : MappingRow) where
    apply_highlight-Grew :
        apply_row doc_id highlight row x q ≡ applied q'
        → original p highlight row.experience_idx row.highlight_idx ≡ true
        → ((i j : ℕ)
            → hits i j highlight row.experience_idx row.highlight_idx ≡ true
            → s i j ≡ true)
        → Grew doc_id x s b c p q
        → Grew doc_id x s b c p q'
    unfolding apply_row
    apply_highlight-Grew h o m g =
        let (i, ei, e, ai, h1) = item-applied _ q' q.experiences row.experience_idx h in
        let (j, ej, hl, aj, h2) = item-applied _ q' e.highlights row.highlight_idx h1 in
        subst (Grew doc_id x s b c p) (applied_injective h2) (
          enriched_at doc_id x b c p s q i j e hl ai aj (original_in i j _ _ ei ej o)
            (m i j (indices_hit i j _ _ ei ej)) g)

    apply_experience-Grew :
        apply_row doc_id experience row x q ≡ applied q'
        → ((i : ℕ) → names i experience row.experience_idx ≡ true → b i ≡ true)
        → Grew doc_id x s b c p q
        → Grew doc_id x s b c p q'
    unfolding apply_row doc_highlight
    apply_experience-Grew h n g =
        let (i, ei, e, ai, h1) = item-applied _ q' q.experiences row.experience_idx h in
        subst (Grew doc_id x s b c p) (applied_injective h1) (
          replaced doc_id x b c p s s q i e _ ai (λ k l _ t. t)
            (λ u au.
              GrewHls-append doc_id x (s i) (b i) 0 u.highlights e.highlights
                (doc_highlight doc_id x) (n i (index_named i _ ei)) (==_self doc_id))
            g)

    apply_project-Grew :
        apply_row doc_id project row x q ≡ applied q'
        → c ≡ true
        → Grew doc_id x s b c p q
        → Grew doc_id x s b c p q'
    unfolding apply_row doc_project
    apply_project-Grew h t (g, es, ps) = subst (Grew doc_id x s b c p) (applied_injective h) (
      ap (λ u. set_projects u (q.projects ++ doc_project doc_id x ∷ [])) g,
      es,
      GrewProjs-append doc_id x c p.projects q.projects (doc_project doc_id x) t (==_self doc_id)
          ps,
    )

    -- A row that is applied
    pub apply_row-Grew :
        (kind : MappingKind)
        → apply_row doc_id kind row x q ≡ applied q'
        → original p kind row.experience_idx row.highlight_idx ≡ true
        → ((i j : ℕ) → hits i j kind row.experience_idx row.highlight_idx ≡ true → s i j ≡ true)
        → ((i : ℕ) → names i kind row.experience_idx ≡ true → b i ≡ true)
        → (is_project kind ≡ true → c ≡ true)
        → Grew doc_id x s b c p q
        → Grew doc_id x s b c p q'
    unfolding apply_row
    apply_row-Grew highlight h o m n t g = apply_highlight-Grew h o m g
    apply_row-Grew experience h o m n t g = apply_experience-Grew h n g
    apply_row-Grew project h o m n t g = apply_project-Grew h (t refl) g
    apply_row-Grew (unknown_kind _) h o m n t g = cc

  stripped :
      (q : Profile) (i j : ℕ) (e : Experience) (hl : Highlight)
      → at i q.experiences ≡ some e
      → at j e.highlights ≡ some hl
      → strip_highlight doc_id x (some i) (some j) q
        ≡ set_experiences q (
            set_at i
              (set_highlights e (set_at j (impoverish doc_id x hl) e.highlights))
              q.experiences)
  unfolding strip_highlight
  stripped q i j e hl ai aj =
      let put = λ (k : ℕ) (u : Experience) (l : ℕ) (v : Highlight). set_experiences q (
        set_at k (set_highlights u (set_at l (impoverish doc_id x v) u.highlights))
          q.experiences) in
      at_item-found q (λ k u. at_item u.highlights (some j) q (put k u)) q.experiences i e ai
      ∙ at_item-found q (put i e) e.highlights j hl aj

  -- What a row that is taken back looks for is there.
  in_range_kept :
      (u : ℕ → Bool) (v : Bool) (n j : ℕ) (hs hs' : List Highlight)
      → GrewHls doc_id x u v n hs hs'
      → in_range j hs ≡ true
      → in_range j hs' ≡ true
  in_range_kept u v n j [] hs' g h = cc
  in_range_kept u v n j (k ∷ hs) [] g h = absurd g
  in_range_kept u v n zero (k ∷ hs) (k' ∷ hs') g h = refl
  in_range_kept u v n (suc j) (k ∷ hs) (k' ∷ hs') (g, gs) h =
      in_range_kept u v (suc n) j hs hs' gs h

  module _ (s t : ℕ → ℕ → Bool) (q : Profile) where
    kept_at :
        (n i : ℕ) (es es' : List Experience) (j : ℕ)
        → GrewExps doc_id x s b n es es'
        → highlight_in j (at i es) ≡ true
        → (e : Experience) × (at i es' ≡ some e) × (in_range j e.highlights ≡ true)
    kept_at n i [] es' j g h = cc
    kept_at n i (e ∷ es) [] j g h = absurd g
    kept_at n zero (e ∷ es) (e' ∷ es') j (g, hs, gs) h =
        (e', refl, in_range_kept (s n) (b n) 0 j e.highlights e'.highlights hs h)
    kept_at n (suc i) (e ∷ es) (e' ∷ es') j (g, hs, gs) h = kept_at (suc n) i es es' j gs h

    strip_highlight-Grew :
        (o o' : Option ℕ)
        → original p highlight o o' ≡ true
        → fresh_experiences doc_id x p.experiences ≡ true
        → ((k l : ℕ) → s k l ≡ true → (hits k l highlight o o' || t k l) ≡ true)
        → Grew doc_id x s b c p q
        → Grew doc_id x t b c p (strip_highlight doc_id x o o' q)
    unfolding strip_highlight at_item
    strip_highlight-Grew none o' h f m g = weakened doc_id x b c p s t q m g
    strip_highlight-Grew (some i) none h f m g =
        subst (Grew doc_id x t b c p) (sym (at_item-same q q.experiences (some i)))
          (weakened doc_id x b c p s t q m g)
    strip_highlight-Grew (some i) (some j) h f m g =
        let (e, ai, r) = kept_at 0 i p.experiences q.experiences j g.1 h in
        let (hl, aj) = in_range-at j e.highlights r in
        subst (Grew doc_id x t b c p) (sym (stripped q i j e hl ai aj))
          (impoverished_at doc_id x b c p s t q i j e hl ai aj h f m g)

    -- A row that is taken back
    pub strip_row-Grew :
        (kind : MappingKind) (row : MappingRow)
        → resolve_extracted_payload row.extracted_json none ≡ x
        → original p kind row.experience_idx row.highlight_idx ≡ true
        → fresh_experiences doc_id x p.experiences ≡ true
        → ((k l : ℕ)
            → s k l ≡ true
            → (hits k l kind row.experience_idx row.highlight_idx || t k l) ≡ true)
        → Grew doc_id x s b c p q
        → Grew doc_id x t b c p (strip_row doc_id kind row q)
    unfolding strip_row
    strip_row-Grew highlight row r o f m g =
        subst
          (λ y.
            Grew doc_id x t b c p (strip_highlight doc_id y row.experience_idx row.highlight_idx q))
          (sym r) (strip_highlight-Grew row.experience_idx row.highlight_idx o f m g)
    strip_row-Grew experience row r o f m g = weakened doc_id x b c p s t q m g
    strip_row-Grew project row r o f m g = weakened doc_id x b c p s t q m g
    strip_row-Grew (unknown_kind _) row r o f m g = weakened doc_id x b c p s t q m g
