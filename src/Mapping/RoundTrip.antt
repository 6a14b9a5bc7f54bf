-- ===== src/Mapping/RoundTrip.antt =====
-- agents/nodes/doc_intake.py: `_mutate_profile_revert` after `_mutate_profile_apply`.
pub mod Changes
pub mod Steps
use interview_coach.Base.{
  ℕ, ◌≡◌, refl, sym, ap, subst, ◌∙◌, Bool, true, false, not, ◌&&◌, ◌||◌, Option, none, some, List,
  [], ◌∷◌, map, All, if◌then◌else◌, arith,
}
use interview_coach.Profile.{Profile}
use interview_coach.Db.Models.{Extracted, MappingRow}
use interview_coach.Mapping.{
  Applied, applied, value_error, type_error, and_then, resolve_extracted_payload, apply_row,
  mutate_profile_apply, set_experiences, set_projects,
}
use interview_coach.Mapping.Revert.{strip_row, strip_rows, mutate_profile_revert}
use interview_coach.Mapping.Owned.{
  names, named, is_project, some_project, kept_highlights, kept_projects, without_owned,
  mutate_profile_revert-without_owned,
}
use interview_coach.Mapping.Growth.{fresh_experiences, fresh_projects}
use interview_coach.Mapping.Growth.Profiles.{
  GrewExps-start, GrewProjs-start, GrewExps-none, GrewProjs-none,
}
use interview_coach.Mapping.RoundTrip.Changes.{applied_injective, Grew, hits, original}
use interview_coach.Mapping.RoundTrip.Steps.{apply_row-Grew, strip_row-Grew}

-- `copy` of a row: every row carries the payload of its document.
abbrev pub stamp : Option Extracted → MappingRow → MappingRow
stamp extracted row = record row { extracted_json = extracted }

abbrev pub originals : Profile → List MappingRow → Bool
originals p [] = true
originals p (row ∷ rows) =
    original p row.mapping_kind row.experience_idx row.highlight_idx && originals p rows

-- The highlights that the rows name
abbrev marked : List MappingRow → ℕ → ℕ → Bool
marked [] i j = false
marked (row ∷ rows) i j =
    hits i j row.mapping_kind row.experience_idx row.highlight_idx || marked rows i j

-- No highlight has the document as a source, lists a tech item or a URL that it names, or has its
-- description; and no project has the document as its only source.
pub record Fresh (doc_id : ℕ) (x : Extracted) (p : Profile) : Type 0 where
  pub experiences : fresh_experiences doc_id x p.experiences ≡ true
  pub projects : fresh_projects doc_id p.projects ≡ true

abbrev Stamped : Option Extracted → List MappingRow → Type 0
Stamped extracted rows = All (λ row. row.extracted_json ≡ extracted) rows

resolve_same :
    (o : Option Extracted) → resolve_extracted_payload o o ≡ resolve_extracted_payload o none
unfolding resolve_extracted_payload
resolve_same none = refl
resolve_same (some x) = refl

map-stamp-Stamped :
    (extracted : Option Extracted) (rows : List MappingRow)
    → Stamped extracted (map (stamp extracted) rows)
map-stamp-Stamped extracted [] = tt
map-stamp-Stamped extracted (row ∷ rows) = (refl, map-stamp-Stamped extracted rows)

and_then-applied :
    {A B : Type 0} (m : Applied A) (k : A → Applied B) (b : B)
    → and_then m k ≡ applied b
    → (a : A) × (m ≡ applied a) × (k a ≡ applied b)
unfolding and_then
and_then-applied (applied a) k b h = (a, refl, h)
and_then-applied value_error k b h = cc
and_then-applied type_error k b h = cc

module _ (doc_id : ℕ) (extracted : Option Extracted) (p : Profile) where
  abbrev payload : Extracted
  payload = resolve_extracted_payload extracted none

  mutate_profile_apply-Grew :
      (s : ℕ → ℕ → Bool) (b : ℕ → Bool) (c : Bool) (q q' : Profile) (rows : List MappingRow)
      → mutate_profile_apply q doc_id rows extracted ≡ applied q'
      → Stamped extracted rows
      → originals p rows ≡ true
      → ((i j : ℕ) → marked rows i j ≡ true → s i j ≡ true)
      → ((i : ℕ) → named i rows ≡ true → b i ≡ true)
      → (some_project rows ≡ true → c ≡ true)
      → Grew doc_id payload s b c p q
      → Grew doc_id payload s b c p q'
  unfolding mutate_profile_apply
  mutate_profile_apply-Grew s b c q q' [] h st o m n t g =
      subst (Grew doc_id payload s b c p) (applied_injective h) g
  mutate_profile_apply-Grew s b c q q' (row ∷ rows) h (st, sts) o m n t g =
      let (q1, h1, h2) = and_then-applied _ _ q' h in
      let resolved : resolve_extracted_payload row.extracted_json extracted ≡ payload =
        ap (λ e. resolve_extracted_payload e extracted) st ∙ resolve_same extracted in
      mutate_profile_apply-Grew s b c q1 q' rows h2 sts (ground (arith, o))
        (λ i j k. m i j (ground (arith, k))) (λ i k. n i (ground (arith, k)))
        (λ k. t (ground (arith, k)))
        (apply_row-Grew doc_id payload b c p s q q1 row row.mapping_kind
          (subst (λ y. apply_row doc_id row.mapping_kind row y q ≡ applied q1) resolved h1)
          (ground (arith, o)) (λ i j k. m i j (ground (arith, k))) (λ i k. n i (ground (arith, k)))
          (λ k. t (ground (arith, k))) g)

  strip_rows-Grew :
      (b : ℕ → Bool) (c : Bool) (q : Profile) (rows : List MappingRow)
      → Stamped extracted rows
      → originals p rows ≡ true
      → fresh_experiences doc_id payload p.experiences ≡ true
      → Grew doc_id payload (marked rows) b c p q
      → Grew doc_id payload (λ _ _. false) b c p (strip_rows doc_id rows q)
  unfolding strip_rows
  strip_rows-Grew b c q [] st o f g = g
  strip_rows-Grew b c q (row ∷ rows) (st, sts) o f g =
      strip_rows-Grew b c (strip_row doc_id row.mapping_kind row q) rows sts (ground (arith, o)) f (
        strip_row-Grew doc_id payload b c p (marked (row ∷ rows)) (marked rows) q row.mapping_kind
          row (ap (λ e. resolve_extracted_payload e none) st) (ground (arith, o)) f (λ k l h. h) g)

-- If no highlight of a profile has the document as a source, lists a tech item or a URL that the
-- document names, or has its description, no project has the document as its only source, and the
-- document's rows of kind `highlight` name highlights of that profile, then the rows, once applied,
-- are taken back without a trace.
pub mutate_profile_revert-apply :
    (p q : Profile) (doc_id : ℕ) (extracted : Option Extracted) (rows : List MappingRow)
    → Fresh doc_id (resolve_extracted_payload extracted none) p
    → originals p (map (stamp extracted) rows) ≡ true
    → mutate_profile_apply p doc_id (map (stamp extracted) rows) extracted ≡ applied q
    → mutate_profile_revert q doc_id (map (stamp extracted) rows) ≡ p
mutate_profile_revert-apply p q doc_id extracted rows fresh o h =
    let stamped = map (stamp extracted) rows in
    let x = resolve_extracted_payload extracted none in
    let st = map-stamp-Stamped extracted rows in
    let start : Grew doc_id x (marked stamped) (λ i. named i stamped) (some_project stamped) p p =
      (refl, GrewExps-start doc_id x _ _ 0 p.experiences, GrewProjs-start doc_id x _ p.projects) in
    let (e, es, ps) =
      strip_rows-Grew doc_id extracted p (λ i. named i stamped) (some_project stamped) q stamped st
        o fresh.experiences
        (mutate_profile_apply-Grew doc_id extracted p (marked stamped) (λ i. named i stamped)
          (some_project stamped) p q stamped h st o (λ i j k. k) (λ i k. k) (λ k. k) start) in
    mutate_profile_revert-without_owned q doc_id stamped
    ∙ ap
        (λ u.
          set_projects
            (set_experiences u
              (kept_highlights doc_id stamped 0 (strip_rows doc_id stamped q).experiences))
            (kept_projects doc_id stamped (strip_rows doc_id stamped q).projects))
        e
    ∙ λ i.
        set_projects
          (set_experiences p
            (GrewExps-none doc_id x stamped 0 p.experiences _ fresh.experiences es i))
          (GrewProjs-none doc_id x (some_project stamped) p.projects _ fresh.projects ps i)
