-- ===== src/Mapping/Owned.antt =====
-- agents/nodes/doc_intake.py, `_mutate_profile_revert`: the highlights and projects that belong to
-- the document alone.
use interview_coach.Base.{
  ℕ, suc, ◌+◌, ◌≡◌, refl, sym, ap, ◌∙◌, Bool, true, false, not, ◌&&◌, ◌||◌, List, [], ◌∷◌, ◌++◌,
  Option, none, some, at, keep, ◌==◌, if◌then◌else◌, ==_iff, arith,
}
use interview_coach.Profile.{Highlight, Experience, ProjectItem, Profile}
use interview_coach.Db.Models.{
  MappingKind, highlight, experience, project, unknown_kind, MappingRow,
}
use interview_coach.Mapping.{set_highlights, set_experiences, set_projects}
use interview_coach.Mapping.Positions.{
  Order, listed, sorted_down, listed-sorted_down, descending-sorted_down,
}
use interview_coach.Mapping.Revert.{
  less, same, less_pair, same_pair, positions, pair_with, only_by, at_item, row_exp_drops,
  exp_drops, row_proj_drops, proj_drops, drop_highlights, drop_projects, drop_owned, strip_rows,
  mutate_profile_revert,
}
use interview_coach.Mapping.Deletion.{
  unmarked, unmarked-same, unmarked-none, unmarked-positions, delete_each, delete_each-unmarked,
}
use interview_coach.Mapping.Drops.{
  unmarked_highlights, unmarked_highlights-same, drop_highlights-unmarked,
}

abbrev pub owned_highlight : ℕ → Highlight → Bool
owned_highlight doc_id hl = only_by doc_id hl.source_document_ids

abbrev pub owned_project : ℕ → ProjectItem → Bool
owned_project doc_id q = only_by doc_id q.source_document_ids

-- Does a row of kind `experience` name the experience `i`?
abbrev pub names : ℕ → MappingKind → Option ℕ → Bool
names i experience (some k) = i == k
names i experience none = false
names i highlight _ = false
names i project _ = false
names i (unknown_kind _) _ = false

abbrev pub named : ℕ → List MappingRow → Bool
named i [] = false
named i (row ∷ rows) = names i row.mapping_kind row.experience_idx || named i rows

abbrev pub is_project : MappingKind → Bool
is_project project = true
is_project highlight = false
is_project experience = false
is_project (unknown_kind _) = false

abbrev pub some_project : List MappingRow → Bool
some_project [] = false
some_project (row ∷ rows) = is_project row.mapping_kind || some_project rows

-- What the second pass means: the named experiences lose the highlights, and the profile loses the
-- projects, whose only source is the document.
abbrev pub kept_highlights : ℕ → List MappingRow → ℕ → List Experience → List Experience
kept_highlights doc_id rows n [] = []
kept_highlights doc_id rows n (e ∷ es) =
    (if named n rows
      then set_highlights e (keep (λ hl. not (owned_highlight doc_id hl)) e.highlights)
      else e)
    ∷ kept_highlights doc_id rows (suc n) es

abbrev pub kept_projects : ℕ → List MappingRow → List ProjectItem → List ProjectItem
kept_projects doc_id rows projects =
    if some_project rows then keep (λ q. not (owned_project doc_id q)) projects else projects

abbrev pub without_owned : ℕ → List MappingRow → Profile → Profile
without_owned doc_id rows p =
    set_projects (set_experiences p (kept_highlights doc_id rows 0 p.experiences))
      (kept_projects doc_id rows p.projects)

index_order : Order less same
index_order = record {
  total = λ x y h k. ground (arith, h, k);
  trans = λ x y z h k. ground (arith, h, k);
  same_left = λ x y z h. ground (arith, h);
}

pair_order : Order less_pair same_pair
pair_order = record {
  total = λ x y h k. ground (arith, h, k);
  trans = λ x y z h k. ground (arith, h, k);
  same_left = λ x y z h. ground (arith, h);
}

module _ {A : Type 0} (lt eq : A → A → Bool) where
  listed-append :
      (z : A) (xs ys : List A) → listed lt eq z (xs ++ ys) ≡ listed lt eq z xs || listed lt eq z ys
  listed-append z [] ys = refl
  listed-append z (x ∷ xs) ys = ground (arith, listed-append z xs ys)

listed-pair_with :
    (i j k : ℕ) (js : List ℕ)
    → listed less_pair same_pair (i, j) (pair_with k js) ≡ i == k && listed less same j js
listed-pair_with i j k [] = ground arith
listed-pair_with i j k (l ∷ js) = ground (arith, listed-pair_with i j k js)

-- The positions of the owned highlights of an experience
abbrev owned_in : ℕ → Option Experience → List ℕ
owned_in doc_id none = []
owned_in doc_id (some e) = positions (owned_highlight doc_id) 0 e.highlights

abbrev owned_at : ℕ → List Experience → ℕ → ℕ → Bool
owned_at doc_id es i j = listed less same j (owned_in doc_id (at i es))

module _ (doc_id : ℕ) (p : Profile) where
  named_one :
      (i j k : ℕ) (b : Bool)
      → (i == k) ≡ b
      → (b && owned_at doc_id p.experiences k j) ≡ (b && owned_at doc_id p.experiences i j)
  named_one i j k true h = ap (λ m. owned_at doc_id p.experiences m j) (sym ((==_iff i k).0 h))
  named_one i j k false h = refl

  row_projects :
      (kind : MappingKind)
      → row_proj_drops doc_id p kind
        ≡ (if is_project kind then positions (owned_project doc_id) 0 p.projects else [])
  unfolding row_proj_drops
  row_projects project = refl
  row_projects highlight = refl
  row_projects experience = refl
  row_projects (unknown_kind _) = refl

  marked_pairs :
      (k : ℕ) (o : Option Experience)
      → (elim o [
        | none ↦ []
        | some e ↦ pair_with k (positions (owned_highlight doc_id) 0 e.highlights)
      ])
        ≡ pair_with k (owned_in doc_id o)
  marked_pairs k none = refl
  marked_pairs k (some e) = refl

  listed-named :
      (i j : ℕ) (idx : Option ℕ)
      → listed less_pair same_pair
          (i, j)
          (at_item p.experiences idx []
            λ k e. pair_with k (positions (owned_highlight doc_id) 0 e.highlights))
        ≡ names i experience idx && owned_at doc_id p.experiences i j
  unfolding at_item
  listed-named i j none = refl
  listed-named i j (some k) =
      ap (listed less_pair same_pair (i, j)) (marked_pairs k (at k p.experiences))
      ∙ listed-pair_with i j k (owned_in doc_id (at k p.experiences))
      ∙ named_one i j k (i == k) refl

  listed-row_exp_drops :
      (i j : ℕ) (kind : MappingKind) (row : MappingRow)
      → listed less_pair same_pair (i, j) (row_exp_drops doc_id p kind row)
        ≡ names i kind row.experience_idx && owned_at doc_id p.experiences i j
  unfolding row_exp_drops
  listed-row_exp_drops i j experience row = listed-named i j row.experience_idx
  listed-row_exp_drops i j highlight row = refl
  listed-row_exp_drops i j project row = refl
  listed-row_exp_drops i j (unknown_kind _) row = refl

  listed-exp_drops :
      (i j : ℕ) (rows : List MappingRow)
      → listed less_pair same_pair (i, j) (exp_drops doc_id p rows)
        ≡ named i rows && owned_at doc_id p.experiences i j
  unfolding exp_drops
  listed-exp_drops i j [] = refl
  listed-exp_drops i j (row ∷ rows) = ground (
    arith,
    listed-append less_pair same_pair (i, j) (row_exp_drops doc_id p row.mapping_kind row)
        (exp_drops doc_id p rows),
    listed-row_exp_drops i j row.mapping_kind row,
    listed-exp_drops i j rows,
  )

  listed-proj_drops :
      (j : ℕ) (rows : List MappingRow)
      → listed less same j (proj_drops doc_id p rows)
        ≡ some_project rows && listed less same j (positions (owned_project doc_id) 0 p.projects)
  unfolding proj_drops row_proj_drops
  listed-proj_drops j [] = refl
  listed-proj_drops j (row ∷ rows) = ground (
    arith,
    listed-append less same j (row_proj_drops doc_id p row.mapping_kind) (proj_drops doc_id p rows),
    ap (λ xs. listed less same j xs) (row_projects row.mapping_kind),
    listed-proj_drops j rows,
  )

-- Highlights that are marked as named and owned, one experience after the other
unmarked_highlights-kept :
    (doc_id : ℕ) (rows : List MappingRow) (n : ℕ) (owned : ℕ → ℕ → Bool) (es : List Experience)
    → ((k j : ℕ) → owned (n + k) j ≡ owned_at doc_id es k j)
    → unmarked_highlights (λ i j. named i rows && owned i j) n es ≡ kept_highlights doc_id rows n es
unmarked_highlights-kept doc_id rows n owned [] h = refl
unmarked_highlights-kept doc_id rows n owned (e ∷ es) h = λ i.
    kept_one e (named n rows) (owned n) (λ j. ap (λ m. owned m j) (omega arith) ∙ h 0 j) i
    ∷ unmarked_highlights-kept doc_id rows (suc n) owned es
        (λ k j. ap (λ m. owned m j) (omega arith) ∙ h (suc k) j) i
  where
    kept_one :
        (x : Experience) (b : Bool) (q : ℕ → Bool)
        → ((j : ℕ) → q j ≡ listed less same j (positions (owned_highlight doc_id) 0 x.highlights))
        → set_highlights x (unmarked (λ j. b && q j) 0 x.highlights) ≡ (
            if b
            then set_highlights x (keep (λ hl. not (owned_highlight doc_id hl)) x.highlights)
            else x)
    kept_one x true q g = ap (set_highlights x) (
        unmarked-same q _ 0 x.highlights (λ j l. g j)
        ∙ unmarked-positions (owned_highlight doc_id) 0 x.highlights)
    kept_one x false q g = ap (set_highlights x) (unmarked-none _ 0 x.highlights (λ j l. refl))

-- Projects that are marked as owned
module _ (doc_id : ℕ) (p : Profile) (rows : List MappingRow) where
  drop_projects-delete_each :
      (ds : List ℕ) (qs : List ProjectItem) → drop_projects ds qs ≡ delete_each ds qs
  unfolding drop_projects
  drop_projects-delete_each [] qs = refl
  drop_projects-delete_each (d ∷ ds) qs = drop_projects-delete_each ds _

  unmarked-kept :
      (b : Bool)
      → unmarked
          (λ j. b && listed less same j (positions (owned_project doc_id) 0 p.projects))
          0
          p.projects
        ≡ (if b then keep (λ q. not (owned_project doc_id q)) p.projects else p.projects)
  unmarked-kept true = unmarked-positions (owned_project doc_id) 0 p.projects
  unmarked-kept false = unmarked-none _ 0 p.projects (λ j l. refl)

  dropped_projects :
      drop_projects (sorted_down less same (proj_drops doc_id p rows)) p.projects
      ≡ kept_projects doc_id rows p.projects
  dropped_projects =
      drop_projects-delete_each _ p.projects
      ∙ delete_each-unmarked _ p.projects
          (descending-sorted_down less same index_order (proj_drops doc_id p rows))
      ∙ unmarked-same _ _ 0 p.projects (λ j l.
        listed-sorted_down less same index_order j (proj_drops doc_id p rows)
        ∙ listed-proj_drops doc_id p j rows)
      ∙ unmarked-kept (some_project rows)

  dropped_highlights :
      drop_highlights (sorted_down less_pair same_pair (exp_drops doc_id p rows)) p.experiences
      ≡ kept_highlights doc_id rows 0 p.experiences
  dropped_highlights =
      drop_highlights-unmarked _ p.experiences
        (descending-sorted_down less_pair same_pair pair_order (exp_drops doc_id p rows))
      ∙ unmarked_highlights-same _ _ 0 p.experiences (λ i j l.
        listed-sorted_down less_pair same_pair pair_order (i, j) (exp_drops doc_id p rows)
        ∙ listed-exp_drops doc_id p i j rows)
      ∙ unmarked_highlights-kept doc_id rows 0 (owned_at doc_id p.experiences) p.experiences
          (λ k j. ap (λ m. owned_at doc_id p.experiences m j) (omega arith))

  pub drop_owned-without_owned : drop_owned doc_id rows p ≡ without_owned doc_id rows p
  unfolding drop_owned
  drop_owned-without_owned =
      λ i. set_projects (set_experiences p (dropped_highlights i)) (dropped_projects i)

-- After the enrichments were taken off the highlights, the deletion of marked positions, from the
-- highest down, leaves in every experience that a row of kind `experience` names the highlights,
-- and, if there is a row of kind `project`, the projects, whose sources are not the document alone,
-- in their order, and leaves everything else as it is.
pub mutate_profile_revert-without_owned :
    (p : Profile) (doc_id : ℕ) (rows : List MappingRow)
    → mutate_profile_revert p doc_id rows ≡ without_owned doc_id rows (strip_rows doc_id rows p)
unfolding mutate_profile_revert
mutate_profile_revert-without_owned p doc_id rows =
    drop_owned-without_owned doc_id (strip_rows doc_id rows p) rows
