-- ===== src/Mapping/Revert.antt =====
-- agents/nodes/doc_intake.py, `_mutate_profile_revert`: what a deleted document takes with it.
use interview_coach.Base.{
  ℕ, suc, Bool, true, false, not, ◌&&◌, ◌||◌, Option, none, some, List, [], ◌∷◌, ◌++◌, keep, at,
  set_at, delete_at, modify_at, ltb, ◌==◌, if◌then◌else◌,
}
use interview_coach.Text.{Text, text_eq, member}
use interview_coach.Profile.{Highlight, Experience, ProjectItem, Profile}
use interview_coach.Db.Models.{
  Extracted, MappingKind, highlight, experience, project, unknown_kind, MappingRow,
}
use interview_coach.Mapping.Positions.{sorted_down}
use interview_coach.Mapping.{
  filled, resolve_extracted_payload, set_highlights, set_experiences, set_projects,
}

-- `==` of two texts that may be absent
abbrev pub same_description : Option Text → Option Text → Bool
same_description none none = true
same_description none (some t) = false
same_description (some s) none = false
same_description (some s) (some t) = text_eq s t

abbrev pub without : List Text → List Text → List Text
without ts xs = keep (λ t. not (member t ts)) xs

-- `[s for s in ids if s != doc_id_str]`
abbrev pub without_id : ℕ → List ℕ → List ℕ
without_id doc_id ids = keep (λ i. not (i == doc_id)) ids

-- `if description and hl.get("description") == description: hl["description"] = None`
abbrev pub clear_description : Option Text → Option Text → Option Text
clear_description new old = if filled new && same_description old new then none else old

unfoldable pub impoverish : ℕ → Extracted → Highlight → Highlight
impoverish doc_id x hl = record hl {
  source_document_ids = without_id doc_id hl.source_document_ids;
  tech_stack = without x.tech_stack hl.tech_stack;
  urls = without x.urls hl.urls;
  description = clear_description x.description hl.description;
}

-- An index that is missing or out of range leaves everything as it is (`continue`).
unfoldable pub at_item {ℓ κ} : {A : Type ℓ} {B : Type κ} → List A → Option ℕ → B → (ℕ → A → B) → B
at_item xs none otherwise k = otherwise
at_item xs (some i) otherwise k = elim (at i xs) [ none ↦ otherwise | some a ↦ k i a ]

unfoldable pub strip_highlight : ℕ → Extracted → Option ℕ → Option ℕ → Profile → Profile
unfolding at_item
strip_highlight doc_id x exp_idx hl_idx p = at_item p.experiences exp_idx p λ i exp.
    at_item exp.highlights hl_idx p λ j hl. set_experiences p (
      set_at i (set_highlights exp (set_at j (impoverish doc_id x hl) exp.highlights))
        p.experiences)

-- Pass 1: the enrichment of a highlight.
unfoldable pub strip_row : ℕ → MappingKind → MappingRow → Profile → Profile
unfolding strip_highlight
strip_row doc_id highlight row p =
    strip_highlight doc_id (resolve_extracted_payload row.extracted_json none) row.experience_idx
      row.highlight_idx p
strip_row doc_id experience row p = p
strip_row doc_id project row p = p
strip_row doc_id (unknown_kind _) row p = p

unfoldable pub strip_rows : ℕ → List MappingRow → Profile → Profile
strip_rows doc_id [] p = p
strip_rows doc_id (row ∷ rows) p = strip_rows doc_id rows (strip_row doc_id row.mapping_kind row p)

-- `src == [doc_id_str]`
abbrev pub only_by : ℕ → List ℕ → Bool
only_by doc_id [] = false
only_by doc_id (i ∷ []) = i == doc_id
only_by doc_id (i ∷ j ∷ is) = false

-- The positions, from `n` on, of the elements that pass a test.
abbrev pub positions {ℓ} : {A : Type ℓ} → (A → Bool) → ℕ → List A → List ℕ
positions p n [] = []
positions p n (x ∷ xs) = let rest = positions p (suc n) xs in if p x then n ∷ rest else rest

abbrev pub pair_with : ℕ → List ℕ → List (ℕ × ℕ)
pair_with i [] = []
pair_with i (j ∷ js) = (i, j) ∷ pair_with i js

-- The highlights that a row of kind `experience` marks, by their two indices.
unfoldable pub row_exp_drops : ℕ → Profile → MappingKind → MappingRow → List (ℕ × ℕ)
unfolding at_item
row_exp_drops doc_id p experience row =
    at_item p.experiences row.experience_idx [] λ i exp.
      pair_with i (positions (λ hl. only_by doc_id hl.source_document_ids) 0 exp.highlights)
row_exp_drops doc_id p highlight row = []
row_exp_drops doc_id p project row = []
row_exp_drops doc_id p (unknown_kind _) row = []

unfoldable pub exp_drops : ℕ → Profile → List MappingRow → List (ℕ × ℕ)
exp_drops doc_id p [] = []
exp_drops doc_id p (row ∷ rows) =
    row_exp_drops doc_id p row.mapping_kind row ++ exp_drops doc_id p rows

unfoldable pub row_proj_drops : ℕ → Profile → MappingKind → List ℕ
row_proj_drops doc_id p project = positions (λ q. only_by doc_id q.source_document_ids) 0 p.projects
row_proj_drops doc_id p highlight = []
row_proj_drops doc_id p experience = []
row_proj_drops doc_id p (unknown_kind _) = []

unfoldable pub proj_drops : ℕ → Profile → List MappingRow → List ℕ
proj_drops doc_id p [] = []
proj_drops doc_id p (row ∷ rows) =
    row_proj_drops doc_id p row.mapping_kind ++ proj_drops doc_id p rows

-- The order of the indices, and the order of the pairs of them
abbrev pub less : ℕ → ℕ → Bool
less = ltb

abbrev pub same : ℕ → ℕ → Bool
same a b = a == b

abbrev pub less_pair : ℕ × ℕ → ℕ × ℕ → Bool
less_pair a b = ltb a.0 b.0 || a.0 == b.0 && ltb a.1 b.1

abbrev pub same_pair : ℕ × ℕ → ℕ × ℕ → Bool
same_pair a b = a.0 == b.0 && a.1 == b.1

-- `del experiences[i]["highlights"][j]`
abbrev pub drop_highlight : ℕ → ℕ → List Experience → List Experience
drop_highlight i j exps = modify_at i (λ exp. set_highlights exp (delete_at j exp.highlights)) exps

unfoldable pub drop_highlights : List (ℕ × ℕ) → List Experience → List Experience
drop_highlights [] exps = exps
drop_highlights (d ∷ ds) exps = drop_highlights ds (drop_highlight d.0 d.1 exps)

unfoldable pub drop_projects : List ℕ → List ProjectItem → List ProjectItem
drop_projects [] projects = projects
drop_projects (d ∷ ds) projects = drop_projects ds (delete_at d projects)

-- Pass 2: the highlights and the projects whose only source is the document.
unfoldable pub drop_owned : ℕ → List MappingRow → Profile → Profile
unfolding sorted_down drop_highlights drop_projects exp_drops proj_drops
drop_owned doc_id rows p =
    set_projects
      (set_experiences p
        (drop_highlights (sorted_down less_pair same_pair (exp_drops doc_id p rows)) p.experiences))
      (drop_projects (sorted_down less same (proj_drops doc_id p rows)) p.projects)

unfoldable pub mutate_profile_revert : Profile → ℕ → List MappingRow → Profile
unfolding strip_rows drop_owned
mutate_profile_revert p doc_id rows = drop_owned doc_id rows (strip_rows doc_id rows p)
