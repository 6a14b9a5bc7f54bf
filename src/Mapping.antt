-- ===== src/Mapping.antt =====
-- agents/nodes/doc_intake.py: what a confirmed mapping of a project document adds to the profile.
-- A row's indices are not negative; a profile that was validated once stays valid, so that
-- `model_validate` of the changed dictionary has no part here.
pub mod Positions
pub mod Revert
pub mod Deletion
pub mod Reapply
pub mod Drops
pub mod Owned
pub mod Enrich
pub mod Growth
pub mod Indexed
pub mod RoundTrip
use interview_coach.Base.{
  ℕ, Bool, true, false, not, ◌&&◌, Option, none, some, List, [], ◌∷◌, ◌++◌, any, at, set_at, ◌==◌,
  if◌then◌else◌,
}
use interview_coach.Text.{Text, codes, member}
use interview_coach.Profile.{
  Highlight, Experience, ProjectItem, Profile, ProjectSource, from_project_doc,
}
use interview_coach.Db.Models.{
  Extracted, MappingKind, highlight, experience, project, unknown_kind, MappingRow,
}

-- What a change of the profile ends with: the new value, or an exception. An index that is `None`
-- is a `TypeError`, which no handler of this file catches.
pub data Applied {ℓ} (A : Type ℓ) : Type ℓ where
  applied : A → Applied A
  value_error type_error : Applied A

module _ {ℓ κ} {A : Type ℓ} {B : Type κ} where
  unfoldable pub and_then : Applied A → (A → Applied B) → Applied B
  and_then (applied a) k = k a
  and_then value_error k = value_error
  and_then type_error k = type_error

  -- `xs[i]`, with `IndexError` turned into `ValueError`
  unfoldable pub item : List A → Option ℕ → (ℕ → A → Applied B) → Applied B
  item xs none k = type_error
  item xs (some i) k = elim (at i xs) [ none ↦ value_error | some a ↦ k i a ]

-- `bool(s)` of a text that may be absent
abbrev pub filled : Option Text → Bool
filled none = false
filled (some []) = false
filled (some (c ∷ s)) = true

abbrev pub blank : Text → Bool
blank [] = true
blank (c ∷ s) = false

-- `s or default`
abbrev pub or_else : Option Text → Text → Text
or_else none default = default
or_else (some []) default = default
or_else (some (c ∷ s)) default = c ∷ s

-- The extracted payload of an empty dictionary
abbrev pub no_payload : Extracted
no_payload = record { tech_stack = []; description = none; urls = [] }

unfoldable pub resolve_extracted_payload : Option Extracted → Option Extracted → Extracted
resolve_extracted_payload (some x) fallback = x
resolve_extracted_payload none (some x) = x
resolve_extracted_payload none none = no_payload

-- `for t in ts: if t and t not in existing: existing.append(t)`
unfoldable pub add_missing : List Text → List Text → List Text
add_missing existing [] = existing
add_missing existing (t ∷ ts) =
    add_missing (if not (blank t) && not (member t existing) then existing ++ t ∷ [] else existing)
      ts

-- `if doc_id_str not in src_ids: src_ids.append(doc_id_str)`
abbrev pub add_id : ℕ → List ℕ → List ℕ
add_id doc_id ids = if any (λ i. i == doc_id) ids then ids else ids ++ doc_id ∷ []

-- `if description and not hl.get("description"): hl["description"] = description`
abbrev pub fill_description : Option Text → Option Text → Option Text
fill_description new old = if filled new && not (filled old) then new else old

unfoldable pub enrich : ℕ → Extracted → Highlight → Highlight
unfolding add_missing
enrich doc_id x hl = record hl {
  source_document_ids = add_id doc_id hl.source_document_ids;
  tech_stack = add_missing hl.tech_stack x.tech_stack;
  urls = add_missing hl.urls x.urls;
  description = fill_description x.description hl.description;
}

abbrev pub set_highlights : Experience → List Highlight → Experience
set_highlights exp hls = record exp { highlights = hls }

abbrev pub set_experiences : Profile → List Experience → Profile
set_experiences p exps = record p { experiences = exps }

abbrev pub set_projects : Profile → List ProjectItem → Profile
set_projects p projects = record p { projects = projects }

unfoldable pub doc_highlight : ℕ → Extracted → Highlight
doc_highlight doc_id x = record {
  text = or_else x.description (codes "Project work");
  tech_stack = x.tech_stack;
  description = x.description;
  urls = x.urls;
  source_document_ids = doc_id ∷ [];
}

unfoldable pub doc_project : ℕ → Extracted → ProjectItem
doc_project doc_id x = record {
  name = [];
  description = or_else x.description [];
  tech = x.tech_stack;
  role = none;
  urls = x.urls;
  key_features = [];
  architecture = none;
  source = from_project_doc;
  source_document_ids = doc_id ∷ [];
}

-- One row of a mapping, with the payload that it resolves to.
unfoldable pub apply_row : ℕ → MappingKind → MappingRow → Extracted → Profile → Applied Profile
unfolding item
apply_row doc_id highlight row x p = item p.experiences row.experience_idx λ i exp.
    item exp.highlights row.highlight_idx λ j hl. applied (
      set_experiences p (
        set_at i (set_highlights exp (set_at j (enrich doc_id x hl) exp.highlights)) p.experiences))
apply_row doc_id experience row x p = item p.experiences row.experience_idx λ i exp. applied (
    set_experiences p
      (set_at i (set_highlights exp (exp.highlights ++ doc_highlight doc_id x ∷ [])) p.experiences))
apply_row doc_id project row x p =
    applied (set_projects p (p.projects ++ doc_project doc_id x ∷ []))
apply_row doc_id (unknown_kind _) row x p = value_error

unfoldable pub mutate_profile_apply :
    Profile → ℕ → List MappingRow → Option Extracted → Applied Profile
unfolding and_then
mutate_profile_apply p doc_id [] doc_extracted = applied p
mutate_profile_apply p doc_id (row ∷ rows) doc_extracted =
    and_then
      (apply_row doc_id row.mapping_kind row
        (resolve_extracted_payload row.extracted_json doc_extracted) p)
      λ q. mutate_profile_apply q doc_id rows doc_extracted
