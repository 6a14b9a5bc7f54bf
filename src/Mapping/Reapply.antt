-- ===== src/Mapping/Reapply.antt =====
-- agents/nodes/doc_intake.py, `reapply_existing_mappings`: the confirmed mappings, applied again to
-- a profile that was just built.
use interview_coach.Base.{
  ℕ, Option, none, some, List, [], ◌∷◌, ◌++◌, Bool, true, false, if◌then◌else◌, ◌==◌, ◌≡◌, refl,
  keep, map, arith, ap, sym, ◌∙◌, ◌≢◌, append-nil, append_assoc,
}
use interview_coach.Profile.{Profile}
use interview_coach.Db.Models.{Extracted, MappingRow, DocumentMapping}
use interview_coach.Mapping.{
  Applied, applied, value_error, type_error, and_then, mutate_profile_apply,
}

-- `by_doc`, a dictionary in the order of insertion
abbrev pub Groups : Type 0
Groups = List (ℕ × List MappingRow)

-- `by_doc.setdefault(document_id, []).append(row)`
unfoldable pub add_row : ℕ → MappingRow → Groups → Groups
add_row doc_id row [] = (doc_id, row ∷ []) ∷ []
add_row doc_id row (g ∷ gs) =
    let rest = add_row doc_id row gs in
    if g.0 == doc_id then (g.0, g.1 ++ row ∷ []) ∷ gs else g ∷ rest

unfoldable pub group_rows : Groups → List DocumentMapping → Groups
group_rows groups [] = groups
group_rows groups (m ∷ ms) = group_rows (add_row m.document_id m.row groups) ms

-- The first payload of the rows that is not empty
unfoldable pub first_extracted : List MappingRow → Option Extracted
first_extracted [] = none
first_extracted (row ∷ rows) =
    let rest = first_extracted rows in elim row.extracted_json [ none ↦ rest | some x ↦ some x ]

-- One document: a `ValueError` drops its rows, another exception leaves the function.
abbrev pub or_keep : Profile → Applied Profile → Applied Profile
or_keep p (applied q) = applied q
or_keep p value_error = applied p
or_keep p type_error = type_error

unfoldable pub reapply_groups : Profile → Groups → Applied Profile
unfolding and_then mutate_profile_apply first_extracted
reapply_groups p [] = applied p
reapply_groups p (g ∷ gs) =
    and_then (or_keep p (mutate_profile_apply p g.0 g.1 (first_extracted g.1)))
      λ q. reapply_groups q gs

unfoldable pub reapply_existing_mappings : Profile → List DocumentMapping → Applied Profile
unfolding group_rows reapply_groups
reapply_existing_mappings p mapping_rows = reapply_groups p (group_rows [] mapping_rows)

-- The rows of a document in a dictionary of groups
abbrev pub rows_of : ℕ → Groups → List MappingRow
rows_of doc_id [] = []
rows_of doc_id (g ∷ gs) = let rest = rows_of doc_id gs in if g.0 == doc_id then g.1 else rest

abbrev pub listed_rows : ℕ → List DocumentMapping → List MappingRow
listed_rows doc_id ms = map (λ m. m.row) (keep (λ m. m.document_id == doc_id) ms)

rows_of-add_row :
    (doc_id other : ℕ) (row : MappingRow) (gs : Groups)
    → rows_of doc_id (add_row other row gs)
      ≡ (if other == doc_id then rows_of doc_id gs ++ row ∷ [] else rows_of doc_id gs)
unfolding add_row
rows_of-add_row doc_id other row [] = ground arith
rows_of-add_row doc_id other row (g ∷ gs) = ground (arith, rows_of-add_row doc_id other row gs)

regrouped :
    (b : Bool) (xs : List MappingRow) (m : DocumentMapping) (ms : List DocumentMapping)
    → (if b then xs ++ m.row ∷ [] else xs) ++ map (λ n. n.row) ms
      ≡ xs ++ map (λ n. n.row) (if b then m ∷ ms else ms)
regrouped true xs m ms = append_assoc xs (m.row ∷ []) (map (λ n. n.row) ms)
regrouped false xs m ms = refl

rows_of-group_rows :
    (doc_id : ℕ) (gs : Groups) (ms : List DocumentMapping)
    → rows_of doc_id (group_rows gs ms) ≡ rows_of doc_id gs ++ listed_rows doc_id ms
unfolding group_rows
rows_of-group_rows doc_id gs [] = sym (append-nil (rows_of doc_id gs))
rows_of-group_rows doc_id gs (m ∷ ms) =
    rows_of-group_rows doc_id (add_row m.document_id m.row gs) ms
    ∙ ap (λ xs. xs ++ listed_rows doc_id ms) (rows_of-add_row doc_id m.document_id m.row gs)
    ∙ regrouped (m.document_id == doc_id) (rows_of doc_id gs) m
        (keep (λ n. n.document_id == doc_id) ms)

never_value_error :
    (p : Profile) (r : Applied Profile) (gs : Groups)
    → ((q : Profile) → reapply_groups q gs ≢ value_error)
    → and_then (or_keep p r) (λ q. reapply_groups q gs) ≢ value_error
unfolding and_then
never_value_error p (applied q) gs ih = ih q
never_value_error p value_error gs ih = ih p
never_value_error p type_error gs ih = λ e. cc

reapply_groups-no_value_error : (p : Profile) (gs : Groups) → reapply_groups p gs ≢ value_error
unfolding reapply_groups
reapply_groups-no_value_error p [] = λ e. cc
reapply_groups-no_value_error p (g ∷ gs) =
    never_value_error p (mutate_profile_apply p g.0 g.1 (first_extracted g.1)) gs
      λ q. reapply_groups-no_value_error q gs

-- The dictionary that the rows are grouped in holds for every document exactly its rows, in the
-- order in which they were stored, and no profile and no rows make the function raise the
-- `ValueError` of an index that does not resolve.
pub reapply_existing_mappings-grouped :
    (p : Profile) (ms : List DocumentMapping)
    → ((doc_id : ℕ) → rows_of doc_id (group_rows [] ms) ≡ listed_rows doc_id ms)
      × (reapply_existing_mappings p ms ≢ value_error)
unfolding reapply_existing_mappings
reapply_existing_mappings-grouped p ms =
    (λ doc_id. rows_of-group_rows doc_id [] ms, reapply_groups-no_value_error p (group_rows [] ms))
