-- ===== src/Mapping/Indexed.antt =====
-- agents/nodes/doc_intake.py, `_mutate_profile_apply`: rows that have their indices raise no
-- `TypeError`.
use interview_coach.Base.{
  ℕ, ◌≡◌, ◌≢◌, refl, Bool, true, ◌&&◌, Option, none, some, List, [], ◌∷◌, map, at, arith,
}
use interview_coach.Profile.{Profile}
use interview_coach.Db.Models.{
  Extracted, MappingKind, highlight, experience, project, unknown_kind, MappingRow,
}
use interview_coach.Db.Documents.{present}
use interview_coach.Mapping.{
  Applied, applied, value_error, type_error, and_then, item, apply_row, mutate_profile_apply,
}
use interview_coach.Mapping.RoundTrip.{stamp}

-- The row has the indices that its kind needs.
abbrev pub has_indices : MappingKind → MappingRow → Bool
has_indices highlight row = present row.experience_idx && present row.highlight_idx
has_indices experience row = present row.experience_idx
has_indices project row = true
has_indices (unknown_kind _) row = true

abbrev pub indexed : List MappingRow → Bool
indexed [] = true
indexed (row ∷ rows) = has_indices row.mapping_kind row && indexed rows

has_indices-stamp :
    (x : Option Extracted) (kind : MappingKind) (row : MappingRow)
    → has_indices kind (stamp x row) ≡ has_indices kind row
has_indices-stamp x highlight row = refl
has_indices-stamp x experience row = refl
has_indices-stamp x project row = refl
has_indices-stamp x (unknown_kind _) row = refl

indexed-stamp :
    (x : Option Extracted) (rows : List MappingRow)
    → indexed rows ≡ true
    → indexed (map (stamp x) rows) ≡ true
indexed-stamp x [] h = h
indexed-stamp x (row ∷ rows) h =
    ground (arith, h, has_indices-stamp x row.mapping_kind row, indexed-stamp x rows)

module _ {A B : Type 0} where
  found_item :
      (k : ℕ → A → Applied B) (i : ℕ) (o : Option A)
      → ((j : ℕ) (a : A) → k j a ≢ type_error)
      → (elim o [ none ↦ value_error | some a ↦ k i a ]) ≢ type_error
  found_item k i none f = λ e. cc
  found_item k i (some a) f = f i a

  item-indexed :
      (xs : List A) (idx : Option ℕ) (k : ℕ → A → Applied B)
      → present idx ≡ true
      → ((j : ℕ) (a : A) → k j a ≢ type_error)
      → item xs idx k ≢ type_error
  unfolding item
  item-indexed xs none k h f = λ e. cc
  item-indexed xs (some i) k h f = found_item k i (at i xs) f

  and_then-no_type_error :
      (m : Applied A) (k : A → Applied B)
      → m ≢ type_error
      → ((a : A) → k a ≢ type_error)
      → and_then m k ≢ type_error
  unfolding and_then
  and_then-no_type_error (applied a) k n f = f a
  and_then-no_type_error value_error k n f = λ e. cc
  and_then-no_type_error type_error k n f = λ e. n refl

applied_no_error : (p : Profile) → applied p ≢ type_error
applied_no_error p e = cc

apply_row-indexed :
    (doc_id : ℕ) (kind : MappingKind) (row : MappingRow) (x : Extracted) (p : Profile)
    → has_indices kind row ≡ true
    → apply_row doc_id kind row x p ≢ type_error
unfolding apply_row
apply_row-indexed doc_id highlight row x p h =
    item-indexed p.experiences row.experience_idx _ (ground (arith, h)) λ i exp.
      item-indexed exp.highlights row.highlight_idx _ (ground (arith, h)) λ j hl. applied_no_error _
apply_row-indexed doc_id experience row x p h =
    item-indexed p.experiences row.experience_idx _ h λ i exp. applied_no_error _
apply_row-indexed doc_id project row x p h = applied_no_error _
apply_row-indexed doc_id (unknown_kind _) row x p h = λ e. cc

mutate_profile_apply-indexed :
    (p : Profile) (doc_id : ℕ) (rows : List MappingRow) (x : Option Extracted)
    → indexed rows ≡ true
    → mutate_profile_apply p doc_id rows x ≢ type_error
unfolding mutate_profile_apply
mutate_profile_apply-indexed p doc_id [] x h = applied_no_error p
mutate_profile_apply-indexed p doc_id (row ∷ rows) x h =
    and_then-no_type_error _ _
      (apply_row-indexed doc_id row.mapping_kind row _ p (ground (arith, h)))
      λ q. mutate_profile_apply-indexed q doc_id rows x (ground (arith, h))

-- The rows as `apply_mapping` stamps them
pub stamped-indexed :
    (p : Profile) (doc_id : ℕ) (rows : List MappingRow) (x : Option Extracted)
    → indexed rows ≡ true
    → mutate_profile_apply p doc_id (map (stamp x) rows) x ≢ type_error
stamped-indexed p doc_id rows x h =
    mutate_profile_apply-indexed p doc_id (map (stamp x) rows) x (indexed-stamp x rows h)
