-- ===== src/Prep/Mappings/Errors.antt =====
-- agents/nodes/doc_intake.py: the exceptions that `apply_mapping` lets out.
use interview_coach.Base.{ℕ, ◌≡◌, ◌≢◌, refl, true, Option, none, some, List}
use interview_coach.Text.{Text}
use interview_coach.Profile.{Profile}
use interview_coach.Db.Models.{Extracted, MappingRow, ProfileRow, Db}
use interview_coach.Db.Packet.{get_profile}
use interview_coach.Mapping.{Applied, applied, value_error, type_error}
use interview_coach.Mapping.Indexed.{indexed, stamped-indexed}
use interview_coach.Prep.Mappings.{
  ProfileJson, MapError, map_value_error, map_type_error, profile_missing, no_documents,
  model_failed, Changed, changed, failed, apply_mapping, map_onto, stored_if, store_mapping,
}

-- Those that the mapping loop catches
abbrev Caught : MapError → Type 0
Caught map_value_error = Unit
Caught profile_missing = Unit
Caught map_type_error = ⊥
Caught no_documents = ⊥
Caught model_failed = ⊥

module _ {V : Type 0} where
  abbrev pub Mappable : Changed V ℕ → Type 0
  Mappable (changed db n) = Unit
  Mappable (failed e) = Caught e

module _ {V : Type 0} (json : ProfileJson V) where
  stored_if-Mappable :
      (db : Db V) (document_id user_id : ℕ) (rows : List MappingRow) (title : Text)
      (r : Applied Profile)
      → r ≢ type_error
      → Mappable (stored_if json db document_id user_id rows title r)
  unfolding store_mapping
  stored_if-Mappable db document_id user_id rows title (applied q) n = tt
  stored_if-Mappable db document_id user_id rows title value_error n = tt
  stored_if-Mappable db document_id user_id rows title type_error n = absurd (n refl)

  module _ (db : Db V) (document_id user_id : ℕ) (rows : List MappingRow)
      (extracted : Option Extracted) (title : Text) (given : indexed rows ≡ true) where
    map_onto-Mappable :
        (o : Option Profile)
        → Mappable (map_onto json db document_id user_id rows extracted title o)
    map_onto-Mappable none = tt
    map_onto-Mappable (some p) =
        stored_if-Mappable db document_id user_id _ title _
          (stamped-indexed p document_id rows extracted given)

    mapped_if-Mappable :
        (o : Option (ProfileRow V))
        → Mappable (elim o [
          | none ↦ failed profile_missing
          | some row ↦
              map_onto json db document_id user_id rows extracted title
                (json.model_validate row.profile_json)
        ])
    mapped_if-Mappable none = tt
    mapped_if-Mappable (some row) = map_onto-Mappable _

    -- Rows with their indices
    pub apply_mapping-Mappable :
        Mappable (apply_mapping json db document_id user_id rows extracted title)
    unfolding apply_mapping
    apply_mapping-Mappable = mapped_if-Mappable (get_profile db user_id)
