-- ===== src/Prep/Loop/Ends.antt =====
-- agents/graph_nodes.py: the mapping loop comes to `job_analyzer`.
use interview_coach.Base.{
  ℕ, zero, suc, ◌<◌, ◌≡◌, ◌≢◌, refl, Bool, true, false, Option, none, some, List, [], ◌∷◌,
  if◌then◌else◌, arith,
}
use interview_coach.Text.{Text}
use interview_coach.Db.Models.{Document, Extracted, MappingRow, ProfileRow, Db}
use interview_coach.Db.Packet.{get_profile}
use interview_coach.Db.Documents.{is_project_doc, get_document}
use interview_coach.Prep.Mappings.{
  ProfileJson, map_value_error, map_type_error, profile_missing, no_documents, model_failed,
  Changed, changed, failed, apply_mapping,
}
use interview_coach.Prep.Loop.{
  Intake, IntakeResult, IntakeError, Intaken, intaken, intake_failed, Resume, suggested,
  to_job_analyzer, to_mapping, Settled, settled, raised, add_skip, pending_docs, answered,
  intake_profile, intake_document, run_intake, suggest, prepare_next,
  node_prepare_mapping_suggestion, after_apply, node_apply_or_skip_mapping, doc_of, Looped,
  at_job_analyzer, loop_raised, out_of_fuel, map_documents,
}
use interview_coach.Mapping.Indexed.{indexed}
use interview_coach.Prep.Mappings.Errors.{Mappable, apply_mapping-Mappable}
use interview_coach.Prep.Loop.Shrinks.{
  SameWaiting, SameWaiting-self, update_document_title-SameWaiting, waiting, skip-shrinks,
  apply-shrinks,
}

-- A user who confirms a mapping confirms at least one row, and its rows have their indices.
abbrev pub RowsGiven : (ℕ → ℕ → Resume) → Type 0
RowsGiven answers =
    (n i : ℕ)
    → (answers n i).apply ≡ true
    → ((answers n i).rows ≢ []) × (indexed (answers n i).rows ≡ true)

module _ {V : Type 0} (json : ProfileJson V) (intake : Intake V) where
  -- The intake leaves the same documents waiting.
  module _ (db : Db V) (user_id : ℕ) where
    abbrev Waits : Intaken V → Type 0
    Waits (intaken db' r) = SameWaiting db db' user_id
    Waits (intake_failed e) = Unit

    answered-Waits : (i : ℕ) (o : Option IntakeResult) → Waits (answered json intake db i user_id o)
    answered-Waits i none = tt
    answered-Waits i (some r) = update_document_title-SameWaiting db i user_id _

    intake_profile-Waits :
        (doc : Document) (o : Option (ProfileRow V))
        → Waits (intake_profile json intake db user_id doc o)
    intake_profile-Waits doc none = tt
    intake_profile-Waits doc (some row) = answered-Waits doc.id _

    if-Waits :
        (b : Bool) (r : Intaken V) (e : IntakeError)
        → Waits r
        → Waits (if b then r else intake_failed e)
    if-Waits true r e w = w
    if-Waits false r e w = tt

    intake_document-Waits : (o : Option Document) → Waits (intake_document json intake db user_id o)
    intake_document-Waits none = tt
    intake_document-Waits (some doc) =
        if-Waits (is_project_doc doc.kind) _ _ (intake_profile-Waits doc (get_profile db user_id))

    run_intake-Waits : (i : ℕ) → Waits (run_intake json intake db i user_id)
    unfolding run_intake
    run_intake-Waits i = intake_document-Waits (get_document db i user_id)

  -- One pass: fewer documents wait.
  module _ (db : Db V) (user_id : ℕ) (skiplist : List ℕ) (d : Document) (ds : List Document)
      (h : pending_docs db user_id skiplist ≡ d ∷ ds) where
    abbrev Fewer : Settled V → Type 0
    Fewer (settled db' skiplist' evs) = waiting db' user_id skiplist' < waiting db user_id skiplist
    Fewer (raised e) = ⊥

    after_apply-Fewer :
        (db' : Db V)
        → SameWaiting db db' user_id
        → (rows : List MappingRow) (extracted : Option Extracted) (title : Text) → rows ≢ []
        → (c : Changed V ℕ) → apply_mapping json db' d.id user_id rows extracted title ≡ c
        → Mappable c
        → Fewer (after_apply json intake db' d.id skiplist c)
    after_apply-Fewer db' s rows extracted title g (changed db'' n) e m =
        apply-shrinks json db db' db'' user_id skiplist d ds rows extracted title n h s g e
    after_apply-Fewer db' s rows extracted title g (failed map_value_error) e m =
        skip-shrinks db db' user_id skiplist d ds h s
    after_apply-Fewer db' s rows extracted title g (failed profile_missing) e m =
        skip-shrinks db db' user_id skiplist d ds h s
    after_apply-Fewer db' s rows extracted title g (failed map_type_error) e m = absurd m
    after_apply-Fewer db' s rows extracted title g (failed no_documents) e m = absurd m
    after_apply-Fewer db' s rows extracted title g (failed model_failed) e m = absurd m

    decided-Fewer :
        (db' : Db V) (b : Bool) (r t : Settled V)
        → (b ≡ true → Fewer r)
        → Fewer t
        → Fewer (if b then r else t)
    decided-Fewer db' true r t f g = f refl
    decided-Fewer db' false r t f g = g

    apply_or_skip-Fewer :
        (db' : Db V) (x : IntakeResult) (resume : Resume)
        → SameWaiting db db' user_id
        → (resume.apply ≡ true → (resume.rows ≢ []) × (indexed resume.rows ≡ true))
        → Fewer
            (node_apply_or_skip_mapping json intake db' user_id skiplist (suggested d.id x) resume)
    unfolding node_apply_or_skip_mapping
    apply_or_skip-Fewer db' x resume s g =
        decided-Fewer db' resume.apply _ _
          (λ e.
            after_apply-Fewer db' s resume.rows _ _ (g e).0 _ refl
              (apply_mapping-Mappable json db' d.id user_id resume.rows _ _ (g e).1))
          (skip-shrinks db db' user_id skiplist d ds h s)

  module _ (answers : ℕ → ℕ → Resume) (user_id : ℕ) (given : RowsGiven answers) where
    -- The loop comes to `job_analyzer`, and no document waits.
    abbrev pub Ended : Looped json intake → Type 0
    Ended (at_job_analyzer db' skiplist') = pending_docs db' user_id skiplist' ≡ []
    Ended (loop_raised e) = ⊥
    Ended out_of_fuel = ⊥

    -- Fuel for the rest of the loop is enough.
    abbrev Enough : ℕ → Type 0
    Enough n =
        (db : Db V) (skiplist : List ℕ)
        → waiting db user_id skiplist < n
        → Ended (map_documents json intake answers user_id n db skiplist)

    module _ (n : ℕ) (rest : Enough n) (db : Db V) (skiplist : List ℕ) (d : Document)
        (ds : List Document) (h : pending_docs db user_id skiplist ≡ d ∷ ds)
        (fuel : waiting db user_id skiplist < suc n) where
      settled-Ended :
          (r : Settled V)
          → Fewer db user_id skiplist d ds h r
          → Ended (elim r [
            | settled db' skiplist' evs ↦ map_documents json intake answers user_id n db' skiplist'
            | raised e ↦ loop_raised e
          ])
      settled-Ended (settled db' skiplist' evs) f = rest db' skiplist' (omega (arith, f, fuel))
      settled-Ended (raised e) f = f

      suggest-Ended :
          (r : Intaken V)
          → Waits db user_id r
          → Ended (elim (suggest json intake db d.id r).0 [
            | to_job_analyzer ↦ at_job_analyzer db skiplist
            | to_mapping db' p ↦
                elim (node_apply_or_skip_mapping json intake db' user_id skiplist p
                  (answers n (doc_of json intake p))) [
                    | settled db'' skiplist' evs ↦
                        map_documents json intake answers user_id n db'' skiplist'
                    | raised e ↦ loop_raised e
                  ]
          ])
      unfolding node_apply_or_skip_mapping
      suggest-Ended (intaken db' x) w =
          settled-Ended _
            (apply_or_skip-Fewer db user_id skiplist d ds h db' x (answers n d.id) w (given n d.id))
      suggest-Ended (intake_failed e) w =
          settled-Ended (settled db (add_skip d.id skiplist) [])
            (skip-shrinks db db user_id skiplist d ds h (SameWaiting-self db user_id))

    pass-Ended :
        (n : ℕ) (db : Db V) (skiplist : List ℕ)
        → Enough n
        → waiting db user_id skiplist < suc n
        → (docs : List Document) → pending_docs db user_id skiplist ≡ docs
        → Ended (elim (prepare_next json intake db user_id docs).0 [
          | to_job_analyzer ↦ at_job_analyzer db skiplist
          | to_mapping db' p ↦
              elim (node_apply_or_skip_mapping json intake db' user_id skiplist p
                (answers n (doc_of json intake p))) [
                  | settled db'' skiplist' evs ↦
                      map_documents json intake answers user_id n db'' skiplist'
                  | raised e ↦ loop_raised e
                ]
        ])
    pass-Ended n db skiplist rest fuel [] h = h
    pass-Ended n db skiplist rest fuel (d ∷ ds) h =
        suggest-Ended n rest db skiplist d ds h fuel _ (run_intake-Waits db user_id d.id)

    -- If a user who confirms a mapping confirms at least one row, and the rows have the indices that
    -- their kinds need, and the fuel exceeds the number of project documents that are neither mapped
    -- nor skipped, then the mapping loop comes to `job_analyzer`, without an exception, and no
    -- project document is left that is neither mapped nor skipped.
    pub map_documents-Ended :
        (n : ℕ) (db : Db V) (skiplist : List ℕ)
        → waiting db user_id skiplist < n
        → Ended (map_documents json intake answers user_id n db skiplist)
    unfolding map_documents node_prepare_mapping_suggestion
    map_documents-Ended zero db skiplist fuel = omega (arith, fuel)
    map_documents-Ended (suc n) db skiplist fuel =
        pass-Ended n db skiplist (λ db' s f. map_documents-Ended n db' s f) fuel
          (pending_docs db user_id skiplist) refl
