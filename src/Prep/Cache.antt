-- ===== src/Prep/Cache.antt =====
-- agents/prep_cache.py: reuse a cached output of a preparation node, or compute it again.
pub mod Sets
use interview_coach.Base.{
  ℕ, Bool, true, false, Option, none, some, List, [], ◌∷◌, ltb, ◌==◌, if◌then◌else◌,
}
use interview_coach.Text.{Text, codes, text_eq}

-- `SkipReason` and `RunReason`
pub data CacheReason : Type 0 where
  cached already_analyzed no_unmapped_project_docs no_repos_selected : CacheReason
  missing stale forced degraded : CacheReason

pub record SkipVerdict : Type 0 where
  pub skip : Bool
  pub reason : CacheReason

abbrev pub hit : CacheReason → SkipVerdict
hit reason = record { skip = true; reason = reason }

abbrev pub miss : CacheReason → SkipVerdict
miss reason = record { skip = false; reason = reason }

-- `sorted({…})`: one element into a sorted list without repetition.
unfoldable pub insert_set : ℕ → List ℕ → List ℕ
insert_set x [] = x ∷ []
insert_set x (y ∷ ys) =
    let rest = insert_set x ys in
    if ltb x y then x ∷ y ∷ ys else if x == y then y ∷ ys else y ∷ rest

unfoldable pub normalize : List ℕ → List ℕ
normalize [] = []
normalize (x ∷ xs) = insert_set x (normalize xs)

unfoldable pub same_ids : List ℕ → List ℕ → Bool
same_ids [] [] = true
same_ids [] (y ∷ ys) = false
same_ids (x ∷ xs) [] = false
same_ids (x ∷ xs) (y ∷ ys) = let rest = same_ids xs ys in if x == y then rest else false

abbrev pub ids_or_empty : Option (List ℕ) → List ℕ
ids_or_empty none = []
ids_or_empty (some ids) = ids

unfoldable pub decide_profile_cache : Bool → Option (List ℕ) → List ℕ → SkipVerdict
unfolding normalize same_ids
decide_profile_cache profile_exists stored_doc_ids current_doc_ids =
    if profile_exists
    then (if same_ids (normalize (ids_or_empty stored_doc_ids)) (normalize current_doc_ids)
        then hit cached
        else miss stale)
    else miss missing

-- `parsed_json` as Python sees it in a test: absent, empty, or with members.
pub data Parsed : Type 0 where
  absent empty filled : Parsed

unfoldable pub decide_job_cache : Parsed → SkipVerdict
decide_job_cache filled = hit already_analyzed
decide_job_cache empty = miss missing
decide_job_cache absent = miss missing

-- A company snapshot by its `_degraded` member: no snapshot, one without the member, or one with it.
pub data Snapshot : Type 0 where
  no_snapshot whole : Snapshot
  degraded_by : Text → Snapshot

unfoldable pub is_degraded_snapshot : Snapshot → Bool
is_degraded_snapshot no_snapshot = false
is_degraded_snapshot whole = false
is_degraded_snapshot (degraded_by _) = true

-- `_RETRY_WORTHY_DEGRADED`
unfoldable pub retry_worthy : Text → Bool
retry_worthy reason =
    if text_eq reason (codes "NoSearchHits") then true else text_eq reason (codes "NoUsablePages")

unfoldable pub decide_present : Snapshot → SkipVerdict
decide_present (degraded_by reason) = if retry_worthy reason then miss degraded else hit cached
decide_present whole = hit cached
decide_present no_snapshot = miss missing

unfoldable pub decide_company_cache : Snapshot → Bool → SkipVerdict
decide_company_cache snapshot_json force_refresh =
    if force_refresh then miss forced else decide_present snapshot_json
