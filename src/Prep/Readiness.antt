-- ===== src/Prep/Readiness.antt =====
-- `prep_readiness` of db/repos.py: may the user start an interview for the job?
use mathlib.Core.List.{reverse}
use interview_coach.Base.{
  ap, map, ℕ, Bool, true, false, not, ◌&&◌, ◌≡◌, ◌↔◌, Option, none, some, List, [], ◌∷◌, ◌++◌, keep,
  any, length, ◌==◌, if◌then◌else◌, arith,
}
use interview_coach.Db.Models.{Document, Job, Db}
use interview_coach.Db.Documents.{is_cv, is_project_doc, is_github_repo, present}
use interview_coach.Db.Packet.{get_job, get_profile, get_company_snapshot_by_job}
use interview_coach.Interview.State.{Env}
use interview_coach.Prep.Cache.{normalize}
use interview_coach.Interview.Interviewer.{truthy}

pub data Requirement : Type 0 where
  cv_document profile job_analysis company_research : Requirement

pub record PrepReadiness (V : Type 0) : Type 0 where
  pub job : Job V
  pub has_cv : Bool
  pub profile_ready : Bool
  pub job_analyzed : Bool
  pub company_researched : Bool
  pub missing : List Requirement
  pub can_start : Bool
  pub unmapped_project_doc_count : ℕ

abbrev pub unless : Bool → Requirement → List Requirement
unless b r = if b then [] else r ∷ []

abbrev pub missing_of : Bool → Bool → Bool → Bool → List Requirement
missing_of has_cv profile_ready job_analyzed company_researched =
    unless has_cv cv_document
    ++ unless profile_ready profile
    ++ unless job_analyzed job_analysis
    ++ unless company_researched company_research

abbrev pub nothing : List Requirement → Bool
nothing [] = true
nothing (r ∷ rs) = false

abbrev pub optional {ℓ κ} : {A : Type ℓ} {B : Type κ} → (A → B) → Option A → Option B
optional f none = none
optional f (some a) = some (f a)

module _ {V : Type 0} where
  -- Newest first: the rows of the database stand in the order of their creation.
  unfoldable pub list_documents_for_user : Db V → ℕ → List Document
  list_documents_for_user db user_id = reverse (keep (λ d. d.user_id == user_id) db.documents)

  -- `DISTINCT`, whose order SQL leaves open: here they ascend.
  unfoldable pub list_document_mapping_doc_ids_for_user : Db V → ℕ → List ℕ
  list_document_mapping_doc_ids_for_user db user_id =
      normalize (map (λ m. m.document_id) (keep (λ m. m.user_id == user_id) db.mappings))

  unfoldable pub current_profile_doc_ids : Db V → ℕ → List ℕ
  current_profile_doc_ids db user_id =
      let docs = list_documents_for_user db user_id in
      normalize (
        map (λ d. d.id) (keep (λ d. is_cv d.kind) docs)
        ++ map (λ d. d.id) (keep (λ d. is_github_repo d.kind) docs)
        ++ list_document_mapping_doc_ids_for_user db user_id)

  abbrev pub mapped : Db V → ℕ → Bool
  mapped db document_id = any (λ m. m.document_id == document_id) db.mappings

  unfoldable pub list_unmapped_project_docs_for_user : Db V → ℕ → List Document
  list_unmapped_project_docs_for_user db user_id =
      keep (λ d. d.user_id == user_id && is_project_doc d.kind && not (mapped db d.id)) db.documents

  -- `bool(job.parsed_json)`
  abbrev pub analyzed : Env V → Option V → Bool
  analyzed env none = false
  analyzed env (some v) = truthy (env.shape v)

  -- The rollup for a job that was found.
  unfoldable pub readiness_of : Env V → Db V → ℕ → ℕ → Job V → PrepReadiness V
  readiness_of env db user_id job_id job =
      let has_cv = any (λ d. is_cv d.kind) (list_documents_for_user db user_id) in
      let profile_ready = present (get_profile db user_id) in
      let job_analyzed = analyzed env job.parsed_json in
      let company_researched = present (get_company_snapshot_by_job db job_id) in
      let missing = missing_of has_cv profile_ready job_analyzed company_researched in
      record {
        job = job;
        has_cv = has_cv;
        profile_ready = profile_ready;
        job_analyzed = job_analyzed;
        company_researched = company_researched;
        missing = missing;
        can_start = nothing missing;
        unmapped_project_doc_count = length (list_unmapped_project_docs_for_user db user_id);
      }

  unfoldable pub prep_readiness : Env V → Db V → ℕ → ℕ → Option (PrepReadiness V)
  prep_readiness env db user_id job_id =
      optional (readiness_of env db user_id job_id) (get_job db job_id user_id)

missing-nothing :
    (a b c d : Bool)
    → (nothing (missing_of a b c d) ≡ true) ↔ ((a ≡ true) × (b ≡ true) × (c ≡ true) × (d ≡ true))
missing-nothing a b c d = (
  λ h. (ground arith, ground arith, ground arith, ground arith),
  λ h. ground (arith, h.0, h.1, h.2, h.3),
)

-- What the rollup says of a job: the interview may start exactly if the user has a CV and a
-- profile, the job is analyzed, and its company is researched.
pub record Ready {V : Type 0} (env : Env V) (db : Db V) (user_id job_id : ℕ) (job : Job V)
    (o : Option (PrepReadiness V)) : Type 0 where
  pub readiness : PrepReadiness V
  pub done : o ≡ some readiness
  pub can_start : (readiness.can_start ≡ true) ↔ (
      (any (λ d. is_cv d.kind) (list_documents_for_user db user_id) ≡ true)
      × (present (get_profile db user_id) ≡ true)
      × (analyzed env job.parsed_json ≡ true)
      × (present (get_company_snapshot_by_job db job_id) ≡ true))

-- For a job of the user the rollup exists, and it says that the interview may start exactly if the
-- user has a CV and a profile, the job is analyzed, and its company is researched.
pub prep_readiness-Ready :
    {V : Type 0} (env : Env V) (db : Db V) (user_id job_id : ℕ) (job : Job V)
    → get_job db job_id user_id ≡ some job
    → Ready env db user_id job_id job (prep_readiness env db user_id job_id)
unfolding prep_readiness readiness_of
prep_readiness-Ready env db user_id job_id job h = record {
  readiness = readiness_of env db user_id job_id job;
  done = ap (optional (readiness_of env db user_id job_id)) h;
  can_start = missing-nothing _ _ _ _;
}
