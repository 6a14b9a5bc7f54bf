-- ===== src/Db/Packet.antt =====
-- db/repos.py: jobs, profiles and company snapshots.
use mathlib.Core.List.{reverse}
use interview_coach.Base.{
  ℕ, Bool, not, ◌&&◌, Option, none, some, List, [], ◌∷◌, ◌++◌, find, keep, any, ◌==◌,
}
use interview_coach.Text.{Text}
use interview_coach.Db.Rows.{DbResult, committed, failed, integrity_error}
use interview_coach.Db.Documents.{column_is, update_where}
use interview_coach.Db.Models.{Job, ProfileRow, CompanySnapshotRow, Db}

-- `if source_url is not None: job.source_url = source_url`
abbrev pub given_or : Option Text → Option Text → Option Text
given_or none old = old
given_or (some url) old = some url

module _ {V : Type 0} where
  unfoldable pub get_job : Db V → ℕ → ℕ → Option (Job V)
  get_job db job_id user_id = find (λ j. j.id == job_id && j.user_id == user_id) db.jobs

  unfoldable pub get_profile : Db V → ℕ → Option (ProfileRow V)
  get_profile db user_id = find (λ p. p.user_id == user_id) db.profiles

  unfoldable pub get_company_snapshot_by_job : Db V → ℕ → Option (CompanySnapshotRow V)
  get_company_snapshot_by_job db job_id = find (λ s. s.job_id == job_id) db.snapshots

  unfoldable pub list_jobs_for_user : Db V → ℕ → List (Job V)
  list_jobs_for_user db user_id = reverse (keep (λ j. j.user_id == user_id) db.jobs)

  abbrev pub job_key : ℕ → ℕ → Job V → Bool
  job_key job_id user_id j = j.id == job_id && j.user_id == user_id

  unfoldable pub create_job : Db V → ℕ → ℕ → Text → Option Text → Option Text → Db V
  create_job db job_id user_id raw_text source_url content_hash = record db {
    jobs =
        db.jobs
        ++ record {
          id = job_id;
          user_id = user_id;
          raw_text = raw_text;
          source_url = source_url;
          content_hash = content_hash;
          parsed_json = none;
        }
          ∷ [];
  }

  unfoldable pub find_job_by_content_hash : Db V → ℕ → Text → Option (Job V)
  find_job_by_content_hash db user_id content_hash =
      find (λ j. j.user_id == user_id && column_is j.content_hash content_hash) db.jobs

  -- No index makes the URL unique: several rows make the read fail.
  unfoldable pub find_job_by_source_url : Db V → ℕ → Text → DbResult (Option (Job V))
  find_job_by_source_url db user_id source_url =
      elim (keep (λ j. j.user_id == user_id && column_is j.source_url source_url) db.jobs) [
        | [] ↦ committed none
        | j ∷ js ↦ elim js [ [] ↦ committed (some j) | k ∷ ks ↦ failed integrity_error ]
      ]

  unfoldable pub update_job_parsed_json : Db V → ℕ → ℕ → V → Db V × Bool
  update_job_parsed_json db job_id user_id parsed = (
    record db {
      jobs =
          update_where (job_key job_id user_id) (λ j. record j { parsed_json = some parsed })
            db.jobs;
    },
    any (job_key job_id user_id) db.jobs,
  )

  unfoldable pub update_job_raw_text : Db V → ℕ → ℕ → Text → Text → Option Text → Db V × Bool
  update_job_raw_text db job_id user_id raw_text content_hash source_url = (
    record db {
      jobs =
          update_where (job_key job_id user_id)
            (λ j. record j {
              raw_text = raw_text;
              content_hash = some content_hash;
              source_url = given_or source_url j.source_url;
              parsed_json = none;
            })
            db.jobs;
    },
    any (job_key job_id user_id) db.jobs,
  )

  unfoldable pub delete_company_snapshot_for_job : Db V → ℕ → Db V × Bool
  delete_company_snapshot_for_job db job_id = (
    record db { snapshots = keep (λ s. not (s.job_id == job_id)) db.snapshots },
    any (λ s. s.job_id == job_id) db.snapshots,
  )

  unfoldable pub delete_profile : Db V → ℕ → Db V × Bool
  delete_profile db user_id = (
    record db { profiles = keep (λ p. not (p.user_id == user_id)) db.profiles },
    any (λ p. p.user_id == user_id) db.profiles,
  )

  -- One profile for each user: what there is, is replaced.
  unfoldable pub upsert_profile : Db V → ℕ → V → List ℕ → Db V
  upsert_profile db user_id profile_json source_doc_ids = record db {
    profiles = elim (find (λ p. p.user_id == user_id) db.profiles) [
      | none ↦
          db.profiles
          ++ record {
            user_id = user_id;
            profile_json = profile_json;
            source_doc_ids = source_doc_ids;
          }
            ∷ []
      | some existing ↦
          update_where (λ p. p.user_id == user_id)
            (λ p. record p { profile_json = profile_json; source_doc_ids = source_doc_ids })
            db.profiles
    ];
  }

  unfoldable pub upsert_company_snapshot : Db V → ℕ → Text → V → Db V
  upsert_company_snapshot db job_id company_name snapshot_json = record db {
    snapshots = elim (find (λ s. s.job_id == job_id) db.snapshots) [
      | none ↦
          db.snapshots
          ++ record { job_id = job_id; company_name = company_name; snapshot_json = snapshot_json }
            ∷ []
      | some existing ↦
          update_where (λ s. s.job_id == job_id)
            (λ s. record s { company_name = company_name; snapshot_json = snapshot_json })
            db.snapshots
    ];
  }
