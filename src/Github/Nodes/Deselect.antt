-- ===== src/Github/Nodes/Deselect.antt =====
-- agents/nodes/github_ingest.py, `node_github_ingest_and_fold`: a repository that is
-- deselected is deleted.
use interview_coach.Base.{ℕ, ◌≡◌, true, not, ◌&&◌, Option, none, some, List, All, keep, ◌==◌}
use interview_coach.Text.{Text}
use interview_coach.Profile.{Profile}
use interview_coach.Db.Models.{Document, Db}
use interview_coach.Db.Documents.{is_github_repo, gone_repo}
use interview_coach.Github.Nodes.Selection.{has_url, Extends}
use interview_coach.Github.Nodes.Ids.{Distinct}
use interview_coach.Prep.Mappings.{ProfileJson}
use interview_coach.Github.Ingest.{Outside}
use interview_coach.Github.Nodes.{Ingested, ingested, fold_raised}

Each : {A : Type 0} → (A → Type 0) → Option A → Type 0
Each P none = Unit
Each P (some x) = P x

-- The database when the node is left, by its end or by the exception of the fold
abbrev pub db_after :
    {V : Type 0} {json : ProfileJson V} {world : Outside V} → Ingested json world → Db V
db_after (ingested db r) = db
db_after (fold_raised db) = db

-- What the node has done to the documents.
pub record Deselected (user_id : ℕ) (selected : List Text) (before after : List Document)
    : Type 0 where
  pub kept : Extends user_id selected (keep (λ d. not (gone_repo user_id selected d)) before) after
  pub left :
      All
        (λ d. has_url selected d ≡ true)
        (keep (λ d. d.user_id == user_id && is_github_repo d.kind) after)
  pub distinct : Distinct after
