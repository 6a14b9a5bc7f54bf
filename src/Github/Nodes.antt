-- ===== src/Github/Nodes.antt =====
-- agents/nodes/github_ingest.py: the repositories of a user are listed, chosen, ingested and folded
-- into the profile.
pub mod Barrier
pub mod Ids
pub mod Selection
pub mod Refresh
pub mod Deselect
use interview_coach.Base.{
  ℕ, ltb, Bool, true, false, not, ◌&&◌, Option, none, some, List, [], ◌∷◌, ◌++◌, map, keep, find,
  any, take, length, if◌then◌else◌,
}
use interview_coach.Text.{Text, text_eq, member}
use interview_coach.Profile.{
  ProjectItem, Profile, ProjectSource, from_project_doc, from_github, from_manual,
}
use interview_coach.Db.Models.{Document, ProfileRow, Db}
use interview_coach.Db.Rows.{last?}
use interview_coach.Db.Packet.{get_profile, upsert_profile}
use interview_coach.Db.Documents.{
  is_cv, list_github_repo_docs_for_user, list_fully_ingested_github_urls,
  delete_github_repo_docs_not_selected,
}
use interview_coach.Mapping.{set_projects}
use interview_coach.Prep.Readiness.{list_documents_for_user, current_profile_doc_ids}
use interview_coach.Prep.Mappings.{ProfileJson}
use interview_coach.Github.Ingest.{Step, RepoCard, PublicRepo, Outside, ingest_repo}

pub data NextStep : Type 0 where
  await_repo_selection github_ingest_and_fold prepare_mapping_suggestion : NextStep

pub data GithubEvent : Type 0 where
  no_repos_selected fetch_failed : GithubEvent
  repos_available : List RepoCard → GithubEvent
  github_done github_capped : GithubEvent
  github_folded : ℕ → GithubEvent

pub record Routed : Type 0 where
  pub next_step : NextStep
  pub github_repos : Option (List RepoCard)
  pub events : List GithubEvent

pub record Failure : Type 0 where
  pub html_url : Text
  pub step : Step

abbrev pub is_github_source : ProjectSource → Bool
is_github_source from_project_doc = false
is_github_source from_github = true
is_github_source from_manual = false

abbrev pub or_empty : Option (List RepoCard) → List RepoCard
or_empty none = []
or_empty (some rs) = rs

abbrev pub parsed_projects : List Document → List ProjectItem
parsed_projects [] = []
parsed_projects (d ∷ ds) =
    let rest = parsed_projects ds in elim d.parsed_json [ none ↦ rest | some p ↦ p ∷ rest ]

module _ {V : Type 0} (json : ProfileJson V) (world : Outside V) where
  abbrev pub card : List Text → PublicRepo → RepoCard
  card cv_names r = record {
    full_name = r.full_name;
    html_url = r.html_url;
    description = r.description;
    default_branch = r.default_branch;
    cv_mentioned = member (world.lower r.full_name) cv_names;
    already_ingested = false;
    ingest_error = none;
  }

  unfoldable pub cv_mentioned_full_names : Db V → ℕ → List Text
  unfolding list_documents_for_user
  cv_mentioned_full_names db user_id =
      elim (find (λ d. is_cv d.kind) (list_documents_for_user db user_id)) [
        | none ↦ []
        | some d ↦ world.mentioned d.raw_text
      ]

  abbrev pub offer : List RepoCard → Routed
  offer [] = record {
    next_step = prepare_mapping_suggestion;
    github_repos = none;
    events = no_repos_selected ∷ [];
  }
  offer (r ∷ rs) = record {
    next_step = await_repo_selection;
    github_repos = some (r ∷ rs);
    events = repos_available (r ∷ rs) ∷ [];
  }

  abbrev pub listed : List Text → Option (List PublicRepo) → Routed
  listed cv_names none = record {
    next_step = prepare_mapping_suggestion;
    github_repos = none;
    events = fetch_failed ∷ [];
  }
  listed cv_names (some rs) = offer (map (card cv_names) (keep (λ r. not r.fork) rs))

  -- By the user's handle, if it is not empty, and the documents there are.
  abbrev pub discover : Db V → ℕ → Option Text → List Document → Routed
  discover db user_id handle (d ∷ ds) = record {
    next_step = github_ingest_and_fold;
    github_repos = none;
    events = [];
  }
  discover db user_id none [] = offer []
  discover db user_id (some []) [] = offer []
  discover db user_id (some (c ∷ s)) [] =
      listed (cv_mentioned_full_names db user_id) (world.list_public_repos (c ∷ s))

  unfoldable pub node_github_discover : Db V → ℕ → Option Text → Routed
  unfolding list_github_repo_docs_for_user cv_mentioned_full_names
  node_github_discover db user_id handle =
      discover db user_id handle (list_github_repo_docs_for_user db user_id)

  -- `discovered.get(url)`: of two cards with one URL the last counts.
  abbrev pub discovered : List RepoCard → Text → Option RepoCard
  discovered cards url = last? (keep (λ r. text_eq url r.html_url) cards)

  abbrev pub failure_of : Text → Option Step → List Failure
  failure_of url none = []
  failure_of url (some step) = record { html_url = url; step = step } ∷ []

  -- One URL of the selection
  unfoldable pub ingest_url :
      Db V → ℕ → List (Option Text) → List RepoCard → Text → Db V × List Failure
  unfolding ingest_repo
  ingest_url db user_id already_done cards url =
      if any (λ u. elim u [ none ↦ false | some v ↦ text_eq url v ]) already_done
      then (db, [])
      else elim (discovered cards url) [
        | none ↦ (db, [])
        | some r ↦ let x = ingest_repo world db user_id r in (x.0, failure_of url x.1)
      ]

  unfoldable pub ingest_urls :
      Db V → ℕ → List (Option Text) → List RepoCard → List Text → Db V × List Failure
  unfolding ingest_url
  ingest_urls db user_id already_done cards [] = (db, [])
  ingest_urls db user_id already_done cards (url ∷ urls) =
      let x = ingest_url db user_id already_done cards url in
      let y = ingest_urls x.0 user_id already_done cards urls in (y.0, x.1 ++ y.1)

  -- The picker again, with what failed.
  abbrev pub annotate : List Text → List Failure → RepoCard → RepoCard
  annotate selected failures r = record r {
    already_ingested = if member r.html_url selected then true else r.already_ingested;
    ingest_error = elim (last? (keep (λ f. text_eq r.html_url f.html_url) failures)) [
      | none ↦ r.ingest_error
      | some f ↦ some f.step
    ];
  }

  -- Other projects stay, and those from GitHub are those of the documents.
  abbrev pub folded_projects : List ProjectItem → List Document → List ProjectItem
  folded_projects projects docs =
      keep (λ p. not (is_github_source p.source)) projects ++ parsed_projects docs

  abbrev pub folded : Db V → ℕ → List Document → Option Profile → Option (Db V × ℕ)
  folded db user_id docs none = none
  folded db user_id docs (some p) = some (
    upsert_profile db user_id (json.model_dump (set_projects p (folded_projects p.projects docs)))
        (current_profile_doc_ids db user_id),
    length (parsed_projects docs),
  )

  -- `none` is the exception of a stored profile that does not fit the schema. The source leaves the
  -- old projects from GitHub out before it validates, so that one of them that does not fit raises
  -- here only; and a project that does not fit is none here.
  unfoldable pub fold_github_projects : Db V → ℕ → Option (Db V × ℕ)
  unfolding get_profile upsert_profile list_github_repo_docs_for_user current_profile_doc_ids
  fold_github_projects db user_id = elim (get_profile db user_id) [
    | none ↦ some (db, 0)
    | some row ↦
        folded db user_id (list_github_repo_docs_for_user db user_id)
          (json.model_validate row.profile_json)
  ]

  -- The node: the database with what it returns, or the exception of the fold after what was
  -- written before it.
  pub data Ingested : Type 0 where
    ingested : Db V → Routed → Ingested
    fold_raised : Db V → Ingested

  abbrev pub fold_or_raise : Db V → Bool → Option (Db V × ℕ) → Ingested
  fold_or_raise db capped none = fold_raised db
  fold_or_raise db capped (some (db', n)) = ingested db' (record {
    next_step = prepare_mapping_suggestion;
    github_repos = none;
    events = (if capped then github_capped else github_done) ∷ github_folded n ∷ [];
  })

  -- The barrier
  abbrev pub finish_ingest :
      Db V → ℕ → Option (List RepoCard) → List Text → Bool → List Failure → Ingested
  finish_ingest db user_id repos selected capped [] =
      fold_or_raise db capped (fold_github_projects db user_id)
  finish_ingest db user_id repos selected capped (f ∷ fs) =
      let annotated = map (annotate selected (f ∷ fs)) (or_empty repos) in
      ingested db (record {
        next_step = await_repo_selection;
        github_repos = some annotated;
        events = repos_available annotated ∷ [];
      })

  -- Without a token only the first repository is taken.
  abbrev pub to_ingest : List Text → List Text
  to_ingest selected = if world.has_token then selected else take 1 selected

  unfoldable pub node_github_ingest_and_fold :
      Db V → ℕ → Option (List RepoCard) → Option (List Text) → Ingested
  unfolding delete_github_repo_docs_not_selected list_fully_ingested_github_urls ingest_urls
      fold_github_projects
  node_github_ingest_and_fold db user_id repos none = finish_ingest db user_id repos [] false []
  node_github_ingest_and_fold db user_id repos (some selected) =
      let db1 = delete_github_repo_docs_not_selected db user_id selected in
      let already_done = list_fully_ingested_github_urls (world.chunked db1) db1 user_id in
      let x = ingest_urls db1 user_id already_done (or_empty repos) (to_ingest selected) in
      finish_ingest x.0 user_id repos selected (not world.has_token && ltb 1 (length selected)) x.1
