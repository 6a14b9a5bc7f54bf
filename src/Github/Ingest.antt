-- ===== src/Github/Ingest.antt =====
-- ingestion/github_repo.py, `ingest_repo`: one repository of a user is read, stored and extracted.
-- What comes from outside are the answers of GitHub, of the embedder and of the language model.
use interview_coach.Base.{ℕ, Bool, Option, none, some, List, [], ◌∷◌, ◌++◌, take, if◌then◌else◌}
use interview_coach.Text.{Text, codes}
use interview_coach.Profile.{ProjectItem, from_github}
use interview_coach.Db.Models.{Db}
use interview_coach.Db.Documents.{upsert_github_repo_document, set_document_parsed_json}
use interview_coach.Github.{TreeEntry}
use interview_coach.Github.Layout.{repo_texts}

-- `step` of `RepoIngestError`, and `unknown` for another exception
pub data Step : Type 0 where
  fetch embed extract unknown : Step

-- A repository of the picker: its card without what is only shown.
pub record RepoCard : Type 0 where
  pub full_name : Text
  pub html_url : Text
  pub description : Option Text
  pub default_branch : Option Text
  pub cv_mentioned : Bool
  pub already_ingested : Bool
  pub ingest_error : Option Step

-- `PublicRepo` of the GitHub client
pub record PublicRepo : Type 0 where
  pub full_name : Text
  pub html_url : Text
  pub description : Option Text
  pub default_branch : Option Text
  pub fork : Bool

pub record GithubProjectExtract : Type 0 where
  pub description : Text
  pub tech : List Text
  pub key_features : List Text
  pub architecture : Option Text

-- What answers from outside; `none` and `false` stand for an exception.
pub record Outside (V : Type 0) : Type 0 where
  pub lower : Text → Text
  pub has_token : Bool
  pub list_public_repos : Text → Option (List PublicRepo)
  pub mentioned : Text → List Text
  pub parse_owner_repo : Text → Option (Text × Text)
  pub get_tree : Text → Text → Option (List TreeEntry)
  pub fetch_blob : Text → Text → Text → Option Text
  pub embed_ok : Db V → ℕ → Bool
  pub extracts : Text → Option GithubProjectExtract
  pub chunked : Db V → ℕ → Bool
  pub fresh : Db V → ℕ

-- `default_branch or "main"`
abbrev pub branch_or_main : Option Text → Text
branch_or_main none = codes "main"
branch_or_main (some []) = codes "main"
branch_or_main (some (c ∷ s)) = c ∷ s

-- The project that `ingest_repo` puts together
abbrev pub repo_project : Text → Text → ℕ → GithubProjectExtract → ProjectItem
repo_project repo html_url doc_id x = record {
  name = repo;
  description = x.description;
  tech = take 10 x.tech;
  role = none;
  urls = html_url ∷ [];
  key_features = x.key_features;
  architecture = x.architecture;
  source = from_github;
  source_document_ids = doc_id ∷ [];
}

module _ {V : Type 0} (world : Outside V) where
  -- The last two steps of `ingest_repo`, on the row of the repository
  abbrev pub extracted : Db V → ℕ → Text → Text → Option GithubProjectExtract → Db V × Option Step
  extracted db doc_id repo html_url none = (db, some extract)
  extracted db doc_id repo html_url (some x) =
      ((set_document_parsed_json db doc_id (repo_project repo html_url doc_id x)).0, none)

  abbrev pub embedded : Db V → ℕ → Text → Text → Text → Db V × Option Step
  embedded db doc_id repo html_url extract_text =
      if world.embed_ok db doc_id
      then extracted db doc_id repo html_url (world.extracts (take 10000 extract_text))
      else (db, some embed)

  abbrev pub stored : Db V → ℕ → Text → Text → Text × Text → Db V × Option Step
  stored db user_id repo html_url texts =
      let r = upsert_github_repo_document db (world.fresh db) user_id html_url repo texts.1 in
      embedded r.0 r.1 repo html_url texts.0

  abbrev pub fetched :
      Db V → ℕ → RepoCard → Text → Text → Option (List TreeEntry) → Db V × Option Step
  fetched db user_id r full_name repo none = (db, some fetch)
  fetched db user_id r full_name repo (some entries) = stored db user_id repo r.html_url (
      repo_texts world.lower world.has_token full_name r.description
        (world.fetch_blob full_name (branch_or_main r.default_branch)) entries)

  abbrev pub parsed : Db V → ℕ → RepoCard → Option (Text × Text) → Db V × Option Step
  parsed db user_id r none = (db, some unknown)
  parsed db user_id r (some names) =
      let full_name = names.0 ++ codes "/" ++ names.1 in
      fetched db user_id r full_name names.1
        (world.get_tree full_name (branch_or_main r.default_branch))

  -- The database, and the step that has failed.
  unfoldable pub ingest_repo : Db V → ℕ → RepoCard → Db V × Option Step
  unfolding upsert_github_repo_document set_document_parsed_json repo_texts
  ingest_repo db user_id r = parsed db user_id r (world.parse_owner_repo r.full_name)
