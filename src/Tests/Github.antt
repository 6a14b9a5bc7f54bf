-- ===== src/Tests/Github.antt =====
-- A small repository, picked over and folded, and the end of the preparation.
use interview_coach.Base.{
  ℕ, suc, ◌+◌, List, ◌≡◌, refl, true, false, none, some, [], ◌∷◌, ◌++◌, map, take, length, leb,
  if◌then◌else◌,
}
use interview_coach.Text.{Text, codes, text_eq, strip}
use interview_coach.Profile.{ProjectItem, Profile, from_github}
use interview_coach.Db.Models.{github_repo, Document, ProfileRow, CompanySnapshotRow, Db}
use interview_coach.Db.Packet.{get_job, get_profile, get_company_snapshot_by_job}
use interview_coach.Db.Documents.{list_github_repo_docs_for_user}
use interview_coach.Github.{TreeEntry, blob, tree, sorted, text_before, select_source_files}
use interview_coach.Github.Picked.{Selected, select_source_files-Selected}
use interview_coach.Github.Layout.{
  listed_lines, ellipsis_line, directory_lines, directory_lines-take,
}
use interview_coach.Github.Ingest.{RepoCard, Outside}
use interview_coach.Github.Nodes.{node_github_ingest_and_fold}
use interview_coach.Github.Nodes.Deselect.{db_after}
use interview_coach.Github.Nodes.Barrier.{Refolded, fold_github_projects-Refolded}
use interview_coach.Prep.Cache.{degraded, retry_worthy, decide_present}
use interview_coach.Prep.Nodes.{
  PrepWorld, PrepEvent, NodeRan, ran, died, no_search_hits, node_started, node_done,
  company_researcher, found, finish_prep, node_company_researcher,
}
use interview_coach.Prep.Nodes.Company.{Prepared, finish_prep-Prepared}
use interview_coach.Prep.Nodes.Degraded.{node_company_researcher-degraded}
use interview_coach.Tests.Toy.{env, created, job}
use interview_coach.Tests.Mapping.{as_it_is, me, mine, paper}

abbrev plain : Text → Text
plain t = t

abbrev entries : List TreeEntry
entries =
    record { path = codes "src"; kind = tree; size = 0 }
    ∷ record { path = codes "src/app.py"; kind = blob; size = 900 }
    ∷ record { path = codes "tests/app.py"; kind = blob; size = 400 }
    ∷ record { path = codes "README.md"; kind = blob; size = 100 }
    ∷ []

select_source_files-Selected_example : Selected plain entries (select_source_files plain entries)
select_source_files-Selected_example = select_source_files-Selected plain entries

directory_lines-take_example :
    directory_lines plain entries
    ≡ take 40 (listed_lines plain (sorted (λ a b. text_before a.path b.path) entries))
      ++ (if leb 40
            (length (listed_lines plain (sorted (λ a b. text_before a.path b.path) entries)))
          then ellipsis_line ∷ []
          else [])
directory_lines-take_example = directory_lines-take plain entries

abbrev tool : ProjectItem
tool = record {
  name = codes "tool";
  description = codes "A tool";
  tech = [];
  role = none;
  urls = [];
  key_features = [];
  architecture = none;
  source = from_github;
  source_document_ids = 7 ∷ [];
}

-- An id above all others
abbrev total_id : List Document → ℕ
total_id [] = 0
total_id (d ∷ ds) = d.id + total_id ds

abbrev world : Outside Profile
world = record {
  lower = plain;
  has_token = true;
  list_public_repos = λ h. some [];
  mentioned = λ t. [];
  parse_owner_repo = λ t. none;
  get_tree = λ n b. none;
  fetch_blob = λ n b p. none;
  embed_ok = λ db i. true;
  extracts = λ t. none;
  chunked = λ db i. true;
  fresh = λ db. suc (total_id db.documents);
}

abbrev with_repo : Db Profile
with_repo = record mine {
  documents = paper ∷ record paper { id = 7; kind = github_repo; parsed_json = some tool } ∷ [];
}

abbrev my_row : ProfileRow Profile
my_row = record { user_id = 2; profile_json = me; source_doc_ids = 5 ∷ [] }

fold_github_projects-Refolded_example : Refolded as_it_is world 2 with_repo me
unfolding get_profile list_github_repo_docs_for_user
fold_github_projects-Refolded_example =
    fold_github_projects-Refolded as_it_is world 2 (λ q. refl) with_repo my_row me refl refl
      (refl, tt)

-- GitHub answers, and one repository is chosen that is not there yet.
abbrev reads : Outside Profile
reads = record world {
  parse_owner_repo = λ t. some (codes "me", codes "app");
  get_tree = λ n b. some entries;
  fetch_blob = λ n b p. some (codes "text");
  extracts = λ t.
      some (record {
        description = codes "An app";
        tech = [];
        key_features = [];
        architecture = none;
      });
}

abbrev app_url : Text
app_url = codes "https://github.com/me/app"

abbrev app : RepoCard
app = record {
  full_name = codes "me/app";
  html_url = app_url;
  description = none;
  default_branch = none;
  cv_mentioned = false;
  already_ingested = false;
  ingest_error = none;
}

-- The new repository has taken the place of the one before.
after_selection :
    map
      (λ d. d.id)
      (db_after (
        node_github_ingest_and_fold as_it_is reads with_repo 2
          (some (app ∷ []))
          (some (app_url ∷ [])))).documents
    ≡ paper.id ∷ suc paper.id ∷ []
unfolding node_github_ingest_and_fold
after_selection = refl

abbrev prep : PrepWorld Text
prep = record {
  analysis = λ t. some (codes "job");
  company_name = λ v. codes "Acme";
  research = λ t. found (codes "company");
  is_snapshot = λ v. true;
  degrade_reason = λ v. some (codes "NoSearchHits");
  placeholder = λ r. r;
}

-- Nothing is prepared, and the search finds nothing.
abbrev raw : Db Text
raw = record created { jobs = record job { parsed_json = none } ∷ []; snapshots = [] }

abbrev silent : PrepWorld Text
silent = record prep { research = λ t. no_search_hits }

abbrev db_of : NodeRan Text → Db Text
db_of (ran db evs) = db
db_of (died db evs) = db

abbrev events_of : NodeRan Text → List PrepEvent
events_of (ran db evs) = evs
events_of (died db evs) = []

finish_prep-Prepared_example :
    Prepared env silent 3 2 (db_of (finish_prep env silent raw 3 2 false))
unfolding finish_prep strip decide_present
finish_prep-Prepared_example =
    finish_prep-Prepared env silent 3 2 (λ t v e. refl) raw
      (db_of (finish_prep env silent raw 3 2 false)) false
      (events_of (finish_prep env silent raw 3 2 false)) refl

abbrev old : CompanySnapshotRow Text
old = record { job_id = 3; company_name = codes "Acme"; snapshot_json = codes "company" }

node_company_researcher-degraded_example :
    node_company_researcher env prep created 3 2 false
    ≡ ran created (node_started company_researcher degraded ∷ node_done company_researcher ∷ [])
unfolding get_job get_company_snapshot_by_job retry_worthy text_eq strip
node_company_researcher-degraded_example =
    node_company_researcher-degraded env prep created 3 2 old (codes "NoSearchHits") refl refl refl
      job (codes "job") b'A' (codes "cme") refl refl refl refl refl
