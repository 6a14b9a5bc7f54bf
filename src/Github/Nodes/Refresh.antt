-- ===== src/Github/Nodes/Refresh.antt =====
-- ingestion/github_repo.py, `ingest_repo`: what one repository does to the documents.
use interview_coach.Base.{
  ℕ, ◌≡◌, refl, sym, ap, subst, ◌∙◌, Bool, true, false, ◌&&◌, Option, none, some, List, [], ◌∷◌,
  ◌++◌, All, All_weaken, All-append, find, take, ◌==◌, if◌then◌else◌, arith,
}
use interview_coach.Text.{Text, text_eq_sound}
use interview_coach.Db.Models.{DocKind, cv, project_doc, Document, github_repo, Db}
use interview_coach.Db.Documents.{
  is_github_repo, column_is, repo_key, refresh_repo, update_where, upsert_github_repo_document,
  set_document_parsed_json,
}
use interview_coach.Github.Nodes.Ids.{
  Unused, Distinct, Distinct-append, Distinct-update, by_id-found,
}
use interview_coach.Github.Nodes.Selection.{
  Chosen, IsChosen, IsChosen-Refreshes, Refreshes, Extends, Extends-update, Extends-append,
}
use interview_coach.Github.{TreeEntry}
use interview_coach.Github.Ingest.{
  Step, Outside, RepoCard, GithubProjectExtract, extracted, stored, fetched, parsed, ingest_repo,
}

-- A primary key that is generated is not in use.
abbrev pub FreshIds : {V : Type 0} → Outside V → Type 0
FreshIds {V} world = (db : Db V) → Unused (world.fresh db) db.documents

every : (P : Document → Type 0) → ((d : Document) → P d) → (ds : List Document) → All P ds
every P f [] = tt
every P f (d ∷ ds) = (f d, every P f ds)

module _ (user_id : ℕ) (selected : List Text) (base : List Document) where
  -- The documents so far
  pub record Progress (ds : List Document) : Type 0 where
    pub extends : Extends user_id selected base ds
    pub distinct : Distinct ds

  -- Every document with the id is a repository of the user with a selected URL.
  abbrev OwnId : ℕ → List Document → Type 0
  OwnId n ds = All (λ d. (d.id == n) ≡ true → IsChosen user_id selected d) ds

  repo_key-IsChosen :
      (url : Text) (d : Document)
      → Chosen user_id selected url
      → repo_key user_id url d ≡ true
      → IsChosen user_id selected d
  repo_key-IsChosen url d c h = by_url d.source_url refl h
    where
      kind_of : (k : DocKind) → is_github_repo k ≡ true → k ≡ github_repo
      kind_of cv e = cc
      kind_of project_doc e = cc
      kind_of github_repo e = refl

      by_url :
          (u : Option Text)
          → d.source_url ≡ u
          → (d.user_id == user_id && is_github_repo d.kind && column_is u url) ≡ true
          → IsChosen user_id selected d
      by_url none e k = absurd (ground (arith, k))
      by_url (some v) e k = record {
        url = v;
        here = e;
        chosen = subst (Chosen user_id selected) (sym (text_eq_sound v url (ground (arith, k)))) c;
        user = ground (arith, k);
        kind = kind_of d.kind (ground (arith, k));
      }

  OwnId-Unused : (n : ℕ) (ds : List Document) → Unused n ds → OwnId n ds
  OwnId-Unused n ds u =
      All_weaken (λ d. (d.id == n) ≡ false) (λ d. (d.id == n) ≡ true → IsChosen user_id selected d)
        ds (λ d f t. absurd (ground (arith, f, t))) u

  OwnId-update :
      (hit : Document → Bool) (f : Document → Document)
      → ((d : Document) → Refreshes d (f d))
      → (n : ℕ) (ds : List Document) → OwnId n ds
      → OwnId n (update_where hit f ds)
  OwnId-update hit f r n [] h = tt
  OwnId-update hit f r n (d ∷ ds) (h, hs) = (one (hit d), OwnId-update hit f r n ds hs)
    where
      one :
          (b : Bool)
          → ((if b then f d else d).id == n) ≡ true
          → IsChosen user_id selected (if b then f d else d)
      one true t =
          IsChosen-Refreshes user_id selected d (f d) (r d)
            (h (ap (λ i. i == n) (sym ((r d).id)) ∙ t))
      one false t = h t

  -- The document that a repository is stored in, or refreshed
  record Kept {V : Type 0} (r : Db V × ℕ) : Type 0 where
    progress : Progress r.0.documents
    own : OwnId r.1 r.0.documents

  module _ {V : Type 0} (world : Outside V) (fresh_ids : FreshIds world) where
    upsert-Kept :
        (db : Db V) (url title raw : Text)
        → Chosen user_id selected url
        → Progress db.documents
        → Kept (upsert_github_repo_document db (world.fresh db) user_id url title raw)
    unfolding upsert_github_repo_document
    upsert-Kept db url title raw c h = by_found (find (repo_key user_id url) db.documents) refl
      where
        hits :
            (ds : List Document)
            → All (λ d. repo_key user_id url d ≡ true → IsChosen user_id selected d) ds
        hits = every _ (λ d k. repo_key-IsChosen url d c k)

        refreshed : (d : Document) → Refreshes d (refresh_repo title raw d)
        refreshed d = record {
          id = refl;
          user_id = refl;
          kind = refl;
          source_url = refl;
          content_hash = refl;
        }

        new : IsChosen user_id selected (record {
          id = world.fresh db;
          user_id = user_id;
          kind = github_repo;
          raw_text = raw;
          project_title = some title;
          source_url = some url;
          parsed_json = none;
          content_hash = none;
        })
        new = record { url = url; here = refl; chosen = c; user = refl; kind = refl }

        by_found :
            (o : Option Document)
            → find (repo_key user_id url) db.documents ≡ o
            → Kept (elim o as (λ q. Db V × ℕ) [
              | none ↦ (
                record db {
                  documents =
                      db.documents
                      ++ record {
                        id = world.fresh db;
                        user_id = user_id;
                        kind = github_repo;
                        raw_text = raw;
                        project_title = some title;
                        source_url = some url;
                        parsed_json = none;
                        content_hash = none;
                      }
                        ∷ [];
                },
                world.fresh db,
              )
              | some doc ↦ (
                record db {
                  documents =
                      update_where (repo_key user_id url) (refresh_repo title raw) db.documents;
                },
                doc.id,
              )
            ])
        by_found none e = record {
          progress = record {
            extends = Extends-append user_id selected base db.documents _ new h.extends;
            distinct = Distinct-append db.documents _ (fresh_ids db) h.distinct;
          };
          own =
              All-append (λ d. (d.id == world.fresh db) ≡ true → IsChosen user_id selected d)
                db.documents _ (OwnId-Unused (world.fresh db) db.documents (fresh_ids db))
                (λ t. new, tt);
        }
        by_found (some doc) e = record {
          progress = record {
            extends =
                Extends-update user_id selected (repo_key user_id url) (refresh_repo title raw)
                  refreshed base db.documents (hits db.documents) h.extends;
            distinct =
                Distinct-update (repo_key user_id url) (refresh_repo title raw) (λ d. refl)
                  db.documents h.distinct;
          };
          own =
              OwnId-update (repo_key user_id url) (refresh_repo title raw) refreshed doc.id
                db.documents
                (All_weaken (λ d. (d.id == doc.id) ≡ true → repo_key user_id url d ≡ true)
                  (λ d. (d.id == doc.id) ≡ true → IsChosen user_id selected d) db.documents
                  (λ d k t. repo_key-IsChosen url d c (k t))
                  (by_id-found (repo_key user_id url) db.documents doc h.distinct e));
        }

    pub ingest_repo-Progress :
        (db : Db V) (r : RepoCard)
        → Chosen user_id selected r.html_url
        → Progress db.documents
        → Progress (ingest_repo world db user_id r).0.documents
    unfolding ingest_repo set_document_parsed_json
    ingest_repo-Progress db r c h = by_names (world.parse_owner_repo r.full_name)
      where
        by_project :
            (x : Db V × ℕ) (repo : Text) (o : Option GithubProjectExtract)
            → Kept x
            → Progress (extracted world x.0 x.1 repo r.html_url o).0.documents
        by_project x repo none k = k.progress
        by_project x repo (some p) k = record {
          extends =
              Extends-update user_id selected (λ d. d.id == x.1) _
                (λ d. record {
                  id = refl;
                  user_id = refl;
                  kind = refl;
                  source_url = refl;
                  content_hash = refl;
                })
                base x.0.documents k.own k.progress.extends;
          distinct =
              Distinct-update (λ d. d.id == x.1) _ (λ d. refl) x.0.documents k.progress.distinct;
        }

        by_embedding :
            (b : Bool) (x : Db V × ℕ) (repo : Text) (o : Option GithubProjectExtract)
            → Kept x
            → Progress
                (if b
                  then extracted world x.0 x.1 repo r.html_url o
                  else (x.0, some Step.embed)).0.documents
        by_embedding true x repo o k = by_project x repo o k
        by_embedding false x repo o k = k.progress

        by_texts :
            (repo : Text) (texts : Text × Text)
            → Progress (stored world db user_id repo r.html_url texts).0.documents
        by_texts repo texts =
            let x =
              upsert_github_repo_document db (world.fresh db) user_id r.html_url repo texts.1 in
            by_embedding (world.embed_ok x.0 x.1) x repo (world.extracts (take 10000 texts.0))
              (upsert-Kept db r.html_url repo texts.1 c h)

        by_tree :
            (full_name repo : Text) (o : Option (List TreeEntry))
            → Progress (fetched world db user_id r full_name repo o).0.documents
        by_tree full_name repo none = h
        by_tree full_name repo (some entries) = by_texts repo _

        by_names : (o : Option (Text × Text)) → Progress (parsed world db user_id r o).0.documents
        by_names none = h
        by_names (some names) = by_tree _ names.1 _
