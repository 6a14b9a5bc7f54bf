-- ===== src/Db/Documents.antt =====
-- db/repos.py: documents and their mappings. The rows of a table stand in the order of their
-- creation; deleting a document deletes its mappings with it. The unique indexes of the table are not
-- checked: a write that they refuse is done here.
use interview_coach.Base.{
  ℕ, Bool, true, false, not, ◌&&◌, Option, none, some, List, [], ◌∷◌, ◌++◌, map, keep, find, any,
  length, ◌==◌, if◌then◌else◌,
}
use interview_coach.Text.{Text, text_eq}
use interview_coach.Profile.{ProjectItem}
use interview_coach.Db.Models.{
  DocKind, cv, project_doc, github_repo, Document, MappingRow, DocumentMapping, Db,
}

abbrev pub is_cv : DocKind → Bool
is_cv cv = true
is_cv project_doc = false
is_cv github_repo = false

abbrev pub is_project_doc : DocKind → Bool
is_project_doc cv = false
is_project_doc project_doc = true
is_project_doc github_repo = false

abbrev pub is_github_repo : DocKind → Bool
is_github_repo cv = false
is_github_repo project_doc = false
is_github_repo github_repo = true

abbrev pub same_kind : DocKind → DocKind → Bool
same_kind cv k = is_cv k
same_kind project_doc k = is_project_doc k
same_kind github_repo k = is_github_repo k

abbrev pub present {ℓ} : {A : Type ℓ} → Option A → Bool
present none = false
present (some a) = true

-- `column = value`; a column that is null equals nothing.
abbrev pub column_is : Option Text → Text → Bool
column_is none t = false
column_is (some s) t = text_eq s t

-- A row of the user
abbrev pub document_key : ℕ → ℕ → Document → Bool
document_key document_id user_id d = d.id == document_id && d.user_id == user_id

-- `update(…).where(…)`
abbrev pub update_where {ℓ} : {A : Type ℓ} → (A → Bool) → (A → A) → List A → List A
update_where hit f [] = []
update_where hit f (a ∷ as') = (if hit a then f a else a) ∷ update_where hit f as'

abbrev pub repo_key : ℕ → Text → Document → Bool
repo_key user_id source_url d =
    d.user_id == user_id && is_github_repo d.kind && column_is d.source_url source_url

abbrev pub refresh_repo : Text → Text → Document → Document
refresh_repo project_title raw_text d = record d {
  raw_text = raw_text;
  project_title = some project_title;
  parsed_json = none;
}

-- `d.source_url not in keep`
abbrev pub deselected : List Text → Option Text → Bool
deselected urls none = true
deselected urls (some u) = not (any (λ v. text_eq u v) urls)

abbrev pub gone_repo : ℕ → List Text → Document → Bool
gone_repo user_id selected_urls d =
    d.user_id == user_id && is_github_repo d.kind && deselected selected_urls d.source_url

module _ {V : Type 0} where
  -- `DELETE` of the documents that pass a test, with the cascade.
  unfoldable pub delete_documents : (Document → Bool) → Db V → Db V
  delete_documents gone db = record db {
    documents = keep (λ d. not (gone d)) db.documents;
    mappings =
        keep (λ m. not (any (λ d. d.id == m.document_id && gone d) db.documents)) db.mappings;
  }

  unfoldable pub get_document : Db V → ℕ → ℕ → Option Document
  get_document db document_id user_id = find (document_key document_id user_id) db.documents

  unfoldable pub delete_document : Db V → ℕ → ℕ → Db V × Bool
  unfolding delete_documents
  delete_document db document_id user_id = (
    delete_documents (document_key document_id user_id) db,
    any (document_key document_id user_id) db.documents,
  )

  unfoldable pub update_document_title : Db V → ℕ → ℕ → Text → Db V × Bool
  update_document_title db document_id user_id project_title = (
    record db {
      documents =
          update_where (document_key document_id user_id)
            (λ d. record d { project_title = some project_title }) db.documents;
    },
    any (document_key document_id user_id) db.documents,
  )

  -- A new CV takes the place of the one before.
  unfoldable pub create_document : Db V → ℕ → ℕ → DocKind → Text → Option Text → Db V
  unfolding delete_documents
  create_document db document_id user_id kind raw_text content_hash =
      let db' = delete_documents (λ d. is_cv kind && d.user_id == user_id && is_cv d.kind) db in
      record db' {
        documents =
            db'.documents
            ++ record {
              id = document_id;
              user_id = user_id;
              kind = kind;
              raw_text = raw_text;
              project_title = none;
              source_url = none;
              parsed_json = none;
              content_hash = content_hash;
            }
              ∷ [];
      }

  unfoldable pub find_document_by_content_hash : Db V → ℕ → DocKind → Text → Option Document
  find_document_by_content_hash db user_id kind content_hash =
      find
        (λ d.
          d.user_id == user_id && same_kind kind d.kind && column_is d.content_hash content_hash)
        db.documents

  unfoldable pub list_github_repo_docs_for_user : Db V → ℕ → List Document
  list_github_repo_docs_for_user db user_id =
      keep (λ d. d.user_id == user_id && is_github_repo d.kind) db.documents

  -- `chunked` says which documents have grounding chunks.
  unfoldable pub list_fully_ingested_github_urls : (ℕ → Bool) → Db V → ℕ → List (Option Text)
  list_fully_ingested_github_urls chunked db user_id =
      map (λ d. d.source_url)
        (keep
          (λ d.
            d.user_id == user_id && is_github_repo d.kind && present d.parsed_json && chunked d.id)
          db.documents)

  -- The repository's row, refreshed, or a new one under the id `fresh`; with its id.
  unfoldable pub upsert_github_repo_document : Db V → ℕ → ℕ → Text → Text → Text → Db V × ℕ
  upsert_github_repo_document db fresh user_id source_url project_title raw_text =
      elim (find (repo_key user_id source_url) db.documents) [
        | none ↦ (
          record db {
            documents =
                db.documents
                ++ record {
                  id = fresh;
                  user_id = user_id;
                  kind = github_repo;
                  raw_text = raw_text;
                  project_title = some project_title;
                  source_url = some source_url;
                  parsed_json = none;
                  content_hash = none;
                }
                  ∷ [];
          },
          fresh,
        )
        | some doc ↦ (
          record db {
            documents =
                update_where (repo_key user_id source_url) (refresh_repo project_title raw_text)
                  db.documents;
          },
          doc.id,
        )
      ]

  unfoldable pub set_document_parsed_json : Db V → ℕ → ProjectItem → Db V × Bool
  set_document_parsed_json db document_id parsed = (
    record db {
      documents =
          update_where (λ d. d.id == document_id) (λ d. record d { parsed_json = some parsed })
            db.documents;
    },
    any (λ d. d.id == document_id) db.documents,
  )

  unfoldable pub delete_github_repo_docs_not_selected : Db V → ℕ → List Text → Db V
  unfolding delete_documents
  delete_github_repo_docs_not_selected db user_id selected_urls =
      delete_documents (gone_repo user_id selected_urls) db

  unfoldable pub list_document_mappings : Db V → ℕ → List DocumentMapping
  list_document_mappings db document_id = keep (λ m. m.document_id == document_id) db.mappings

  unfoldable pub list_document_mappings_for_user : Db V → ℕ → List DocumentMapping
  list_document_mappings_for_user db user_id = keep (λ m. m.user_id == user_id) db.mappings

  unfoldable pub delete_document_mappings_for_document : Db V → ℕ → Db V × ℕ
  delete_document_mappings_for_document db document_id = (
    record db { mappings = keep (λ m. not (m.document_id == document_id)) db.mappings },
    length (keep (λ m. m.document_id == document_id) db.mappings),
  )

  unfoldable pub reset_project_doc_mappings_for_user : Db V → ℕ → Db V × ℕ
  reset_project_doc_mappings_for_user db user_id = (
    record db {
      mappings = keep (λ m. not (m.user_id == user_id)) db.mappings;
      documents =
          update_where (λ d. d.user_id == user_id && is_project_doc d.kind)
            (λ d. record d { project_title = none }) db.documents;
    },
    length (keep (λ m. m.user_id == user_id) db.mappings),
  )

  unfoldable pub replace_document_mappings : Db V → ℕ → ℕ → List MappingRow → Db V × ℕ
  replace_document_mappings db document_id user_id rows = (
    record db {
      mappings =
          keep (λ m. not (m.document_id == document_id)) db.mappings
          ++ map (λ r. record { document_id = document_id; user_id = user_id; row = r }) rows;
    },
    length rows,
  )
