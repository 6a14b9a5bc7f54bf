-- ===== src/Tests/Mapping.antt =====
-- A project document mapped onto a profile, taken back, and mapped again.
use interview_coach.Base.{ℕ, ◌≡◌, ◌≢◌, refl, true, Option, none, some, List, [], ◌∷◌, map, arith}
use interview_coach.Text.{codes, member}
use interview_coach.Profile.{Highlight, Experience, Profile}
use interview_coach.Db.Models.{
  cv, project_doc, Document, Extracted, MappingRow, highlight, experience, project, DocumentMapping,
  ProfileRow, Db,
}
use interview_coach.Db.Packet.{get_profile}
use interview_coach.Db.Documents.{list_document_mappings, delete_document}
use interview_coach.Mapping.{
  Applied, applied, value_error, type_error, resolve_extracted_payload, apply_row,
  mutate_profile_apply,
}
use interview_coach.Mapping.Revert.{mutate_profile_revert, strip_rows}
use interview_coach.Mapping.Owned.{without_owned, mutate_profile_revert-without_owned}
use interview_coach.Mapping.Reapply.{
  rows_of, group_rows, listed_rows, reapply_existing_mappings, reapply_existing_mappings-grouped,
}
use interview_coach.Mapping.RoundTrip.{stamp, mutate_profile_revert-apply}
use interview_coach.Prep.Cache.{hit, cached}
use interview_coach.Prep.Mappings.{
  ProfileJson, Changed, changed, failed, store_mapping, apply_mapping, revert_mapping,
  build_profile,
}
use interview_coach.Prep.Mappings.Key.{profile_verdict}
use interview_coach.Prep.Mappings.Writes.{apply_mapping-hit, build_profile-hit}
use interview_coach.Prep.Mappings.Reverted.{revert_mapping-hit}
use interview_coach.Prep.Loop.{Intake, Resume, map_documents}
use interview_coach.Prep.Loop.Ends.{Ended, RowsGiven, map_documents-Ended}

abbrev bullet : Highlight
bullet = record {
  text = codes "Built it";
  tech_stack = codes "python" ∷ [];
  description = none;
  urls = [];
  source_document_ids = [];
}

abbrev job_at : Experience
job_at = record {
  company = codes "Acme";
  role = codes "Dev";
  start = none;
  end = none;
  highlights = bullet ∷ [];
}

abbrev pub me : Profile
me = record {
  summary = codes "Me";
  skills = [];
  experiences = job_at ∷ [];
  projects = [];
  education = [];
}

abbrev pub said : Extracted
said = record { tech_stack = codes "go" ∷ []; description = some (codes "A service"); urls = [] }

abbrev row_at : Option ℕ → Option ℕ → MappingRow
row_at i j = record {
  mapping_kind = highlight;
  experience_idx = i;
  highlight_idx = j;
  project_idx = none;
  extracted_json = none;
}

abbrev rows : List MappingRow
rows =
    row_at (some 0) (some 0)
    ∷ record (row_at (some 0) none) { mapping_kind = experience }
    ∷ record (row_at none none) { mapping_kind = project }
    ∷ []

-- The profile that the rows make
abbrev profile_of : Applied Profile → Profile
profile_of (applied p) = p
profile_of value_error = me
profile_of type_error = me

abbrev mapped_me : Profile
mapped_me = profile_of (mutate_profile_apply me 9 (map (stamp (some said)) rows) (some said))

mutate_profile_revert-apply_example :
    mutate_profile_revert mapped_me 9 (map (stamp (some said)) rows) ≡ me
unfolding member resolve_extracted_payload mutate_profile_apply apply_row
mutate_profile_revert-apply_example =
    mutate_profile_revert-apply me mapped_me 9 (some said) rows
      (record { experiences = refl; projects = refl }) refl refl

mutate_profile_revert-without_owned_example :
    mutate_profile_revert mapped_me 9 rows ≡ without_owned 9 rows (strip_rows 9 rows mapped_me)
mutate_profile_revert-without_owned_example = mutate_profile_revert-without_owned mapped_me 9 rows

-- A row that an earlier CV had an experience for
abbrev stale : List DocumentMapping
stale =
    record { document_id = 9; user_id = 2; row = row_at (some 3) (some 0) }
    ∷ record { document_id = 8; user_id = 2; row = row_at (some 0) (some 0) }
    ∷ []

reapply_existing_mappings-grouped_example :
    ((doc_id : ℕ) → rows_of doc_id (group_rows [] stale) ≡ listed_rows doc_id stale)
    × (reapply_existing_mappings me stale ≢ value_error)
reapply_existing_mappings-grouped_example = reapply_existing_mappings-grouped me stale

-- Profiles stored as they are
abbrev pub as_it_is : ProfileJson Profile
as_it_is = record { model_validate = λ p. some p; model_dump = λ p. p }

abbrev pub paper : Document
paper = record {
  id = 5;
  user_id = 2;
  kind = cv;
  raw_text = codes "CV";
  project_title = none;
  source_url = none;
  parsed_json = none;
  content_hash = none;
}

abbrev pub mine : Db Profile
mine = record {
  sessions = [];
  threads = [];
  messages = [];
  documents = paper ∷ record paper { id = 9; kind = project_doc } ∷ [];
  mappings = [];
  jobs = [];
  profiles = record { user_id = 2; profile_json = me; source_doc_ids = 5 ∷ [] } ∷ [];
  snapshots = [];
}

abbrev db_of : {A : Type 0} → Changed Profile A → Db Profile
db_of (changed db a) = db
db_of (failed e) = mine

abbrev mapped_mine : Db Profile
mapped_mine = db_of (apply_mapping as_it_is mine 9 2 rows (some said) (codes "Service"))

apply_mapping-hit_example : profile_verdict mapped_mine 2 ≡ hit cached
unfolding apply_mapping mutate_profile_apply apply_row store_mapping
apply_mapping-hit_example =
    apply_mapping-hit as_it_is mine mapped_mine 9 2 rows (some said) (codes "Service") 3 refl

build_profile-hit_example :
    profile_verdict (db_of (build_profile as_it_is (λ t. some me) mine 2)) 2 ≡ hit cached
unfolding build_profile
build_profile-hit_example =
    build_profile-hit as_it_is (λ t. some me) mine
      (db_of (build_profile as_it_is (λ t. some me) mine 2)) 2 me refl

abbrev my_row : ProfileRow Profile
my_row = record { user_id = 2; profile_json = me; source_doc_ids = 5 ∷ [] }

-- The document has added a highlight.
abbrev confirmed : Db Profile
confirmed = record mine {
  mappings =
      record {
        document_id = 9;
        user_id = 2;
        row = record (row_at (some 0) none) { mapping_kind = experience };
      }
      ∷ [];
}

cons_not_nil : {A : Type 0} {x : A} {xs : List A} → x ∷ xs ≢ []
cons_not_nil e = cc

revert_mapping-hit_example :
    profile_verdict (delete_document (db_of (revert_mapping as_it_is confirmed 9 2)) 9 2).0 2
    ≡ hit cached
unfolding list_document_mappings get_profile revert_mapping
revert_mapping-hit_example =
    revert_mapping-hit as_it_is confirmed (db_of (revert_mapping as_it_is confirmed 9 2)) 9 2 refl
      my_row cons_not_nil refl refl

abbrev reader : Intake Profile
reader = record {
  answer = λ t p. some (record { title = codes "Service"; extracted = said });
  filename = λ i. codes "service.md";
}

abbrev confirm : ℕ → ℕ → Resume
confirm n i = record { apply = true; rows = rows; title = none; extracted = none }

rows_given : RowsGiven confirm
rows_given n i h = (cons_not_nil, refl)

map_documents-Ended_example :
    Ended as_it_is reader confirm 2 rows_given (map_documents as_it_is reader confirm 2 2 mine [])
map_documents-Ended_example =
    map_documents-Ended as_it_is reader confirm 2 rows_given 2 mine [] (omega arith)
