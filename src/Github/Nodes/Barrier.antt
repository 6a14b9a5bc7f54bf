-- ===== src/Github/Nodes/Barrier.antt =====
-- agents/nodes/github_ingest.py: the fold of the ingested projects into the profile, and the barrier
-- before it.
use interview_coach.Base.{
  ℕ, ◌≡◌, refl, sym, ap, subst, ◌∙◌, true, not, ◌&&◌, Option, none, some, List, [], ◌∷◌, ◌++◌, All,
  keep, keep-append, length, append-nil, ◌==◌, arith,
}
use interview_coach.Profile.{ProjectItem, Profile}
use interview_coach.Db.Models.{Document, ProfileRow, Db}
use interview_coach.Db.Packet.{get_profile, upsert_profile}
use interview_coach.Db.Documents.{is_github_repo, list_github_repo_docs_for_user}
use interview_coach.Mapping.{set_projects}
use interview_coach.Prep.Readiness.{current_profile_doc_ids}
use interview_coach.Prep.Cache.{hit, cached}
use interview_coach.Prep.Mappings.{ProfileJson}
use interview_coach.Prep.Mappings.Key.{profile_verdict, Stored, upsert_profile-Stored, upsert-hit}
use interview_coach.Github.Ingest.{Outside}
use interview_coach.Github.Nodes.{
  is_github_source, parsed_projects, folded_projects, folded, fold_github_projects,
}

-- The projects that are not from GitHub
abbrev pub others : List ProjectItem → List ProjectItem
others ps = keep (λ p. not (is_github_source p.source)) ps

abbrev pub AllGithub : List ProjectItem → Type 0
AllGithub ps = All (λ p. is_github_source p.source ≡ true) ps

others-github : (ps : List ProjectItem) → AllGithub ps → others ps ≡ []
others-github [] h = refl
others-github (p ∷ ps) (h, hs) = ground (arith, h, others-github ps hs)

others_twice : (ps : List ProjectItem) → others (others ps) ≡ others ps
others_twice [] = refl
others_twice (p ∷ ps) = ground (arith, others_twice ps)

module _ {V : Type 0} (json : ProfileJson V) (world : Outside V) where
  refolded :
      (ps : List ProjectItem) (docs : List Document)
      → AllGithub (parsed_projects docs)
      → folded_projects json world (folded_projects json world ps docs) docs
        ≡ folded_projects json world ps docs
  refolded ps docs h =
      ap (λ qs. qs ++ parsed_projects docs)
        (keep-append (λ p. not (is_github_source p.source)) (others ps) (parsed_projects docs)
          ∙ ap (λ qs. others (others ps) ++ qs) (others-github (parsed_projects docs) h)
          ∙ append-nil (others (others ps))
          ∙ others_twice ps)

  module _ (user_id : ℕ) where
    -- The profile with the projects that are ingested now
    abbrev pub now_folded : Db V → Profile → Profile
    now_folded db p =
        set_projects p
          (others p.projects ++ parsed_projects (list_github_repo_docs_for_user db user_id))

    -- What the fold of the profile `p` has done.
    pub record Folded (db : Db V) (p : Profile) (r : Option (Db V × ℕ)) : Type 0 where
      pub db' : Db V
      pub done :
          r ≡ some (db', length (parsed_projects (list_github_repo_docs_for_user db user_id)))
      pub stored :
          Stored db' user_id
            (json.model_dump (now_folded db p))
            (current_profile_doc_ids db user_id)
      pub reused : profile_verdict db' user_id ≡ hit cached
      pub documents : db'.documents ≡ db.documents
      pub mappings : db'.mappings ≡ db.mappings

    folded-Folded :
        (db : Db V) (p : Profile)
        → Folded db p
            (folded json world db user_id (list_github_repo_docs_for_user db user_id) (some p))
    unfolding upsert_profile
    folded-Folded db p = record {
      db' =
          upsert_profile db user_id (json.model_dump (now_folded db p))
            (current_profile_doc_ids db user_id);
      done = refl;
      stored =
          upsert_profile-Stored db user_id (json.model_dump (now_folded db p))
            (current_profile_doc_ids db user_id);
      reused = upsert-hit db user_id (json.model_dump (now_folded db p));
      documents = refl;
      mappings = refl;
    }

    fold-Folded :
        (db : Db V) (row : ProfileRow V) (p : Profile)
        → get_profile db user_id ≡ some row
        → json.model_validate row.profile_json ≡ some p
        → Folded db p (fold_github_projects json world db user_id)
    unfolding fold_github_projects
    fold-Folded db row p h k =
        subst (Folded db p)
          (sym (
            ap
              (λ o. elim o [
                | none ↦ some (db, 0)
                | some r ↦
                    folded json world db user_id (list_github_repo_docs_for_user db user_id)
                      (json.model_validate r.profile_json)
              ])
              h
            ∙ ap (folded json world db user_id (list_github_repo_docs_for_user db user_id)) k))
          (folded-Folded db p)

    docs_same :
        (db db' : Db V)
        → db'.documents ≡ db.documents
        → list_github_repo_docs_for_user db' user_id ≡ list_github_repo_docs_for_user db user_id
    unfolding list_github_repo_docs_for_user
    docs_same db db' e = ap (λ ds. keep (λ d. d.user_id == user_id && is_github_repo d.kind) ds) e

    -- Folding once more changes nothing.
    pub record Refolded (db : Db V) (p : Profile) : Type 0 where
      pub first : Folded db p (fold_github_projects json world db user_id)
      pub second :
          Folded first.db' (now_folded db p) (fold_github_projects json world first.db' user_id)
      pub same : now_folded first.db' (now_folded db p) ≡ now_folded db p

    -- If a profile that was dumped is read back as it was, the user has a profile, and the projects of
    -- the user's repositories are marked as from GitHub, then the fold keeps the projects that are not
    -- from GitHub, in their order, puts those of the repositories after them, stores the profile with
    -- the current document ids, so that the preparation reuses it, and a second fold stores the same.
    pub fold_github_projects-Refolded :
        ((q : Profile) → json.model_validate (json.model_dump q) ≡ some q)
        → (db : Db V) (row : ProfileRow V) (p : Profile) → get_profile db user_id ≡ some row
        → json.model_validate row.profile_json ≡ some p
        → AllGithub (parsed_projects (list_github_repo_docs_for_user db user_id))
        → Refolded db p
    fold_github_projects-Refolded lawful db row p h k a =
        let first = fold-Folded db row p h k in
        record {
          first = first;
          second =
              fold-Folded first.db' first.stored.row (now_folded db p) first.stored.here
                (ap json.model_validate first.stored.json ∙ lawful (now_folded db p));
          same =
              ap
                (λ ds. set_projects p (
                  others (
                    others p.projects
                    ++ parsed_projects (list_github_repo_docs_for_user db user_id))
                  ++ parsed_projects ds))
                (docs_same db first.db' first.documents)
              ∙ ap (set_projects p)
                  (refolded p.projects (list_github_repo_docs_for_user db user_id) a);
        }
