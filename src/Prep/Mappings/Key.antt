-- ===== src/Prep/Mappings/Key.antt =====
-- agents/graph_nodes.py: the verdict of `node_profile_builder` on the profile that is stored.
use interview_coach.Base.{
  ℕ, ◌≡◌, refl, sym, ap, ◌∙◌, true, false, Option, none, some, List, [], ◌∷◌, ◌++◌, find, ◌==◌,
  arith,
}
use interview_coach.Db.Models.{ProfileRow, Db}
use interview_coach.Db.Packet.{get_profile, upsert_profile}
use interview_coach.Db.Documents.{update_where}
use interview_coach.Prep.Cache.{SkipVerdict, hit, cached, decide_profile_cache}
use interview_coach.Prep.Cache.Sets.{has, SameSet, SameSet-same_ids}
use interview_coach.Prep.Readiness.{
  list_documents_for_user, list_document_mapping_doc_ids_for_user, current_profile_doc_ids,
}
use interview_coach.Prep.Mappings.{changed}

module _ {V : Type 0} where
  abbrev verdict_of : Db V → ℕ → Option (ProfileRow V) → SkipVerdict
  verdict_of db user_id none = decide_profile_cache false none []
  verdict_of db user_id (some row) =
      decide_profile_cache true (some row.source_doc_ids) (current_profile_doc_ids db user_id)

  -- The verdict that `node_profile_builder` takes.
  unfoldable pub profile_verdict : Db V → ℕ → SkipVerdict
  unfolding get_profile decide_profile_cache current_profile_doc_ids
  profile_verdict db user_id = verdict_of db user_id (get_profile db user_id)

  -- What a stored profile is.
  pub record Stored (db : Db V) (user_id : ℕ) (v : V) (ids : List ℕ) : Type 0 where
    pub row : ProfileRow V
    pub here : get_profile db user_id ≡ some row
    pub json : row.profile_json ≡ v
    pub ids_stored : row.source_doc_ids ≡ ids

  find_new :
      (user_id : ℕ) (row : ProfileRow V) (rows : List (ProfileRow V))
      → row.user_id ≡ user_id
      → find (λ p. p.user_id == user_id) rows ≡ none
      → find (λ p. p.user_id == user_id) (rows ++ row ∷ []) ≡ some row
  find_new user_id row [] e h = ground (arith, e)
  find_new user_id row (p ∷ rows) e h = ground (arith, find_new user_id row rows e)

  find_updated :
      (user_id : ℕ) (v : V) (ids : List ℕ) (row : ProfileRow V) (rows : List (ProfileRow V))
      → find (λ p. p.user_id == user_id) rows ≡ some row
      → find
          (λ p. p.user_id == user_id)
          (update_where
            (λ p. p.user_id == user_id)
            (λ p. record p { profile_json = v; source_doc_ids = ids })
            rows)
        ≡ some (record row { profile_json = v; source_doc_ids = ids })
  find_updated user_id v ids row [] h = cc
  find_updated user_id v ids row (p ∷ rows) h = ground (arith, find_updated user_id v ids row rows)

  -- The profiles after the write, by what the query before it has found
  abbrev profiles_after : Db V → ℕ → V → List ℕ → Option (ProfileRow V) → List (ProfileRow V)
  profiles_after db user_id v ids none =
      db.profiles ++ record { user_id = user_id; profile_json = v; source_doc_ids = ids } ∷ []
  profiles_after db user_id v ids (some existing) =
      update_where (λ p. p.user_id == user_id)
        (λ p. record p { profile_json = v; source_doc_ids = ids }) db.profiles

  upsert_profile-profiles :
      (db : Db V) (user_id : ℕ) (v : V) (ids : List ℕ) (o : Option (ProfileRow V))
      → get_profile db user_id ≡ o
      → get_profile (upsert_profile db user_id v ids) user_id
        ≡ find (λ p. p.user_id == user_id) (profiles_after db user_id v ids o)
  unfolding upsert_profile get_profile
  upsert_profile-profiles db user_id v ids none e =
      ap
        (λ o.
          find (λ p. p.user_id == user_id)
            (elim o [
              | none ↦ profiles_after db user_id v ids none
              | some p ↦ profiles_after db user_id v ids (some p)
            ]))
        e
  upsert_profile-profiles db user_id v ids (some row) e =
      ap
        (λ o.
          find (λ p. p.user_id == user_id)
            (elim o [
              | none ↦ profiles_after db user_id v ids none
              | some p ↦ profiles_after db user_id v ids (some p)
            ]))
        e

  stored_by :
      (db : Db V) (user_id : ℕ) (v : V) (ids : List ℕ) (o : Option (ProfileRow V))
      → get_profile db user_id ≡ o
      → Stored (upsert_profile db user_id v ids) user_id v ids
  unfolding get_profile
  stored_by db user_id v ids none e =
      let new : ProfileRow V = record {
        user_id = user_id;
        profile_json = v;
        source_doc_ids = ids;
      } in
      record {
        row = new;
        here =
            upsert_profile-profiles db user_id v ids none e
            ∙ find_new user_id new db.profiles refl e;
        json = refl;
        ids_stored = refl;
      }
  stored_by db user_id v ids (some row) e = record {
    row = record row { profile_json = v; source_doc_ids = ids };
    here =
        upsert_profile-profiles db user_id v ids (some row) e
        ∙ find_updated user_id v ids row db.profiles e;
    json = refl;
    ids_stored = refl;
  }

  pub upsert_profile-Stored :
      (db : Db V) (user_id : ℕ) (v : V) (ids : List ℕ)
      → Stored (upsert_profile db user_id v ids) user_id v ids
  upsert_profile-Stored db user_id v ids = stored_by db user_id v ids (get_profile db user_id) refl

  -- A profile that is stored with document ids that are, as a set, the current ones is reused.
  pub profile_verdict-hit :
      (db : Db V) (user_id : ℕ) (v : V) (ids : List ℕ)
      → Stored db user_id v ids
      → SameSet ids (current_profile_doc_ids db user_id)
      → profile_verdict db user_id ≡ hit cached
  unfolding profile_verdict decide_profile_cache
  profile_verdict-hit db user_id v ids st h =
      ap (verdict_of db user_id) st.here
      ∙ ap (λ xs. decide_profile_cache true (some xs) (current_profile_doc_ids db user_id))
          st.ids_stored
      ∙ ground (arith, SameSet-same_ids ids (current_profile_doc_ids db user_id) h)

  -- The profiles have no part in the document ids.
  current_ids-upsert_profile :
      (db : Db V) (user_id : ℕ) (v : V) (ids : List ℕ)
      → current_profile_doc_ids (upsert_profile db user_id v ids) user_id
        ≡ current_profile_doc_ids db user_id
  unfolding upsert_profile current_profile_doc_ids list_documents_for_user
      list_document_mapping_doc_ids_for_user
  current_ids-upsert_profile db user_id v ids = refl

  pub upsert-hit :
      (db : Db V) (user_id : ℕ) (v : V)
      → profile_verdict (upsert_profile db user_id v (current_profile_doc_ids db user_id)) user_id
        ≡ hit cached
  upsert-hit db user_id v =
      let ids = current_profile_doc_ids db user_id in
      profile_verdict-hit (upsert_profile db user_id v ids) user_id v ids
        (upsert_profile-Stored db user_id v ids)
        (λ x. ap (has x) (sym (current_ids-upsert_profile db user_id v ids)))

  pub changed_injective :
      {A : Type 0} {db db' : Db V} {a a' : A} → changed db a ≡ changed db' a' → db ≡ db'
  changed_injective e = cc
