-- ===== src/Prep/Nodes/Company.antt =====
-- agents/graph_nodes.py, `node_company_researcher`: what the preparation leaves for the interview.
use interview_coach.Base.{
  ℕ, ◌≡◌, refl, ap, subst, ◌∙◌, Bool, true, false, Option, none, some, List, [], ◌∷◌, ◌++◌, find,
  ◌==◌, if◌then◌else◌, arith,
}
use interview_coach.Text.{Text, strip}
use interview_coach.Db.Models.{Job, CompanySnapshotRow, Db}
use interview_coach.Db.Packet.{
  get_job, get_company_snapshot_by_job, job_key, upsert_company_snapshot,
}
use interview_coach.Db.Documents.{present, update_where}
use interview_coach.Interview.State.{Env}
use interview_coach.Interview.Interviewer.{truthy}
use interview_coach.Prep.Cache.{SkipVerdict, decide_present, decide_company_cache}
use interview_coach.Prep.Nodes.{
  NodeRan, ran, died, PrepWorld, Research, no_search_hits, no_usable_pages, research_failed, found,
  PrepEvent, node_job_analyzer, Researched, researched, soft, not_analyzed, research_raised,
  store_research, research_or_reuse, research_named, research_job, research_company, cache_snapshot,
  after_research, company_verdict, node_company_researcher, then_company, finish_prep,
}
use interview_coach.Prep.Nodes.Analysis.{
  find-update_where, ran_injective, Analyzed, node_job_analyzer-Analyzed,
}

find_appended :
    {A : Type 0} (hit : A → Bool) (xs : List A) (a : A)
    → hit a ≡ true
    → present (find hit (xs ++ a ∷ [])) ≡ true
find_appended hit [] a h = ground (arith, h)
find_appended hit (x ∷ xs) a h = ground (arith, find_appended hit xs a h)

module _ {V : Type 0} where
  -- The row after an upsert
  upserted :
      (job_id : ℕ) (name : Text) (v : V) (rows : List (CompanySnapshotRow V))
      (o : Option (CompanySnapshotRow V))
      → find (λ s. s.job_id == job_id) rows ≡ o
      → present (
          find
            (λ s. s.job_id == job_id)
            (elim o [
              | none ↦
                  rows ++ record { job_id = job_id; company_name = name; snapshot_json = v } ∷ []
              | some existing ↦
                  update_where
                    (λ s. s.job_id == job_id)
                    (λ s. record s { company_name = name; snapshot_json = v })
                    rows
            ]))
        ≡ true
  upserted job_id name v rows none h = find_appended (λ s. s.job_id == job_id) rows _ (ground arith)
  upserted job_id name v rows (some row) h = ap present (
      find-update_where (λ s. s.job_id == job_id)
        (λ s. record s { company_name = name; snapshot_json = v }) (λ x. refl) rows row h)

  upsert-present :
      (db : Db V) (job_id : ℕ) (name : Text) (v : V)
      → present (get_company_snapshot_by_job (upsert_company_snapshot db job_id name v) job_id)
        ≡ true
  unfolding upsert_company_snapshot get_company_snapshot_by_job
  upsert-present db job_id name v = upserted job_id name v db.snapshots _ refl

module _ {V : Type 0} (env : Env V) (world : PrepWorld V) (job_id user_id : ℕ) where
  -- And its company is researched.
  pub record Prepared (db : Db V) : Type 0 where
    pub job : Analyzed env world job_id user_id db
    pub company : present (get_company_snapshot_by_job db job_id) ≡ true

  -- The company
  module _ (db : Db V) (a : Analyzed env world job_id user_id db) where
    -- What the research leaves, if it ends well: the jobs, and a snapshot.
    abbrev Left : Researched env world → Type 0
    Left (researched db') =
        (db'.jobs ≡ db.jobs) × (present (get_company_snapshot_by_job db' job_id) ≡ true)
    Left (soft reason) = Unit
    Left not_analyzed = Unit
    Left research_raised = Unit

    store_research-Left :
        (name : Text) (r : Research V) → Left (store_research env world db job_id name r)
    unfolding upsert_company_snapshot
    store_research-Left name no_search_hits = tt
    store_research-Left name no_usable_pages = tt
    store_research-Left name research_failed = tt
    store_research-Left name (found v) = (refl, upsert-present db job_id name v)

    reuse-Left :
        (b : Bool) (o : Option (CompanySnapshotRow V)) (row : CompanySnapshotRow V)
        → get_company_snapshot_by_job db job_id ≡ some row
        → Left (if b then researched db else research_raised)
    reuse-Left true o row h = (refl, ap present h)
    reuse-Left false o row h = tt

    research_or_reuse-Left :
        (name : Text) (force : Bool) (o : Option (CompanySnapshotRow V))
        → get_company_snapshot_by_job db job_id ≡ o
        → Left (research_or_reuse env world db job_id name force o)
    research_or_reuse-Left name true o h = store_research-Left name (world.research name)
    research_or_reuse-Left name false none h = store_research-Left name (world.research name)
    research_or_reuse-Left name false (some row) h =
        reuse-Left (world.is_snapshot row.snapshot_json) none row h

    research_named-Left :
        (force : Bool) (name : Text) → Left (research_named env world db job_id force name)
    research_named-Left force [] = tt
    research_named-Left force (c ∷ s) = research_or_reuse-Left (c ∷ s) force _ refl

    if_truthy-Left :
        (b : Bool) (r : Researched env world) → Left r → Left (if b then r else not_analyzed)
    if_truthy-Left true r l = l
    if_truthy-Left false r l = tt

    parsed-Left :
        (force : Bool) (o : Option V)
        → Left (elim o [
          | none ↦ not_analyzed
          | some v ↦
              if truthy (env.shape v)
              then research_named env world db job_id force (strip (world.company_name v))
              else not_analyzed
        ])
    parsed-Left force none = tt
    parsed-Left force (some v) =
        if_truthy-Left (truthy (env.shape v)) _
          (research_named-Left force (strip (world.company_name v)))

    research_job-Left :
        (force : Bool) (o : Option (Job V)) → Left (research_job env world db job_id force o)
    research_job-Left force none = tt
    research_job-Left force (some job) = parsed-Left force job.parsed_json

    moved : (db' : Db V) → db'.jobs ≡ db.jobs → Analyzed env world job_id user_id db'
    unfolding get_job
    moved db' e = record {
      job = a.job;
      here = ap (find (job_key job_id user_id)) e ∙ a.here;
      done = a.done;
    }

    after_research-Prepared :
        (db' : Db V) (v : SkipVerdict) (r : Researched env world) (evs : List PrepEvent)
        → Left r
        → after_research env world db job_id user_id v r ≡ ran db' evs
        → Prepared db'
    unfolding upsert_company_snapshot
    after_research-Prepared db' v (researched db1) evs l e =
        subst Prepared (ran_injective e) (record { job = moved db1 l.0; company = l.1 })
    after_research-Prepared db' v (soft reason) evs l e = subst Prepared (ran_injective e) (record {
      job = moved _ refl;
      company = upsert-present db job_id _ (world.placeholder reason);
    })
    after_research-Prepared db' v not_analyzed evs l e = cc
    after_research-Prepared db' v research_raised evs l e = cc

    -- A verdict that skips has seen a snapshot.
    hit_present :
        (force : Bool) (o : Option (CompanySnapshotRow V))
        → (decide_company_cache (cache_snapshot env world o) force).skip ≡ true
        → present o ≡ true
    unfolding decide_company_cache decide_present
    hit_present true none h = h
    hit_present false none h = h
    hit_present force (some row) h = refl

    company_by_skip :
        (db' : Db V) (force b : Bool) (evs hits : List PrepEvent)
        → (company_verdict env world db job_id force).skip ≡ b
        → (if b
            then ran db hits
            else after_research env world db job_id user_id
                (company_verdict env world db job_id force)
                (research_company env world db job_id user_id force))
          ≡ ran db' evs
        → Prepared db'
    unfolding research_company
    company_by_skip db' force true evs hits h e =
        subst Prepared (ran_injective e) (record { job = a; company = hit_present force _ h })
    company_by_skip db' force false evs hits h e =
        after_research-Prepared db' _ _ evs (research_job-Left force _) e

    node_company_researcher-Prepared :
        (db' : Db V) (force : Bool) (evs : List PrepEvent)
        → node_company_researcher env world db job_id user_id force ≡ ran db' evs
        → Prepared db'
    unfolding node_company_researcher
    node_company_researcher-Prepared db' force evs e =
        company_by_skip db' force (company_verdict env world db job_id force).skip evs _ refl e

  module _
      (truthy_analysis : (t : Text) (v : V)
        → world.analysis t ≡ some v
        → truthy (env.shape v) ≡ true) where
    company_ran :
        (r : NodeRan V) (db' : Db V) (evs es : List PrepEvent)
        → (elim r [ ran db2 es2 ↦ ran db2 (es ++ es2) | died db2 es2 ↦ died db2 (es ++ es2) ])
          ≡ ran db' evs
        → (es' : List PrepEvent) × (r ≡ ran db' es')
    company_ran (ran db2 es2) db' evs es e = (es2, ap (λ u. ran u es2) (ran_injective e))
    company_ran (died db2 es2) db' evs es e = cc

    finish_by_job :
        (db db' : Db V) (force : Bool) (r : NodeRan V) (evs : List PrepEvent)
        → node_job_analyzer env world db job_id user_id ≡ r
        → then_company env world job_id user_id force r ≡ ran db' evs
        → Prepared db'
    finish_by_job db db' force (died db1 es) evs h e = cc
    finish_by_job db db' force (ran db1 es) evs h e =
        let (es', k) = company_ran _ db' evs es e in
        node_company_researcher-Prepared db1
          (node_job_analyzer-Analyzed env world job_id user_id truthy_analysis db db1 es h) db'
          force es' k

    -- If the analysis of a job is never empty, then, when the last two nodes of the preparation have
    -- ended without an exception, the job is there and analyzed and its company is researched, also
    -- where the research has failed softly.
    pub finish_prep-Prepared :
        (db db' : Db V) (force : Bool) (evs : List PrepEvent)
        → finish_prep env world db job_id user_id force ≡ ran db' evs
        → Prepared db'
    unfolding finish_prep
    finish_prep-Prepared db db' force evs e = finish_by_job db db' force _ evs refl e
