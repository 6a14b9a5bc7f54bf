-- ===== src/Prep/Nodes/Degraded.antt =====
-- agents/graph_nodes.py, `node_company_researcher`, and agents/nodes/company_researcher.py: the run
-- that a degraded snapshot asks for.
use interview_coach.Base.{ℕ, ◌≡◌, ap, ◌∙◌, true, false, none, some, [], ◌∷◌, if◌then◌else◌}
use interview_coach.Text.{Text, strip}
use interview_coach.Db.Models.{Job, CompanySnapshotRow, Db}
use interview_coach.Db.Packet.{get_job, get_company_snapshot_by_job}
use interview_coach.Interview.State.{Env}
use interview_coach.Interview.Interviewer.{truthy}
use interview_coach.Prep.Cache.{
  whole, degraded_by, degraded, hit, cached, miss, retry_worthy, decide_present,
  decide_company_cache,
}
use interview_coach.Prep.Nodes.{
  ran, PrepWorld, node_started, node_done, company_researcher, verdict_event, researched,
  research_raised, not_analyzed, research_or_reuse, research_named, research_job, research_company,
  cache_snapshot, after_research, company_verdict, node_company_researcher,
}

module _ {V : Type 0} (env : Env V) (world : PrepWorld V) (db : Db V) (job_id user_id : ℕ)
    (row : CompanySnapshotRow V) (reason : Text)
    (snapshot : get_company_snapshot_by_job db job_id ≡ some row)
    (marked : world.degrade_reason row.snapshot_json ≡ some reason)
    (transient : retry_worthy reason ≡ true) where
  verdict_degraded : company_verdict env world db job_id false ≡ miss degraded
  unfolding decide_company_cache decide_present
  verdict_degraded =
      ap (λ o. decide_company_cache (cache_snapshot env world o) false) snapshot
      ∙ ap (λ r. decide_company_cache (elim r [ none ↦ whole | some m ↦ degraded_by m ]) false)
          marked
      ∙ ap (λ b. if b then miss degraded else hit cached) transient

  module _ (job : Job V) (parsed : V) (c : ℕ) (s : Text)
      (found : get_job db job_id user_id ≡ some job) (analyzed : job.parsed_json ≡ some parsed)
      (full : truthy (env.shape parsed) ≡ true) (named : strip (world.company_name parsed) ≡ c ∷ s)
      (readable : world.is_snapshot row.snapshot_json ≡ true) where
    research_reuses : research_company env world db job_id user_id false ≡ researched db
    unfolding research_company
    research_reuses =
        ap (research_job env world db job_id false) found
        ∙ ap
            (λ o. elim o [
              | none ↦ not_analyzed
              | some v ↦
                  if truthy (env.shape v)
                  then research_named env world db job_id false (strip (world.company_name v))
                  else not_analyzed
            ])
            analyzed
        ∙ ap
            (λ b.
              if b
              then research_named env world db job_id false (strip (world.company_name parsed))
              else not_analyzed)
            full
        ∙ ap (research_named env world db job_id false) named
        ∙ ap (research_or_reuse env world db job_id (c ∷ s) false) snapshot
        ∙ ap (λ b. if b then researched db else research_raised) readable

    -- If the stored snapshot carries a transient degradation, the job is analyzed with a company
    -- name, and the snapshot fits the schema, then a run without a forced refresh announces that it
    -- starts because of the degradation and that it is done, but asks neither the search nor the
    -- model and leaves the database as it was.
    pub node_company_researcher-degraded :
        node_company_researcher env world db job_id user_id false
        ≡ ran db (node_started company_researcher degraded ∷ node_done company_researcher ∷ [])
    unfolding node_company_researcher
    node_company_researcher-degraded = λ i.
        if (verdict_degraded i).skip
        then ran db (verdict_event company_researcher (verdict_degraded i) ∷ [])
        else after_research env world db job_id user_id (verdict_degraded i) (research_reuses i)
