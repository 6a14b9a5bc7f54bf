-- ===== src/Prep/Nodes.antt =====
-- agents/graph_nodes.py, the nodes of the prep graph that end it, with agents/nodes/job_analyzer.py,
-- agents/nodes/company_researcher.py and the events of agents/prep_events.py. The answers of the
-- language model and of the search come from outside.
pub mod Analysis
pub mod Company
pub mod Degraded
use interview_coach.Base.{
  ℕ, ltb, Bool, true, false, Option, none, some, String, List, [], ◌∷◌, ◌++◌, take, length,
  if◌then◌else◌,
}
use interview_coach.Text.{Text, codes, strip}
use interview_coach.Profile.{Profile}
use interview_coach.Db.Models.{Job, ProfileRow, CompanySnapshotRow, Db}
use interview_coach.Db.Packet.{
  get_job, get_profile, get_company_snapshot_by_job, update_job_parsed_json,
  upsert_company_snapshot,
}
use interview_coach.Interview.State.{Env}
use interview_coach.Interview.Interviewer.{truthy}
use interview_coach.Prep.Cache.{
  SkipVerdict, CacheReason, Parsed, absent, empty, filled, Snapshot, no_snapshot, whole,
  degraded_by, decide_job_cache, decide_company_cache,
}
use interview_coach.Prep.Mappings.{ProfileJson, Changed, changed, failed, build_profile}
use interview_coach.Prep.Mappings.Key.{profile_verdict}

pub data PrepNode : Type 0 where
  profile_builder job_analyzer company_researcher : PrepNode

-- `node_started`, `node_skipped`, `node_done` with its outcome, and `error`
pub data PrepEvent : Type 0 where
  node_started node_skipped : PrepNode → CacheReason → PrepEvent
  node_done : PrepNode → PrepEvent
  node_degraded : PrepNode → Text → PrepEvent
  node_error : PrepNode → PrepEvent

-- What a node ends with: the database and its events, or an exception after them.
pub data NodeRan (V : Type 0) : Type 0 where
  ran : Db V → List PrepEvent → NodeRan V
  died : Db V → List PrepEvent → NodeRan V

-- `_gather_pages` and the model's reading of the pages
pub data Research (V : Type 0) : Type 0 where
  no_search_hits no_usable_pages research_failed : Research V
  found : V → Research V

pub record PrepWorld (V : Type 0) : Type 0 where
  pub analysis : Text → Option V
  -- `parsed.get("company_name") or ""`
  pub company_name : V → Text
  pub research : Text → Research V
  -- `CompanySnapshot.model_validate` accepts the value.
  pub is_snapshot : V → Bool
  -- The `_degraded` member
  pub degrade_reason : V → Option Text
  pub placeholder : Text → V

-- `emit_verdict`
abbrev pub verdict_event : PrepNode → SkipVerdict → PrepEvent
verdict_event node v = if v.skip then node_skipped node v.reason else node_started node v.reason

-- `text[:MAX_JD_CHARS] + "\n…[truncated]"`, if the text is longer
abbrev pub jd_window : Text → Text
jd_window t = if ltb 12000 (length t) then take 12000 t ++ 10 ∷ 8230 ∷ codes "[truncated]" else t

module _ {V : Type 0} (json : ProfileJson V) (extract : Text → Option Profile) where
  abbrev pub built_node : Db V → SkipVerdict → Changed V Profile → NodeRan V
  built_node db v (changed db' p) =
      ran db' (verdict_event profile_builder v ∷ node_done profile_builder ∷ [])
  built_node db v (failed e) =
      died db (verdict_event profile_builder v ∷ node_error profile_builder ∷ [])

  unfoldable pub node_profile_builder : Db V → ℕ → NodeRan V
  unfolding profile_verdict build_profile
  node_profile_builder db user_id =
      let v = profile_verdict db user_id in
      if v.skip
      then ran db (verdict_event profile_builder v ∷ [])
      else built_node db v (build_profile json extract db user_id)

module _ {V : Type 0} (env : Env V) (world : PrepWorld V) where
  -- `parsed_json` in a test
  abbrev pub parsed_of : Option V → Parsed
  parsed_of none = absent
  parsed_of (some v) = if truthy (env.shape v) then filled else empty

  abbrev pub analyzed_as : Db V → ℕ → ℕ → SkipVerdict → Option V → NodeRan V
  analyzed_as db job_id user_id v none = died db (verdict_event job_analyzer v ∷ [])
  analyzed_as db job_id user_id v (some a) =
      ran (update_job_parsed_json db job_id user_id a).0
        (verdict_event job_analyzer v ∷ node_done job_analyzer ∷ [])

  abbrev pub analyze : Db V → ℕ → ℕ → Option (Job V) → NodeRan V
  analyze db job_id user_id none = died db (node_error job_analyzer ∷ [])
  analyze db job_id user_id (some job) =
      let v = decide_job_cache (parsed_of job.parsed_json) in
      if v.skip
      then ran db (verdict_event job_analyzer v ∷ [])
      else analyzed_as db job_id user_id v (world.analysis (jd_window job.raw_text))

  unfoldable pub node_job_analyzer : Db V → ℕ → ℕ → NodeRan V
  unfolding get_job update_job_parsed_json decide_job_cache
  node_job_analyzer db job_id user_id = analyze db job_id user_id (get_job db job_id user_id)

  -- How `research_company` ends; the soft failures by their name.
  pub data Researched : Type 0 where
    researched : Db V → Researched
    soft : Text → Researched
    not_analyzed : Researched
    research_raised : Researched

  abbrev pub store_research : Db V → ℕ → Text → Research V → Researched
  store_research db job_id company no_search_hits = soft (codes "NoSearchHits")
  store_research db job_id company no_usable_pages = soft (codes "NoUsablePages")
  store_research db job_id company research_failed = research_raised
  store_research db job_id company (found v) =
      researched (upsert_company_snapshot db job_id company v)

  -- A snapshot that is there is returned, unless the refresh is forced.
  abbrev pub research_or_reuse : Db V → ℕ → Text → Bool → Option (CompanySnapshotRow V) → Researched
  research_or_reuse db job_id company true existing =
      store_research db job_id company (world.research company)
  research_or_reuse db job_id company false none =
      store_research db job_id company (world.research company)
  research_or_reuse db job_id company false (some row) =
      if world.is_snapshot row.snapshot_json then researched db else research_raised

  abbrev pub research_named : Db V → ℕ → Bool → Text → Researched
  research_named db job_id force_refresh [] = soft (codes "CompanyNameMissing")
  research_named db job_id force_refresh (c ∷ s) =
      research_or_reuse db job_id (c ∷ s) force_refresh (get_company_snapshot_by_job db job_id)

  abbrev pub research_job : Db V → ℕ → Bool → Option (Job V) → Researched
  research_job db job_id force_refresh none = not_analyzed
  research_job db job_id force_refresh (some job) = elim job.parsed_json [
    | none ↦ not_analyzed
    | some v ↦
        if truthy (env.shape v)
        then research_named db job_id force_refresh (strip (world.company_name v))
        else not_analyzed
  ]

  unfoldable pub research_company : Db V → ℕ → ℕ → Bool → Researched
  unfolding get_job get_company_snapshot_by_job upsert_company_snapshot
  research_company db job_id user_id force_refresh =
      research_job db job_id force_refresh (get_job db job_id user_id)

  abbrev pub cache_snapshot : Option (CompanySnapshotRow V) → Snapshot
  cache_snapshot none = no_snapshot
  cache_snapshot (some row) = elim (world.degrade_reason row.snapshot_json) [
    | none ↦ whole
    | some reason ↦ degraded_by reason
  ]

  -- The name for the placeholder: the analyzed one, or "Unknown company".
  abbrev pub name_or_unknown : Text → Text
  name_or_unknown [] = codes "Unknown company"
  name_or_unknown (c ∷ s) = c ∷ s

  abbrev pub placeholder_name : Option (Job V) → Text
  placeholder_name none = codes "Unknown company"
  placeholder_name (some job) = elim job.parsed_json [
    | none ↦ codes "Unknown company"
    | some v ↦ name_or_unknown (world.company_name v)
  ]

  abbrev pub after_research : Db V → ℕ → ℕ → SkipVerdict → Researched → NodeRan V
  after_research db job_id user_id v (researched db') =
      ran db' (verdict_event company_researcher v ∷ node_done company_researcher ∷ [])
  after_research db job_id user_id v (soft reason) =
      ran
        (upsert_company_snapshot db job_id (placeholder_name (get_job db job_id user_id))
          (world.placeholder reason))
        (verdict_event company_researcher v ∷ node_degraded company_researcher reason ∷ [])
  after_research db job_id user_id v not_analyzed =
      died db (verdict_event company_researcher v ∷ node_error company_researcher ∷ [])
  after_research db job_id user_id v research_raised =
      died db (verdict_event company_researcher v ∷ [])

  abbrev pub company_verdict : Db V → ℕ → Bool → SkipVerdict
  company_verdict db job_id force_refresh =
      decide_company_cache (cache_snapshot (get_company_snapshot_by_job db job_id)) force_refresh

  unfoldable pub node_company_researcher : Db V → ℕ → ℕ → Bool → NodeRan V
  unfolding decide_company_cache research_company get_job upsert_company_snapshot
      get_company_snapshot_by_job
  node_company_researcher db job_id user_id force_refresh =
      let v = company_verdict db job_id force_refresh in
      if v.skip
      then ran db (verdict_event company_researcher v ∷ [])
      else after_research db job_id user_id v (research_company db job_id user_id force_refresh)

  abbrev pub then_company : ℕ → ℕ → Bool → NodeRan V → NodeRan V
  then_company job_id user_id force_refresh (died db evs) = died db evs
  then_company job_id user_id force_refresh (ran db evs) =
      elim (node_company_researcher db job_id user_id force_refresh) [
        | ran db' evs' ↦ ran db' (evs ++ evs')
        | died db' evs' ↦ died db' (evs ++ evs')
      ]

  -- The end of the graph: `job_analyzer → company_researcher → END`.
  unfoldable pub finish_prep : Db V → ℕ → ℕ → Bool → NodeRan V
  unfolding node_job_analyzer node_company_researcher
  finish_prep db job_id user_id force_refresh =
      then_company job_id user_id force_refresh (node_job_analyzer db job_id user_id)
