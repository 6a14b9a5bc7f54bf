-- ===== src/Prep/Nodes/Analysis.antt =====
-- agents/graph_nodes.py, `node_job_analyzer`: the job is there and analyzed.
use interview_coach.Base.{
  ℕ, ◌≡◌, refl, sym, subst, Bool, true, false, Option, none, some, List, [], ◌∷◌, find,
  if◌then◌else◌, arith,
}
use interview_coach.Text.{Text}
use interview_coach.Db.Models.{Job, Db}
use interview_coach.Db.Packet.{get_job, job_key, update_job_parsed_json}
use interview_coach.Db.Documents.{update_where}
use interview_coach.Interview.State.{Env}
use interview_coach.Interview.Interviewer.{truthy}
use interview_coach.Prep.Cache.{SkipVerdict, filled, empty, decide_job_cache}
use interview_coach.Prep.Readiness.{analyzed}
use interview_coach.Prep.Nodes.{
  ran, PrepWorld, PrepEvent, parsed_of, analyzed_as, analyze, node_job_analyzer,
}

module _ {A : Type 0} (hit : A → Bool) (f : A → A) (same : (x : A) → hit (f x) ≡ hit x) where
  pub find-update_where :
      (xs : List A) (a : A) → find hit xs ≡ some a → find hit (update_where hit f xs) ≡ some (f a)
  find-update_where [] a h = cc
  find-update_where (x ∷ xs) a h = ground (arith, same x, find-update_where xs a)

module _ {V : Type 0} where
  pub ran_injective : {db db' : Db V} {es es' : List PrepEvent} → ran db es ≡ ran db' es' → db ≡ db'
  ran_injective e = cc

module _ {V : Type 0} (env : Env V) (world : PrepWorld V) (job_id user_id : ℕ) where
  -- The job is there and analyzed.
  pub record Analyzed (db : Db V) : Type 0 where
    pub job : Job V
    pub here : get_job db job_id user_id ≡ some job
    pub done : analyzed env job.parsed_json ≡ true

  skip_filled : (o : Option V) → (decide_job_cache (parsed_of env world o)).skip ≡ analyzed env o
  unfolding decide_job_cache
  skip_filled none = refl
  skip_filled (some v) = by_test (truthy (env.shape v))
    where
      by_test : (b : Bool) → (decide_job_cache (if b then filled else empty)).skip ≡ b
      by_test true = refl
      by_test false = refl

  module _
      (truthy_analysis : (t : Text) (v : V)
        → world.analysis t ≡ some v
        → truthy (env.shape v) ≡ true) where
    job_done :
        (db db' : Db V) (job : Job V) (v : SkipVerdict) (t : Text) (o : Option V)
        (evs : List PrepEvent)
        → get_job db job_id user_id ≡ some job
        → world.analysis t ≡ o
        → analyzed_as env world db job_id user_id v o ≡ ran db' evs
        → Analyzed db'
    unfolding update_job_parsed_json get_job
    job_done db db' job v t none evs h k e = cc
    job_done db db' job v t (some a) evs h k e = subst Analyzed (ran_injective e) (record {
      job = record job { parsed_json = some a };
      here =
          find-update_where (job_key job_id user_id) (λ j. record j { parsed_json = some a })
            (λ x. refl) db.jobs job h;
      done = truthy_analysis t a k;
    })

    job_by_skip :
        (db db' : Db V) (job : Job V) (v : SkipVerdict) (t : Text) (evs hits : List PrepEvent)
        (b : Bool)
        → get_job db job_id user_id ≡ some job
        → b ≡ analyzed env job.parsed_json
        → (if b then ran db hits else analyzed_as env world db job_id user_id v (world.analysis t))
          ≡ ran db' evs
        → Analyzed db'
    job_by_skip db db' job v t evs hits true h k e =
        subst Analyzed (ran_injective e) (record { job = job; here = h; done = sym k })
    job_by_skip db db' job v t evs hits false h k e =
        job_done db db' job v t (world.analysis t) evs h refl e

    job_found :
        (db db' : Db V) (o : Option (Job V)) (evs : List PrepEvent)
        → get_job db job_id user_id ≡ o
        → analyze env world db job_id user_id o ≡ ran db' evs
        → Analyzed db'
    job_found db db' none evs h e = cc
    job_found db db' (some job) evs h e =
        job_by_skip db db' job _ _ evs _
          (decide_job_cache (parsed_of env world job.parsed_json)).skip h
          (skip_filled job.parsed_json) e

    pub node_job_analyzer-Analyzed :
        (db db' : Db V) (evs : List PrepEvent)
        → node_job_analyzer env world db job_id user_id ≡ ran db' evs
        → Analyzed db'
    unfolding node_job_analyzer
    node_job_analyzer-Analyzed db db' evs e = job_found db db' _ evs refl e
