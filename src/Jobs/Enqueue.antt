-- ===== src/Jobs/Enqueue.antt =====
-- `_maybe_enqueue_test_gen_jobs` of jobs/runners.py: which files of a push get a test-generation job.
pub mod Selection
pub mod Order
use gita.Base.{
  ℕ, ◌-◌, String, ◌<>◌, Bool, true, false, not, ◌++◌, Option, none, some, List, [], ◌∷◌, ◌==◌,
  if◌then◌else◌, length, is_empty, take, is_empty,
}
use gita.Base.Text.{strip, lower, first}
use gita.Base.Order.{sorted}

-- What is read of an `IngestResult`.
pub record IngestResult : Type 0 where
  pub mode : String
  pub added_files : List String
  pub head_sha : Option String

-- The arguments of `redis.enqueue_job`.
pub record TestGenJob : Type 0 where
  pub job_id : String
  pub repo_full_name : String
  pub target_file : String
  pub target_repo : String
  pub base_branch : String
  pub base_sha : String

-- What the queue does with a job: it takes it, it has one with this id already, or it raises.
pub data Enqueued : Type 0 where
  accepted known failed : Enqueued

pub record Entry : Type 0 where
  pub target_file : String
  pub job_id : String
  pub deduped : Bool

-- The `dict` that is returned; the last two keys are set only where the enqueueing is reached.
pub record Summary : Type 0 where
  pub status : String
  pub reason : Option String
  pub added_files : List String
  pub after_stage_a : List String
  pub after_stage_b : List String
  pub enqueued : List Entry
  pub cap : Option ℕ
  pub dropped_over_cap : Option ℕ

-- What the function reads beside its arguments: the two settings, the two stages (`has_existing_tests`
-- on the working tree and `is_feasible` on the index, which say whether to proceed with a file) and the
-- queue, if there is one.
pub record Setting : Type 0 where
  pub auto_test_gen_enabled : Bool
  pub auto_test_gen_max_per_reindex : ℕ
  pub stage_a : String → Bool
  pub stage_b : String → Bool
  pub redis : Option (TestGenJob → Enqueued)

-- The paths that a stage lets pass, in their order.
unfoldable pub passing : (String → Bool) → List String → List String
passing stage [] = []
passing stage (path ∷ paths) =
    let rest = passing stage paths in if stage path then path ∷ rest else rest

abbrev pub base_sha : IngestResult → String
base_sha r = elim r.head_sha [ none ↦ "unknown" | some sha ↦ if sha == "" then "unknown" else sha ]

abbrev entry_of : TestGenJob → Enqueued → List Entry
entry_of job accepted =
    record { target_file = job.target_file; job_id = job.job_id; deduped = false } ∷ []
entry_of job known =
    record { target_file = job.target_file; job_id = job.job_id; deduped = true } ∷ []
entry_of job failed = []

abbrev pub skipped : IngestResult → Option String → Summary
skipped r reason = record {
  status = "skipped";
  reason = reason;
  added_files = r.added_files;
  after_stage_a = [];
  after_stage_b = [];
  enqueued = [];
  cap = none;
  dropped_over_cap = none;
}

-- The summary shows the list of stage B after it was sorted in place.
abbrev pub report : Setting → IngestResult → List String → List String → List Entry → Summary
report setting r stage_a stage_b entries = record {
  status = if is_empty entries then "no_candidates" else "enqueued";
  reason = none;
  added_files = r.added_files;
  after_stage_a = stage_a;
  after_stage_b = stage_b;
  enqueued = entries;
  cap = some setting.auto_test_gen_max_per_reindex;
  dropped_over_cap = some (length stage_b - setting.auto_test_gen_max_per_reindex);
}

module _ (repo_full_name repo_default_branch : String) where
  abbrev pub test_gen_job : String → String → TestGenJob
  test_gen_job sha path = record {
    job_id =
        "generate-tests:"
        <> (lower (strip repo_full_name) <> (":" <> (path <> (":" <> first 7 sha))));
    repo_full_name = repo_full_name;
    target_file = path;
    target_repo = repo_full_name;
    base_branch = repo_default_branch;
    base_sha = sha;
  }

  -- The loop over the selected files: what it asks the queue for, and what it reports.
  unfoldable pub enqueue_all :
      (TestGenJob → Enqueued) → String → List String → List TestGenJob × List Entry
  enqueue_all redis sha [] = ([], [])
  enqueue_all redis sha (path ∷ paths) =
      let job = test_gen_job sha path in
      let (jobs, entries) = enqueue_all redis sha paths in
      (job ∷ jobs, entry_of job (redis job) ++ entries)

  -- Stages A and B, the cap, and the loop
  unfoldable pub enqueue_candidates :
      Setting → (TestGenJob → Enqueued) → IngestResult → List TestGenJob × Summary
  enqueue_candidates setting redis r =
      let after_a = passing setting.stage_a r.added_files in
      let after_b = passing setting.stage_b after_a in
      if is_empty after_b
      then ([], record (skipped r none) { status = "no_candidates"; after_stage_a = after_a })
      else (let chosen = sorted after_b in
          let (jobs, entries) =
            enqueue_all redis (base_sha r) (take setting.auto_test_gen_max_per_reindex chosen) in
          (jobs, report setting r after_a chosen entries))

  abbrev pub enqueue_on :
      Setting → Option (TestGenJob → Enqueued) → Bool → IngestResult → List TestGenJob × Summary
  enqueue_on setting none opt_in r = ([], skipped r (some "no_redis_pool"))
  enqueue_on setting (some redis) opt_in r =
      if not setting.auto_test_gen_enabled
      then ([], skipped r (some "global_kill_switch_off"))
      else if not opt_in
      then ([], skipped r (some "repo_opt_in_off"))
      else if not (r.mode == "incremental")
      then ([], skipped r (some ("mode=" <> r.mode)))
      else if is_empty r.added_files
      then ([], skipped r (some "no_added_files"))
      else enqueue_candidates setting redis r

  -- The jobs that the queue was asked for, in order, and the summary
  unfoldable pub maybe_enqueue_test_gen_jobs :
      Setting → Bool → IngestResult → List TestGenJob × Summary
  maybe_enqueue_test_gen_jobs setting repo_auto_test_gen r =
      enqueue_on setting setting.redis repo_auto_test_gen r
