-- ===== src/Tests/Jobs.antt =====
-- A chain of two decisions, and a push that adds three files.
use mathlib.Core.List.Perm
use gita.Base.{String, ◌≡◌, refl, true, not, ◌==◌, some, List, [], ◌∷◌, Result, ok, err}
use gita.Base.Text.{decimal, lower, join, strip, first}
use gita.Base.Order.{sorted}
use gita.Value.{str, num}
use gita.Platform.{cents}
use gita.Agents.Decision.{shadow, comment, full, Decision, get_threshold, outcome_value}
use gita.Agents.Signature.{compute_signature, repo_for_signature, signature_material}
use gita.Agents.Ledger.{World, find_row, has_key, check_signature, record_action, commit, rollback}
use gita.Agents.Gate.{Client, returned, execute_decision, external_id_from_side_effect}
use gita.Jobs.Chain.{chain_config, Summary, run_decisions, execute_decision_chain}
use gita.Jobs.Chain.Halting.{Halted, execute_decision_chain-Halted}
use gita.Jobs.Chain.Keeping.{calls-execute_decision_chain}
use gita.Jobs.Enqueue.{
  IngestResult, Setting, accepted, passing, enqueue_all, enqueue_candidates,
  maybe_enqueue_test_gen_jobs,
}
use gita.Jobs.Enqueue.Selection.{IsSelection, maybe_enqueue_test_gen_jobs-IsSelection}
use gita.Jobs.Enqueue.Order.{maybe_enqueue_test_gen_jobs-perm}

-- Opens what a chain goes through.
chain : Unit {0}
unfolding execute_decision get_threshold compute_signature repo_for_signature signature_material
    check_signature find_row has_key record_action commit rollback external_id_from_side_effect
    outcome_value decimal lower join strip first run_decisions execute_decision_chain
chain = tt

abbrev branch : Decision cents
branch = record {
  action = "create_branch";
  target = ("repo", str "a/b") ∷ ("fallback_issue", num 7) ∷ [];
  payload = ("ref", str "refs/heads/t") ∷ ("base_sha", str "abc") ∷ [];
  evidence = [];
  confidence = 95;
}

abbrev pull : Decision cents
pull = record {
  action = "open_pr";
  target = ("repo", str "a/b") ∷ ("fallback_issue", num 7) ∷ [];
  payload = ("title", str "t") ∷ ("head", str "t") ∷ ("base", str "main") ∷ [];
  evidence = [];
  confidence = 95;
}

abbrev obliging : Client cents
obliging calls d = returned (("id", num 1) ∷ [])

abbrev start : World cents
start = record { committed = []; pending = []; rivals = []; calls = []; issued = 0 }

abbrev summaries_of : Result (List Summary) → List Summary
summaries_of (ok summaries) = summaries
summaries_of (err e) = []

abbrev outcomes : List Summary → List String
outcomes [] = []
outcomes (s ∷ rest) = s.outcome ∷ outcomes rest

-- In full mode both run; in comment mode the first is downgraded, and the second is never reached.
chain_tests :
    (outcomes
        (summaries_of (execute_decision_chain cents full obliging (branch ∷ pull ∷ []) start).0)
      ≡ "executed" ∷ "executed" ∷ [])
    × (outcomes (
          summaries_of (execute_decision_chain cents comment obliging (branch ∷ pull ∷ []) start).0)
        ≡ "downgraded_write_mode" ∷ [])
unfolding chain
chain_tests = (refl, refl)

abbrev ran : List Summary
ran = summaries_of (execute_decision_chain cents comment obliging (branch ∷ pull ∷ []) start).0

ended : World cents
unfolding chain
ended = (execute_decision_chain cents comment obliging (branch ∷ pull ∷ []) start).1

execute_decision_chain-Halted_example :
    (v : World cents) × Halted cents
      (chain_config cents comment obliging)
      (branch ∷ pull ∷ [])
      (rollback cents start)
      ran
      v
    × (ended ≡ rollback cents (commit cents v))
unfolding chain ended
execute_decision_chain-Halted_example =
    execute_decision_chain-Halted cents comment obliging (branch ∷ pull ∷ []) start ended ran refl

calls-execute_decision_chain_example :
    (execute_decision_chain cents shadow obliging (branch ∷ pull ∷ []) start).1.calls ≡ []
calls-execute_decision_chain_example =
    calls-execute_decision_chain cents obliging (branch ∷ pull ∷ []) start

abbrev setting : Setting
setting = record {
  auto_test_gen_enabled = true;
  auto_test_gen_max_per_reindex = 1;
  stage_a = λ path. not (path == "b.py");
  stage_b = λ path. true;
  redis = some (λ job. accepted);
}

abbrev push : List String → IngestResult
push files = record { mode = "incremental"; added_files = files; head_sha = some "0123456789" }

enqueue_tests :
    (maybe_enqueue_test_gen_jobs "A/B" "main" setting true (push ("c.py" ∷ "b.py" ∷ "a.py" ∷ []))).0
    ≡ record {
      job_id = "generate-tests:a/b:a.py:0123456";
      repo_full_name = "A/B";
      target_file = "a.py";
      target_repo = "A/B";
      base_branch = "main";
      base_sha = "0123456789";
    }
      ∷ []
unfolding chain maybe_enqueue_test_gen_jobs enqueue_candidates enqueue_all passing sorted
enqueue_tests = refl

maybe_enqueue_test_gen_jobs-IsSelection_example :
    IsSelection setting true
      (push ("c.py" ∷ "b.py" ∷ "a.py" ∷ []))
      (maybe_enqueue_test_gen_jobs "A/B" "main" setting true
        (push ("c.py" ∷ "b.py" ∷ "a.py" ∷ []))).0
maybe_enqueue_test_gen_jobs-IsSelection_example =
    maybe_enqueue_test_gen_jobs-IsSelection "A/B" "main" setting true
      (push ("c.py" ∷ "b.py" ∷ "a.py" ∷ []))

maybe_enqueue_test_gen_jobs-perm_example :
    (maybe_enqueue_test_gen_jobs "A/B" "main" setting true (push ("c.py" ∷ "a.py" ∷ []))).0
    ≡ (maybe_enqueue_test_gen_jobs "A/B" "main" setting true (push ("a.py" ∷ "c.py" ∷ []))).0
maybe_enqueue_test_gen_jobs-perm_example =
    maybe_enqueue_test_gen_jobs-perm "A/B" "main" setting true (push ("c.py" ∷ "a.py" ∷ []))
      (push ("a.py" ∷ "c.py" ∷ [])) refl refl (Perm.swap _ _ _)
