-- ===== src/Tests/TestGenerator.antt =====
-- Two artifacts for one generated test, and their chain in comment mode.
use gita.Base.{ℕ, String, ◌≡◌, refl, Option, none, some, [], ◌∷◌}
use gita.Base.Text.{decimal, lower, join, strip, first, ends_with, split_on, text_size}
use gita.Value.{num, get, get_or, to_str}
use gita.Platform.{cents}
use gita.Agents.Decision.{comment, get_threshold}
use gita.Agents.Signature.{compute_signature, repo_for_signature, signature_material}
use gita.Agents.Gate.{Client, returned}
use gita.Agents.TestGenerator.{
  TestGenerationArtifact, create_branch, update_file, open_pr, slug, compute_branch_name,
  default_pr_title, default_pr_body, build_test_generation_decisions,
}
use gita.Agents.TestGenerator.Identity.{IsAlike, Agree, build_test_generation_decisions-signatures}
use gita.Jobs.Chain.{execute_decision_chain}
use gita.Jobs.Chain.Comments.{fresh, disallowed_comment, execute_decision_chain-comment}

abbrev artifact : String → ℕ → Option ℕ → TestGenerationArtifact cents
artifact repo confidence issue = record {
  repo = repo;
  base_branch = "main";
  base_sha = "0123456789";
  target_file = "app/core.py";
  test_file_path = "tests/test_core.py";
  test_content = "assert True";
  existing_test_sha = none;
  pr_title = none;
  pr_body = none;
  fallback_issue = issue;
  confidence = confidence;
}

-- Opens what the bridge and the signatures go through.
bridge : Unit {0}
unfolding build_test_generation_decisions compute_branch_name slug default_pr_title default_pr_body
    compute_signature repo_for_signature signature_material get get_or to_str get_threshold decimal
    lower join strip first ends_with split_on text_size
bridge = tt

alike : IsAlike cents (artifact "A/B" 90 none) (artifact "a/b " 95 (some 7))
unfolding bridge
alike = record {
  named = refl;
  named' = refl;
  repo = refl;
  base_branch = refl;
  base_sha = refl;
  target_file = refl;
  test_file_path = refl;
  test_content = refl;
}

build_test_generation_decisions-signatures_example :
    Agree cents
      (build_test_generation_decisions cents (artifact "A/B" 90 none))
      (build_test_generation_decisions cents (artifact "a/b " 95 (some 7)))
build_test_generation_decisions-signatures_example =
    build_test_generation_decisions-signatures cents (artifact "A/B" 90 none)
      (artifact "a/b " 95 (some 7)) refl refl alike

abbrev obliging : Client cents
obliging calls d = returned (("id", num 1) ∷ [])

execute_decision_chain-comment_example :
    (execute_decision_chain cents comment obliging
      (create_branch cents (artifact "a/b" 95 (some 7))
        ∷ update_file cents (artifact "a/b" 95 (some 7))
        ∷ open_pr cents (artifact "a/b" 95 (some 7))
        ∷ [])
      (fresh cents [])).1.calls
    ≡ disallowed_comment cents (create_branch cents (artifact "a/b" 95 (some 7))) ∷ []
unfolding bridge
execute_decision_chain-comment_example =
    execute_decision_chain-comment cents obliging (create_branch cents (artifact "a/b" 95 (some 7)))
      (update_file cents (artifact "a/b" 95 (some 7))
        ∷ open_pr cents (artifact "a/b" 95 (some 7))
        ∷ [])
      [] (("id", num 1) ∷ [])
      "a/b\ncreate_branch\nrefs/heads/gita/tests/app-core-0123456\n0123456789" "a/b" 90 refl refl
      refl refl refl refl
