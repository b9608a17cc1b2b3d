-- ===== src/Agents/Onboarding.antt =====
-- agents/onboarding/bridge.py: a review of a repository as one comment, or as one new issue for each
-- milestone.
pub mod Same
use gita.Base.{
  ℕ, ◌+◌, suc, zero, String, ◌<>◌, Bool, true, Option, none, some, List, [], ◌∷◌, ◌++◌, map, ltb,
  leb, length, is_empty, ◌==◌, if◌then◌else◌, Result, ok, err, ◌>>=◌,
}
use gita.Base.Text.{decimal, first, join, strip, text_size}
use gita.Base.Order.{sorted}
use gita.Value.{num, str, strs, Dict}
use gita.Platform.{Platform}
use gita.Agents.Decision.{Decision, constructed}
use gita.Agents.Guardrails.{Finding}
use gita.Base.Integers.{ℤ, pos, negsuc}
use gita.Agents.Findings.{
  collapse_threshold, severity_icon, upper, count, plural, citation, cited_as, card_rest,
}
use gita.Agents.Milestones.{
  Milestone, OnboardingResult, cited, render_comment_body, render_issue_body,
}

abbrev pub issue_target : String → Option ℕ → Dict
issue_target target_repo none = ("repo", str target_repo) ∷ []
issue_target target_repo (some n) = ("repo", str target_repo) ∷ ("fallback_issue", num n) ∷ []

abbrev label_field : List String → Dict
label_field [] = []
label_field (l ∷ ls) = ("labels", strs (l ∷ ls)) ∷ []

module _ (p : Platform) where
  open p use {fixed2}

  abbrev strongest : List Finding → List String
  strongest [] = []
  strongest (f ∷ fs) = ("strongest finding: " <> cited_as f) ∷ []

  unfoldable pub build_onboarding_comment_decision :
      OnboardingResult p → String → ℕ → Result (Decision p)
  build_onboarding_comment_decision r repo_full_name issue_number = constructed p (record {
    action = "comment";
    target = ("repo", str repo_full_name) ∷ ("issue", num issue_number) ∷ [];
    payload = ("body", str (render_comment_body p r)) ∷ [];
    evidence =
        (count r.findings <> " concrete findings produced")
        ∷ (count r.milestones <> " proposed milestones")
        ∷ ("agent overall confidence: " <> fixed2 r.confidence)
        ∷ strongest r.findings;
    confidence = r.confidence;
  })

  unfoldable pub signature_keys : OnboardingResult p → Milestone p → List String
  signature_keys r m = sorted (map citation (cited r.findings m.finding_indices))

  abbrev pub issue_decision :
      OnboardingResult p → String → Option ℕ → List String → Milestone p → Decision p
  issue_decision r target_repo fallback_comment_target default_labels m = record {
    action = "create_issue";
    target = issue_target target_repo fallback_comment_target;
    payload =
        ("title", str m.title)
        ∷ ("body", str (render_issue_body p m r.findings r.repo_name))
        ∷ ("_signature_keys", strs (signature_keys r m))
        ∷ label_field default_labels;
    evidence =
        ("milestone: " <> m.title)
        ∷ ("agent overall confidence: " <> fixed2 r.confidence)
        ∷ ("source repo: " <> r.repo_name)
        ∷ map cited_as (cited r.findings m.finding_indices);
    confidence = m.confidence;
  }

  -- The loop over the milestones
  unfoldable pub issue_decisions :
      OnboardingResult p
      → String
      → Option ℕ
      → List String
      → List (Milestone p)
      → Result (List (Decision p))
  issue_decisions r target_repo fallback labels [] = ok []
  issue_decisions r target_repo fallback labels (m ∷ ms) =
      let rest = issue_decisions r target_repo fallback labels ms in
      if is_empty (cited r.findings m.finding_indices)
      then rest
      else (constructed p (issue_decision r target_repo fallback labels m) >>= λ d.
          rest >>= λ ds. ok (d ∷ ds))

  unfoldable pub build_onboarding_issue_decisions :
      OnboardingResult p → String → Option ℕ → List String → Result (List (Decision p))
  build_onboarding_issue_decisions r target_repo fallback labels =
      issue_decisions r target_repo fallback labels r.milestones
