-- ===== src/Tests/Reviews.antt =====
-- The bridges of the two reviewing agents, and reviews that found the same.
use mathlib.Core.List.{Memᴰ, Permᴰ}
use gita.Base.{ℕ, String, ◌≡◌, refl, none, some, List, [], ◌++◌, ◌∷◌}
use gita.Base.Text.{decimal, lower, strip, join}
use gita.Platform.{cents}
use gita.Agents.Guardrails.{Finding}
use gita.Base.Integers.{pos, negsuc}
use gita.Agents.Findings.{severity_icon, upper, citation}
use gita.Agents.Milestones.{OnboardingResult, cited, cite}
use gita.Agents.Onboarding.{build_onboarding_issue_decisions}
use gita.Agents.Onboarding.Same.{Agree, build_onboarding_issue_decisions-signatures}
use gita.Agents.Review.Grouping.{IsDistinct, parts, render_review_body-parts}
use gita.Agents.Review.{
  framed, review_head, review_foot, PrReviewResult, by_file, add_findings, add_finding,
  render_review_body,
}

abbrev finding : String → ℕ → Finding
finding file line = record {
  file = file;
  line = pos line;
  severity = "high";
  kind = "bug";
  description = "Off by one";
  fix_sketch = "";
}

abbrev two_found : List Finding
two_found = finding "a.py" 3 ∷ finding "b.py" 5 ∷ []

abbrev first_review : OnboardingResult cents
first_review = record {
  repo_name = "acme/app";
  project_summary = "An app";
  findings = two_found;
  milestones =
      (record {
        title = "Fix bounds";
        summary = "Both";
        finding_indices = pos 0 ∷ pos 1 ∷ pos 9 ∷ negsuc 0 ∷ [];
        confidence = 80;
      })
      ∷ (record {
        title = "Nothing";
        summary = "None";
        finding_indices = pos 2 ∷ [];
        confidence = 80;
      })
      ∷ [];
  confidence = 75;
}

-- The same findings, cited the other way round under other titles
abbrev second_review : OnboardingResult cents
second_review = record first_review {
  milestones =
      (record {
        title = "Repair loops";
        summary = "Two";
        finding_indices = pos 1 ∷ pos 0 ∷ [];
        confidence = 90;
      })
      ∷ (record { title = "Empty"; summary = "None"; finding_indices = []; confidence = 90 })
      ∷ [];
}

build_onboarding_issue_decisions-signatures_example :
    Agree cents
      (build_onboarding_issue_decisions cents first_review "Acme/app" none ("gita" ∷ []))
      (build_onboarding_issue_decisions cents second_review "acme/app " (some 4) [])
unfolding lower strip cited cite
build_onboarding_issue_decisions-signatures_example =
    build_onboarding_issue_decisions-signatures cents first_review second_review "Acme/app"
      "acme/app " none (some 4) ("gita" ∷ []) [] refl refl refl (refl, (refl, tt))
      (refl, (refl, tt)) (∣ Permᴰ.swap refl refl ∣₁, (∣ Permᴰ.nil ∣₁, tt))

review_tests :
    (upper "high!" ≡ "HIGH!")
    × (severity_icon "HIGH" ≡ "🟠")
    × (by_file (finding "b" 1 ∷ finding "a" 2 ∷ finding "b" 3 ∷ [])
        ≡ ("b", finding "b" 1 ∷ finding "b" 3 ∷ []) ∷ ("a", finding "a" 2 ∷ []) ∷ [])
unfolding upper severity_icon lower by_file add_findings add_finding
review_tests = (refl, refl, refl)

abbrev pull_review : PrReviewResult cents
pull_review = record {
  repo_name = "acme/app";
  pr_number = 7;
  pr_title = "Bounds";
  summary = "Fine";
  verdict = "approve";
  findings = finding "a.py" 3 ∷ [];
  confidence = 90;
}

review_body :
    render_review_body cents pull_review
    ≡ "## 🔍 PR Review — #7\n\n> Fine\n\n✅ **Approved** · 1 finding · confidence 90\n\n---\n\n### 📄 `a.py`\n\n> 🟠 **HIGH** — _bug_ at `a.py:3`\n>\n> Off by one\n\n\n---\n<sub>🤖 GITA v0.1.0 · PR reviewer · confidence 90</sub>"
unfolding render_review_body decimal join by_file add_findings add_finding severity_icon lower upper
    citation
review_body = refl

render_review_body-parts_example :
    (files : List String) × IsDistinct files
    × ((f : Finding) → Memᴰ f pull_review.findings → Memᴰ f.file files)
    × (render_review_body cents pull_review
        ≡ join "\n" (
            review_head cents pull_review
            ++ (framed pull_review.findings (parts files pull_review.findings)
                ++ review_foot cents pull_review)))
render_review_body-parts_example = render_review_body-parts cents pull_review refl
