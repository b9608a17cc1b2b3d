-- ===== src/Agents/Review.antt =====
-- agents/pr_reviewer/bridge.py: the review of a pull request as one comment.
pub mod Grouping
use gita.Base.{
  ℕ, String, ◌<>◌, List, [], ◌∷◌, ◌++◌, map, leb, length, take, ◌==◌, if◌then◌else◌, Result, ok,
  err, ◌>>=◌,
}
use gita.Base.Text.{decimal, join}
use gita.Value.{num, str}
use gita.Platform.{Platform}
use gita.Agents.Decision.{Decision, post_init}
use gita.Agents.Guardrails.{Finding}
use gita.Agents.Findings.{
  collapse_threshold, severity_icon, upper, count, plural, citation, cited_as, card_rest,
}

-- `_VERDICT_DISPLAY.get(verdict, ("❓", verdict))`
abbrev verdict_display : String → String × String
verdict_display verdict =
    if verdict == "approve"
    then ("✅", "Approved")
    else if verdict == "comment"
    then ("💬", "Comment")
    else if verdict == "request_changes"
    then ("⚠\u{fe0f}", "Changes Requested")
    else ("❓", verdict)

abbrev review_card : Finding → List String
review_card f =
    ("> "
      <> (severity_icon f.severity
          <> (" **"
              <> (upper f.severity
                  <> ("** — _" <> (f.kind <> ("_ at `" <> (citation f <> "`"))))))))
    ∷ card_rest f

abbrev pub Groups : Type 0
Groups = List (String × List Finding)

-- `by_file.setdefault(finding.file, []).append(finding)`, and the loop
unfoldable pub add_finding : Finding → Groups → Groups
add_finding f [] = (f.file, f ∷ []) ∷ []
add_finding f ((path, findings) ∷ groups) =
    let rest = add_finding f groups in
    if path == f.file then (path, findings ++ f ∷ []) ∷ groups else (path, findings) ∷ rest

unfoldable pub add_findings : Groups → List Finding → Groups
add_findings groups [] = groups
add_findings groups (f ∷ findings) = add_findings (add_finding f groups) findings

unfoldable pub by_file : List Finding → Groups
by_file findings = add_findings [] findings

abbrev pub review_cards : List Finding → List String
review_cards [] = []
review_cards (f ∷ findings) = review_card f ++ review_cards findings

abbrev pub file_head : String → List String
file_head path = "---" ∷ "" ∷ ("### 📄 `" <> (path <> "`")) ∷ "" ∷ []

abbrev pub findings_block : Groups → List String
findings_block [] = []
findings_block ((path, findings) ∷ groups) =
    file_head path ++ (review_cards findings ++ findings_block groups)

-- The cards of the findings, folded away if there are many
abbrev pub framed : List Finding → List String → List String
framed findings block =
    if leb collapse_threshold (length findings)
    then ("<details>"
        ∷ ("<summary>🔎 " <> (count findings <> " findings — click to expand</summary>"))
        ∷ ""
        ∷ [])
      ++ (block ++ "" ∷ "</details>" ∷ [])
    else block

abbrev pub findings_section : List Finding → List String
findings_section [] = "✅ No issues found in the changed code." ∷ "" ∷ []
findings_section (f ∷ fs) = framed (f ∷ fs) (findings_block (by_file (f ∷ fs)))

module _ (p : Platform) where
  open p use {Float, fixed2, percent}

  pub record PrReviewResult : Type 0 where
    pub repo_name : String
    pub pr_number : ℕ
    pub pr_title : String
    pub summary : String
    pub verdict : String
    pub findings : List Finding
    pub confidence : Float

  abbrev pub review_head : PrReviewResult → List String
  review_head r =
      let (verdict_icon, verdict_text) = verdict_display r.verdict in
      ("## 🔍 PR Review — #" <> decimal r.pr_number)
      ∷ ""
      ∷ ("> " <> r.summary)
      ∷ ""
      ∷ (verdict_icon
          <> (" **"
              <> (verdict_text
                  <> ("** · "
                      <> (count r.findings
                          <> (" finding"
                              <> (plural r.findings
                                  <> (" · confidence " <> percent r.confidence))))))))
      ∷ ""
      ∷ []

  abbrev pub review_foot : PrReviewResult → List String
  review_foot r =
      ""
      ∷ "---"
      ∷ ("<sub>🤖 GITA v0.1.0 · PR reviewer · confidence " <> (percent r.confidence <> "</sub>"))
      ∷ []

  unfoldable pub render_review_body : PrReviewResult → String
  render_review_body r = join "\n" (review_head r ++ (findings_section r.findings ++ review_foot r))

  unfoldable pub build_pr_review_decision : PrReviewResult → String → ℕ → Result (Decision p)
  build_pr_review_decision r repo_full_name pr_number =
      let d : Decision p = record {
        action = "comment";
        target = ("repo", str repo_full_name) ∷ ("issue", num pr_number) ∷ [];
        payload = ("body", str (render_review_body r)) ∷ [];
        evidence =
            ("pr_reviewer verdict: " <> r.verdict)
            ∷ (count r.findings <> " findings produced")
            ∷ ("confidence: " <> fixed2 r.confidence)
            ∷ map cited_as (take 3 r.findings);
        confidence = r.confidence;
      } in
      post_init p d >>= λ _. ok d
