-- ===== src/Agents/Milestones.antt =====
-- The texts of agents/onboarding/bridge.py: how it prints a review as a comment, and a milestone as an
-- issue.
use gita.Base.{
  ℕ, ◌+◌, suc, zero, String, ◌<>◌, Bool, true, Option, none, some, List, [], ◌∷◌, ◌++◌, ltb, leb,
  length, is_empty, ◌==◌, if◌then◌else◌,
}
use gita.Base.Text.{decimal, first, join, strip, text_size}
use gita.Platform.{Platform}
use gita.Agents.Guardrails.{Finding}
use gita.Base.Integers.{ℤ, pos, negsuc}
use gita.Agents.Findings.{
  collapse_threshold, severity_icon, upper, count, plural, citation, card_rest,
}

abbrev wrap_details : String → List String → Bool → List String
wrap_details summary body_lines collapse =
    if collapse
    then ("<details>" ∷ ("<summary>" <> (summary <> "</summary>")) ∷ "" ∷ [])
      ++ (body_lines ++ "</details>" ∷ [])
    else body_lines

-- `findings[i]`, if `0 <= i < len(findings)`
unfoldable pub cite : ℤ → List Finding → Option Finding
cite (negsuc n) findings = none
cite (pos n) [] = none
cite (pos zero) (f ∷ findings) = some f
cite (pos (suc n)) (f ∷ findings) = cite (pos n) findings

abbrev add_cited : Option Finding → List Finding → List Finding
add_cited none rest = rest
add_cited (some f) rest = f ∷ rest

-- The findings that a milestone cites, without its indices out of range
unfoldable pub cited : List Finding → List ℤ → List Finding
unfolding cite
cited findings [] = []
cited findings (i ∷ indices) = add_cited (cite i findings) (cited findings indices)

abbrev lines_of : (Finding → List String) → List Finding → List String
lines_of f [] = []
lines_of f (x ∷ xs) = f x ++ lines_of f xs

-- `_render_finding_card`, and the cards of a list from an index on
abbrev finding_card : ℕ → Finding → List String
finding_card index f =
    ("> "
      <> (severity_icon f.severity
          <> (" **"
              <> (decimal (index + 1)
                  <> (". "
                      <> (upper f.severity
                          <> ("** — _" <> (f.kind <> ("_ at `" <> (citation f <> "`"))))))))))
    ∷ card_rest f

abbrev finding_cards : ℕ → List Finding → List String
finding_cards index [] = []
finding_cards index (f ∷ findings) = finding_card index f ++ finding_cards (index + 1) findings

abbrev cited_line : Finding → List String
cited_line f =
    ("- "
      <> (severity_icon f.severity
          <> (" `"
              <> (citation f
                  <> ("` — "
                      <> (first 80 f.description
                          <> (if ltb 80 (text_size f.description) then "..." else "")))))))
    ∷ []

-- The check list of an issue
abbrev checklist_item : Finding → List String
checklist_item f =
    let sketch : List String =
      if f.fix_sketch == "" then "" ∷ [] else ("  💡 " <> f.fix_sketch) ∷ "" ∷ [] in
    ("- [ ] "
      <> (severity_icon f.severity
          <> (" **"
              <> (upper f.severity <> ("** _" <> (f.kind <> ("_ at `" <> (citation f <> "`"))))))))
    ∷ ("  " <> f.description)
    ∷ sketch

module _ (p : Platform) where
  open p use {Float, fixed2, percent}

  pub record Milestone : Type 0 where
    pub title : String
    pub summary : String
    pub finding_indices : List ℤ
    pub confidence : Float

  pub record OnboardingResult : Type 0 where
    pub repo_name : String
    pub project_summary : String
    pub findings : List Finding
    pub milestones : List Milestone
    pub confidence : Float

  abbrev milestone_card : Milestone → List Finding → List String
  milestone_card m findings =
      let found = cited findings m.finding_indices in
      let lines : List String =
        if is_empty found then [] else lines_of cited_line found ++ "" ∷ [] in
      (("#### 🎯 " <> m.title) ∷ "" ∷ ("> " <> m.summary) ∷ "" ∷ [])
      ++ (lines ++ (("_Confidence: " <> (percent m.confidence <> "_")) ∷ "" ∷ []))

  abbrev milestone_cards : List Milestone → List Finding → List String
  milestone_cards [] findings = []
  milestone_cards (m ∷ ms) findings = milestone_card m findings ++ milestone_cards ms findings

  abbrev findings_part : List Finding → List String
  findings_part [] = "✅ No concrete findings — the reviewed files looked clean." ∷ "" ∷ []
  findings_part (f ∷ fs) =
      let findings = f ∷ fs in
      let block : List String =
        ("---" ∷ "" ∷ ("### 🔎 Findings (" <> (count findings <> ")")) ∷ "" ∷ [])
        ++ finding_cards 0 findings in
      if leb collapse_threshold (length findings)
      then wrap_details ("🔎 Findings (" <> (count findings <> ") — click to expand")) block true
        ++ "" ∷ []
      else block

  abbrev milestones_part : List Milestone → List Finding → List String
  milestones_part [] findings = []
  milestones_part (m ∷ ms) findings =
      let all = m ∷ ms in
      let block : List String =
        ("---" ∷ "" ∷ ("### 🗺\u{fe0f} Proposed Milestones (" <> (count all <> ")")) ∷ "" ∷ [])
        ++ milestone_cards all findings in
      if leb collapse_threshold (length all)
      then wrap_details ("🗺\u{fe0f} Milestones (" <> (count all <> ") — click to expand")) block
          true
        ++ "" ∷ []
      else block

  unfoldable pub render_comment_body : OnboardingResult → String
  render_comment_body r = join "\n" (
      (("## 📋 Onboarding Review — `" <> (r.repo_name <> "`"))
        ∷ ""
        ∷ ("> " <> r.project_summary)
        ∷ ""
        ∷ ("📊 "
            <> (count r.findings
                <> (" finding"
                    <> (plural r.findings
                        <> (" · "
                            <> (count r.milestones
                                <> (" milestone"
                                    <> (plural r.milestones
                                        <> (" · confidence " <> percent r.confidence)))))))))
        ∷ ""
        ∷ [])
      ++ (findings_part r.findings
          ++ (milestones_part r.milestones r.findings
              ++ (""
                  ∷ "---"
                  ∷ ("<sub>🤖 GITA v0.1.0 · onboarding agent · confidence "
                      <> (percent r.confidence <> "</sub>"))
                  ∷ []))))

  abbrev checklist_part : List Finding → List String
  checklist_part [] = []
  checklist_part (f ∷ fs) =
      let found = f ∷ fs in
      let checklist : List String =
        (("## 🔎 Findings (" <> (count found <> ")")) ∷ "" ∷ []) ++ lines_of checklist_item found in
      wrap_details ("🔎 Findings (" <> (count found <> ") — click to expand")) checklist
        (leb collapse_threshold (length found))
      ++ "" ∷ []

  unfoldable pub render_issue_body : Milestone → List Finding → String → String
  render_issue_body m findings source_repo = join "\n" (
      (("> " <> strip m.summary)
        ∷ ""
        ∷ ("_Confidence: " <> (percent m.confidence <> "_"))
        ∷ ""
        ∷ [])
      ++ (checklist_part (cited findings m.finding_indices)
          ++ ("---"
              ∷ ("<sub>🤖 GITA v0.1.0 · onboarding agent · source: `" <> (source_repo <> "`</sub>"))
              ∷ [])))
