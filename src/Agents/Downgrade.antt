-- ===== src/Agents/Downgrade.antt =====
-- How a decision becomes an explaining comment: `_render_downgrade_body`, `_render_action_preview`,
-- `_preview_content` and `_downgrade_to_comment` of agents/decisions.py.
use gita.Base.{
  ℕ, ◌-◌, String, ◌<>◌, not, ◌||◌, Option, none, some, List, [], ◌∷◌, ◌++◌, map, ◌==◌, leb, length,
  take, if◌then◌else◌,
}
use gita.Base.Text.{decimal, first, join, splitlines}
use gita.Value.{Value, str, Dict, get, is_null, truthy, to_str}
use gita.Platform.{Platform}
use gita.Agents.Decision.{Decision}

abbrev preview_lines : ℕ
preview_lines = 40

unfoldable pub preview_content : String → String
preview_content content =
    let lines = splitlines content in
    if leb (length lines) preview_lines
    then content
    else join "\n" (take preview_lines lines)
      <> ("\n# ... (" <> (decimal (length lines - preview_lines) <> " more lines)"))

module _ (p : Platform) where
  open p use {hundredths, fixed2}

  preview_file : Dict → Option (List String)
  unfolding preview_content
  preview_file payload =
      let path = get "path" payload in
      let content = get "content" payload in
      if is_null path || is_null content
      then none
      else some (
          ("**Proposed content of `" <> (to_str path <> "`:**"))
          ∷ ""
          ∷ "```python"
          ∷ preview_content (to_str content)
          ∷ "```"
          ∷ [])

  preview_branch : Dict → Option (List String)
  preview_branch payload =
      let ref = get "ref" payload in
      let base_sha = get "base_sha" payload in
      if not (truthy ref) || not (truthy base_sha)
      then none
      else some (
          ("**Proposed branch:** `"
            <> (to_str ref <> ("` from `" <> (first 7 (to_str base_sha) <> "`"))))
          ∷ [])

  preview_pull : Dict → Option (List String)
  preview_pull payload =
      let title = get "title" payload in
      let head = get "head" payload in
      let base = get "base" payload in
      if not (truthy title) || not (truthy head) || not (truthy base)
      then none
      else some (
          ("**Proposed PR:** `" <> (to_str title <> "`"))
          ∷ ("- head: `" <> (to_str head <> "`"))
          ∷ ("- base: `" <> (to_str base <> "`"))
          ∷ [])

  unfoldable pub render_action_preview : Decision p → Option (List String)
  unfolding preview_file preview_branch preview_pull
  render_action_preview d =
      if d.action == "update_file"
      then preview_file d.payload
      else if d.action == "create_branch"
      then preview_branch d.payload
      else if d.action == "open_pr"
      then preview_pull d.payload
      else none

  evidence_lines : List String → List String
  evidence_lines [] = []
  evidence_lines (ev ∷ rest) = "**Evidence:**" ∷ (map (λ e. "- " <> e) (ev ∷ rest) ++ "" ∷ [])

  preview_block : Option (List String) → List String
  preview_block none = []
  preview_block (some lines) = lines ++ "" ∷ []

  unfoldable pub render_downgrade_body : Decision p → String → String
  unfolding render_action_preview evidence_lines preview_block
  render_downgrade_body d reason = join "\n" (
      ("**Intended action:** `" <> (d.action <> "`"))
      ∷ ""
      ∷ ("**Why this is a comment instead:** " <> reason)
      ∷ ""
      ∷ (evidence_lines d.evidence
          ++ (preview_block (render_action_preview d)
              ++ ("_Confidence: " <> (fixed2 d.confidence <> "_")) ∷ [])))

  -- `target.issue`, or the landing issue where that is `None`.
  landing_issue : Dict → Value
  landing_issue target =
      let issue = get "issue" target in if is_null issue then get "fallback_issue" target else issue

  unfoldable pub downgrade_to_comment : Decision p → String → Decision p
  unfolding landing_issue
  downgrade_to_comment d reason = record {
    action = "comment";
    target = ("repo", get "repo" d.target) ∷ ("issue", landing_issue d.target) ∷ [];
    payload = ("body", str (render_downgrade_body d reason)) ∷ [];
    evidence = d.evidence;
    confidence = hundredths 100;
  }
