-- ===== src/Agents/Preflight/Feasible.antt =====
-- Which files pass stage B.
use mathlib.Core.List.{Memᴰ}
use gita.Base.Text.{lower, strip, starts_with}
use gita.Base.{◌<>◌, ◌⊎◌, ◌≤◌, String, ◌≡◌, false, Option, List, ◌==◌}
use gita.Platform.{Platform}
use gita.Agents.Ledger.{AgentAction}
use gita.Agents.Preflight.{IndexedFile, name_or_empty, basename, is_cli_entrypoint}

abbrev purpose_of : String → String
purpose_of target_file = "purpose: add tests for `" <> (target_file <> "`")

module _ (p : Platform) (actions : List (AgentAction p)) (repo_full_name target_file : String) where
  -- What stage B asks of the row of a file.
  pub record IsWorthwhile (row : IndexedFile) : Type 0 where
    pub python : row.language ≡ "python"
    pub short : row.line_count ≤ 500
    pub open_names :
        (name : Option String) × ((Memᴰ name row.functions) ⊎ (Memᴰ name row.classes))
        × (starts_with "_" (name_or_empty name) ≡ false)
    pub no_main : (basename target_file == "__main__.py") ≡ false
    pub no_cli : is_cli_entrypoint row ≡ false
    pub fresh :
        (past : AgentAction p)
        → Memᴰ past actions
        → lower past.repo_name ≡ lower (strip repo_full_name)
        → past.agent ≡ "test_generator"
        → Memᴰ ("purpose: add tests for `" <> (target_file <> "`")) past.evidence
        → ⊥
