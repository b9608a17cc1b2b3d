-- ===== src/Agents/Preflight.antt =====
-- Stage B of agents/test_generator/preflight.py: whether a test of an indexed file is worth generating.
-- The path of the file holds no double quote and no back slash.
pub mod Feasible
use gita.Base.{
  ℕ, String, ◌<>◌, ◌≡◌, refl, Bool, true, false, not, ◌&&◌, ◌||◌, Option, none, some, List, [], ◌∷◌,
  ◌==◌, ltb, any, is_empty, if◌then◌else◌,
}
use gita.Base.Text.{decimal, lower, strip, starts_with, split_on, first, text_size}
use gita.Platform.{Platform}
use gita.Agents.Ledger.{AgentAction}
use gita.Agents.Guardrails.{content_or_empty}

-- A row of `code_index`, with the names in its `structure`, where a name may be missing.
pub record IndexedFile : Type 0 where
  pub repo_id : String
  pub file_path : String
  pub language : String
  pub line_count : ℕ
  pub functions : List (Option String)
  pub classes : List (Option String)
  pub content : Option String

pub record PreflightResult : Type 0 where
  pub proceed : Bool
  pub reason : String

abbrev pub max_lines_for_test_gen : ℕ
max_lines_for_test_gen = 500

abbrev refuse : String → PreflightResult
refuse reason = record { proceed = false; reason = reason }

-- `symbol.get("name", "")`
abbrev pub name_or_empty : Option String → String
name_or_empty none = ""
name_or_empty (some name) = name

unfoldable pub public_names : List (Option String) → List (Option String)
public_names [] = []
public_names (name ∷ rest) =
    let later = public_names rest in
    if starts_with "_" (name_or_empty name) then later else name ∷ later

-- `PurePosixPath(path).name`
last_name : String → List String → String
last_name found [] = found
last_name found (part ∷ rest) =
    let same = last_name found rest in
    let next = last_name part rest in if part == "" || part == "." then same else next

unfoldable pub basename : String → String
unfolding last_name
basename path = last_name "" (split_on b'/' path)

-- `text in s`
unfoldable pub contains : String → String → Bool
contains t String.[] = t == ""
contains t (String.◌∷◌ c s) = starts_with t (String.◌∷◌ c s) || contains t s

abbrev is_main : List (Option String) → Bool
is_main (some name ∷ []) = name == "main"
is_main _ = false

-- Whether the file is nothing but an entry point
abbrev pub is_cli_entrypoint : IndexedFile → Bool
is_cli_entrypoint row =
    is_main (public_names row.functions)
    && (is_empty (public_names row.classes)
        && contains "__name__ == \"__main__\"" (content_or_empty row.content))

unfoldable pub find_indexed : String → String → List IndexedFile → Option IndexedFile
find_indexed repo_id path [] = none
find_indexed repo_id path (row ∷ table) =
    if row.repo_id == repo_id && row.file_path == path
    then some row
    else find_indexed repo_id path table

module _ (p : Platform) where
  -- One row of `agent_actions` against the query
  abbrev pub is_attempt : String → String → AgentAction p → Bool
  is_attempt repo_full_name target_file row =
      lower row.repo_name == lower (strip repo_full_name)
      && (row.agent == "test_generator"
          && any (λ e. e == "purpose: add tests for `" <> (target_file <> "`")) row.evidence)

  unfoldable pub has_prior_test_gen_attempt : List (AgentAction p) → String → String → Bool
  has_prior_test_gen_attempt actions repo_full_name target_file =
      any (is_attempt repo_full_name target_file) actions

  -- The tests on the row of the file, in order
  unfoldable pub judge : List (AgentAction p) → String → String → IndexedFile → PreflightResult
  judge actions repo_full_name target_file row =
      if not (row.language == "python")
      then refuse ("infeasible:non_python_language:" <> row.language)
      else if ltb max_lines_for_test_gen row.line_count
      then refuse (
          "infeasible:too_large:"
          <> (decimal row.line_count <> (" > " <> decimal max_lines_for_test_gen)))
      else if is_empty row.functions && is_empty row.classes
      then refuse "infeasible:no_functions_or_classes"
      else if is_empty (public_names row.functions) && is_empty (public_names row.classes)
      then refuse "infeasible:no_public_symbols"
      else if basename target_file == "__main__.py"
      then refuse "infeasible:dunder_main_entrypoint"
      else if is_cli_entrypoint row
      then refuse "infeasible:cli_entrypoint"
      else if has_prior_test_gen_attempt actions repo_full_name target_file
      then refuse "infeasible:prior_attempt_exists"
      else record { proceed = true; reason = "ok" }

  abbrev pub judge_found :
      List (AgentAction p) → String → String → Option IndexedFile → PreflightResult
  judge_found actions repo_full_name target_file none = refuse "infeasible:not_indexed"
  judge_found actions repo_full_name target_file (some row) =
      judge actions repo_full_name target_file row

  unfoldable pub is_feasible :
      List IndexedFile → List (AgentAction p) → String → String → String → PreflightResult
  is_feasible table actions repo_id repo_full_name target_file =
      judge_found actions repo_full_name target_file (find_indexed repo_id target_file table)
