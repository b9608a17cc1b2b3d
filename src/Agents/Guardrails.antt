-- ===== src/Agents/Guardrails.antt =====
-- agents/guardrails.py: which findings of a language model are dropped.
pub mod Patterns
pub mod Diff
pub mod Touched
pub mod Stored
pub mod Dealt
use gita.Base.{
  ℕ, String, ◌<>◌, ◌++◌, Result, ok, err, ◌>>=◌, Bool, true, false, not, ◌&&◌, ◌||◌, Option, none,
  some, List, [], ◌∷◌, ◌==◌, any, if◌then◌else◌,
}
use gita.Base.Integers.{ℤ, is_above, is_from, is_upto}
use gita.Base.Tables.{lookup, insert}
use gita.Agents.Guardrails.Patterns.{
  Regex, search, banned_description_patterns, syntax_error_patterns,
}
use gita.Agents.Guardrails.Diff.{ChangedLineRange, range_end, DiffHunk}

-- `Finding` of agents/types.py
pub record Finding : Type 0 where
  pub file : String
  pub line : ℤ
  pub severity : String
  pub kind : String
  pub description : String
  pub fix_sketch : String

-- The columns of `code_index` that are read.
pub record CodeIndex : Type 0 where
  pub repo_id : String
  pub file_path : String
  pub language : String
  pub content : Option String
  pub line_count : ℕ

-- Why a finding is dropped, with what the message of the reason is made of.
pub data Reason : Type 0 where
  file_not_found : String → Reason
  line_out_of_range : ℤ → ℕ → Reason
  syntax_claim_on_valid_file : String → String → Reason
  banned_phrase : String → Reason

first_match : List (String × Regex) → String → Option String
first_match [] s = none
first_match ((source, r) ∷ rest) s = if search r s then some source else first_match rest s

unfoldable pub check_banned_phrase : Finding → Option Reason
unfolding first_match
check_banned_phrase f =
    elim (first_match banned_description_patterns (f.description <> (" " <> f.fix_sketch))) [
      | none ↦ none
      | some source ↦ some (banned_phrase source)
    ]

unfoldable pub claims_syntax_error : Finding → Bool
claims_syntax_error f = any (λ r. search r f.description) syntax_error_patterns

in_ranges : ℤ → List ChangedLineRange → Bool
in_ranges line [] = false
in_ranges line (r ∷ rest) =
    is_from r.start line && is_upto (range_end r) line || in_ranges line rest

unfoldable pub line_in_diff_ranges : String → ℤ → List DiffHunk → Bool
unfolding in_ranges
line_in_diff_ranges file line [] = false
line_in_diff_ranges file line (hunk ∷ rest) =
    hunk.file_path == file && in_ranges line hunk.changed_ranges
    || line_in_diff_ranges file line rest

-- `diff_hunks is not None and _line_in_diff_ranges(...)`
abbrev pub in_diff : Finding → Option (List DiffHunk) → Bool
in_diff f none = false
in_diff f (some hunks) = line_in_diff_ranges f.file f.line hunks

-- `row.content or ""`
abbrev pub content_or_empty : Option String → String
content_or_empty none = ""
content_or_empty (some content) = content

-- The rows that the query selects, as the `dict` from their paths; the table has one row for a path
-- of a repository.
unfoldable pub rows_by_path : String → List Finding → List CodeIndex → List (String × CodeIndex)
rows_by_path repo_id findings [] = []
rows_by_path repo_id findings (row ∷ table) =
    let rest = rows_by_path repo_id findings table in
    if row.repo_id == repo_id && any (λ f. f.file == row.file_path) findings
    then insert row.file_path row rest
    else rest

-- What was verified so far, and what was dropped and why
abbrev pub Dealing : Type 0
Dealing = List Finding × List (Finding × Reason)

-- `verified.append(finding)` and `dropped.append((finding, reason))`
abbrev pub keep : Finding → Dealing → Dealing
keep f (verified, dropped) = (verified ++ f ∷ [], dropped)

abbrev pub drop : Finding → Reason → Dealing → Dealing
drop f reason (verified, dropped) = (verified, dropped ++ (f, reason) ∷ [])

-- Guardrail 4
abbrev pub drop_phrase : Finding → Option Reason → Dealing → Dealing
drop_phrase f none out = keep f out
drop_phrase f (some reason) out = drop f reason out

-- `ast_parse` is `ast.parse`: whether it accepts a text, or the exception that is no `SyntaxError`.
module _ (ast_parse : String → Result Bool) where
  abbrev pub file_parses_cleanly : String → String → Result Bool
  file_parses_cleanly content language = if language == "python" then ast_parse content else ok true

  abbrev pub drop_claim : CodeIndex → Finding → Bool → Dealing → Dealing
  drop_claim row f clean out =
      if clean
      then drop f (syntax_claim_on_valid_file f.file row.language) out
      else drop_phrase f (check_banned_phrase f) out

  -- Guardrail 3 and what follows
  unfoldable pub check_claim : CodeIndex → Finding → Dealing → Result Dealing
  check_claim row f out =
      if claims_syntax_error f
      then (file_parses_cleanly (content_or_empty row.content) row.language >>= λ clean.
          ok (drop_claim row f clean out))
      else ok (drop_phrase f (check_banned_phrase f) out)

  -- Guardrail 2 and what follows
  unfoldable pub check_line :
      Option (List DiffHunk) → CodeIndex → Finding → Dealing → Result Dealing
  check_line diff_hunks row f out =
      let rest = check_claim row f out in
      if is_above row.line_count f.line && not (in_diff f diff_hunks)
      then ok (drop f (line_out_of_range f.line row.line_count) out)
      else rest

  -- Guardrail 1 and what follows, given the row of the file
  abbrev pub check_file :
      Option (List DiffHunk) → Option CodeIndex → Finding → Dealing → Result Dealing
  check_file diff_hunks none f out = ok (drop f (file_not_found f.file) out)
  check_file diff_hunks (some row) f out = check_line diff_hunks row f out

  -- The loop
  unfoldable pub verify_all :
      Option (List DiffHunk) → List (String × CodeIndex) → List Finding → Dealing → Result Dealing
  verify_all diff_hunks rows [] out = ok out
  verify_all diff_hunks rows (f ∷ rest) out =
      check_file diff_hunks (lookup f.file rows) f out >>= verify_all diff_hunks rows rest

  unfoldable pub verify_findings :
      List CodeIndex → String → List Finding → Option (List DiffHunk) → Result Dealing
  verify_findings table repo_id [] diff_hunks = ok ([], [])
  verify_findings table repo_id (f ∷ rest) diff_hunks =
      verify_all diff_hunks (rows_by_path repo_id (f ∷ rest) table) (f ∷ rest) ([], [])
