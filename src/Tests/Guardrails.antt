-- ===== src/Tests/Guardrails.antt =====
-- Four findings on an index of one file.
use gita.Base.{ℕ, String, ◌≡◌, refl, Bool, true, Option, none, some, List, [], ◌∷◌, Result, ok}
use gita.Base.Tables.{lookup, insert}
use gita.Base.Text.{lower, starts_with, skip, text_size, first}
use gita.Agents.Guardrails.Patterns.{search, banned_description_patterns, syntax_error_patterns}
use gita.Agents.Guardrails.Diff.{DiffHunk}
use gita.Agents.Guardrails.{
  Dealing, check_line, check_claim, Finding, CodeIndex, file_not_found, line_out_of_range,
  banned_phrase, check_banned_phrase, claims_syntax_error, line_in_diff_ranges, rows_by_path,
  verify_all, verify_findings,
}
use gita.Base.Integers.{pos, negsuc}
use gita.Agents.Guardrails.Dealt.{IsDealt, verify_findings-IsDealt}

abbrev app : CodeIndex
app = record {
  repo_id = "r";
  file_path = "app.py";
  language = "python";
  content = some "x = 1";
  line_count = 10;
}

abbrev at_line : String → ℕ → String → Finding
at_line file line description = record {
  file = file;
  line = pos line;
  severity = "low";
  kind = "bug";
  description = description;
  fix_sketch = "";
}

-- No file has this line.
abbrev nowhere : Finding
nowhere = record (at_line "app.py" 0 "odd name") { line = negsuc 4 }

abbrev findings : List Finding
findings =
    at_line "app.py" 3 "unused name"
    ∷ at_line "gone.py" 1 "unused name"
    ∷ at_line "app.py" 40 "unused name"
    ∷ at_line "app.py" 4 "Improve docs"
    ∷ at_line "app.py" 12 "new code"
    ∷ nowhere
    ∷ []

abbrev hunks : Option (List DiffHunk)
hunks = some (
    record {
      file_path = "app.py";
      status = "modified";
      additions = 3;
      deletions = 0;
      patch = none;
      changed_ranges = record { start = 11; count = 3 } ∷ [];
      previous_filename = none;
    }
    ∷ [])

abbrev parses : String → Result Bool
parses content = ok true

abbrev outcome : Dealing
outcome = (
  at_line "app.py" 3 "unused name" ∷ at_line "app.py" 12 "new code" ∷ nowhere ∷ [],
  (at_line "gone.py" 1 "unused name", file_not_found "gone.py")
      ∷ (at_line "app.py" 40 "unused name", line_out_of_range (pos 40) 10)
      ∷ (at_line "app.py" 4 "Improve docs", banned_phrase "improve docs")
      ∷ [],
)

verify_tests : verify_findings parses (app ∷ []) "r" findings hunks ≡ ok outcome
unfolding verify_findings verify_all check_line check_claim rows_by_path lookup insert
    line_in_diff_ranges claims_syntax_error check_banned_phrase search banned_description_patterns
    syntax_error_patterns lower starts_with skip text_size first
verify_tests = refl

verify_findings-IsDealt_example :
    (out : Dealing) × (verify_findings parses (app ∷ []) "r" findings hunks ≡ ok out)
    × IsDealt parses (app ∷ []) "r" hunks findings out
verify_findings-IsDealt_example =
    verify_findings-IsDealt parses (app ∷ []) "r" hunks findings (λ content. (true, refl))
