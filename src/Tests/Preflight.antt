-- ===== src/Tests/Preflight.antt =====
-- Stage B on an index of two files.
use gita.Base.{String, ◌≡◌, refl, true, false, Option, none, some, List, [], ◌∷◌}
use gita.Base.Text.{lower, strip, starts_with, split_on, first, text_size}
use gita.Platform.{cents}
use gita.Agents.Ledger.{AgentAction}
use gita.Agents.Preflight.{
  IndexedFile, public_names, basename, contains, find_indexed, has_prior_test_gen_attempt, judge,
  is_feasible,
}

abbrev file : String → List (Option String) → IndexedFile
file path functions = record {
  repo_id = "r";
  file_path = path;
  language = "python";
  line_count = 40;
  functions = functions;
  classes = [];
  content = none;
}

abbrev table : List IndexedFile
table = file "a.py" (some "run" ∷ []) ∷ file "b.py" (some "_run" ∷ none ∷ []) ∷ []

abbrev attempt : AgentAction cents
attempt = record {
  id = "0";
  repo_name = "o/r";
  agent = "test_generator";
  action = "create_branch";
  signature = "s";
  external_id = none;
  outcome = "executed";
  confidence = 95;
  evidence = "purpose: add tests for `a.py`" ∷ [];
}

preflight_tests :
    (is_feasible cents table [] "r" "O/R" "a.py" ≡ record { proceed = true; reason = "ok" })
    × (is_feasible cents table (attempt ∷ []) "r" "O/R" "a.py"
        ≡ record { proceed = false; reason = "infeasible:prior_attempt_exists" })
    × (is_feasible cents table [] "r" "O/R" "c.py"
        ≡ record { proceed = false; reason = "infeasible:not_indexed" })
unfolding is_feasible judge find_indexed has_prior_test_gen_attempt public_names basename contains
    lower strip starts_with split_on first text_size
preflight_tests = (refl, refl, refl)
