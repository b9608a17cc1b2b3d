-- ===== src/Tests/Gate.antt =====
-- The write gate on the platform of whole hundredths.
use mathlib.Core.List.Perm
use gita.Base.{
  ℕ, String, ◌≡◌, refl, true, none, some, inl, List, [], ◌∷◌, Result, ok, err, key_error,
  value_error,
}
use gita.Base.Text.{decimal, lower, join, strip, first}
use gita.Value.{num, str, strs}
use gita.Platform.{cents}
use gita.Agents.Decision.{
  WriteMode, shadow, comment, full, Outcome, executed, shadow_logged, deduped, Decision,
  get_threshold, outcome_value,
}
use gita.Agents.Signature.{compute_signature, repo_for_signature, signature_material}
use gita.Agents.Signature.Laws.{compute_signature-perm}
use gita.Agents.Ledger.{
  AgentAction, World, has_key, find_row, check_signature, record_action, commit, rollback,
}
use gita.Agents.Gate.{
  Client, Config, returned, execute_decision, external_id_from_side_effect, race_result,
}
use gita.Agents.Gate.Walls.{Asked, execute_decision-Asked}
use gita.Agents.Gate.Rerun.{IsRepeat, rerun-IsRepeat}
use gita.Agents.Gate.Failures.{label_actions_raise, shadow_unsigned_raises}
use gita.Agents.Gate.Alone.{IsGrown, execute_decision-IsGrown}
use gita.Agents.Gate.Races.{execute_decision-Outrun}

-- Opens what a run of the gate goes through.
gate : Unit {0}
unfolding execute_decision get_threshold compute_signature repo_for_signature signature_material
    check_signature record_action commit rollback external_id_from_side_effect outcome_value decimal
    lower join strip first
gate = tt

abbrev note : ℕ → Decision cents
note confidence = record {
  action = "comment";
  target = ("repo", str "R-log/AMASS") ∷ ("issue", num 42) ∷ [];
  payload = ("body", str "hello") ∷ [];
  evidence = "e1" ∷ [];
  confidence = confidence;
}

abbrev obliging : Client cents
obliging calls d = returned (("id", num 7) ∷ [])

abbrev config : WriteMode → Config cents
config mode = record {
  mode = mode;
  client = some obliging;
  thresholds = none;
  session = true;
  agent = some "pr_reviewer";
}

abbrev start : World cents
start = record { committed = []; pending = []; rivals = []; calls = []; issued = 0 }

abbrev row : String → AgentAction cents
row id = record {
  id = id;
  repo_name = "r-log/amass";
  agent = "pr_reviewer";
  action = "comment";
  signature = "r-log/amass\ncomment\n42\nhello";
  external_id = some "7";
  outcome = "executed";
  confidence = 80;
  evidence = "e1" ∷ [];
}

-- A full run executes the comment and records it.
full_run :
    (execute_decision cents (config full) (note 80) start).1
    ≡ record start { pending = row "0" ∷ []; calls = note 80 ∷ []; issued = 1 }
unfolding gate
full_run = refl

execute_decision-Asked_example :
    Asked cents
      (config full)
      (note 80)
      []
      (execute_decision cents (config full) (note 80) start).1.calls
execute_decision-Asked_example = execute_decision-Asked cents (config full) (note 80) start

abbrev result : Result (gita.Agents.Decision.DecisionResult cents)
result = (execute_decision cents (config shadow) (note 80) start).0

rerun-IsRepeat_example :
    IsRepeat cents
      (config full)
      (note 80)
      (commit cents (execute_decision cents (config shadow) (note 80) start).1)
unfolding gate
rerun-IsRepeat_example =
    rerun-IsRepeat cents (config shadow) (config full) (note 80) start
      (execute_decision cents (config shadow) (note 80) start).1 _ 30 refl refl (cc) (inl refl) refl
      refl refl refl

abbrev tag : Decision cents
tag = record {
  action = "add_label";
  target = ("repo", str "a/b") ∷ ("issue", num 1) ∷ [];
  payload = ("labels", strs ("bug" ∷ [])) ∷ [];
  evidence = [];
  confidence = 100;
}

label_actions_raise_example :
    execute_decision cents (config full) tag start ≡ (err key_error, start)
label_actions_raise_example = label_actions_raise cents (config full) tag start refl refl (inl refl)

abbrev nowhere : Decision cents
nowhere = record {
  action = "comment";
  target = ("issue", num 1) ∷ [];
  payload = ("body", str "hello") ∷ [];
  evidence = [];
  confidence = 100;
}

shadow_unsigned_raises_example :
    execute_decision cents (config shadow) nowhere start ≡ (err value_error, start)
unfolding gate
shadow_unsigned_raises_example =
    shadow_unsigned_raises cents (config shadow) nowhere start 30 refl refl refl refl refl

-- A row of an earlier decision that the session has flushed and not committed
abbrev flushed : World cents
flushed = record start { pending = record (row "8") { signature = "other" } ∷ [] }

execute_decision-IsGrown_example :
    IsGrown cents flushed (execute_decision cents (config full) (note 80) flushed).1
execute_decision-IsGrown_example =
    execute_decision-IsGrown cents (config full) (note 80) flushed refl

abbrev contested : World cents
contested = record start { rivals = row "9" ∷ [] }

execute_decision-Outrun_example : execute_decision cents (config full) (note 80) contested ≡ (
  ok (race_result cents (config full) (note 80)),
  record start { committed = row "9" ∷ []; calls = note 80 ∷ [] },
)
unfolding gate has_key find_row
execute_decision-Outrun_example =
    execute_decision-Outrun cents (config full) (note 80) obliging (("id", num 7) ∷ [])
      "r-log/amass\ncomment\n42\nhello" "r-log/amass" (row "9") contested 30 refl refl refl refl
      refl refl refl refl refl refl refl refl

abbrev issue : List String → String → Decision cents
issue keys title = record {
  action = "create_issue";
  target = ("repo", str "a/b") ∷ [];
  payload = ("title", str title) ∷ ("_signature_keys", strs keys) ∷ [];
  evidence = [];
  confidence = 90;
}

compute_signature-perm_example :
    compute_signature cents (issue ("a.py:1" ∷ "b.py:2" ∷ []) "Fix a")
    ≡ compute_signature cents (issue ("b.py:2" ∷ "a.py:1" ∷ []) "Repair b")
unfolding gate
compute_signature-perm_example =
    compute_signature-perm cents (issue ("a.py:1" ∷ "b.py:2" ∷ []) "Fix a")
      (issue ("b.py:2" ∷ "a.py:1" ∷ []) "Repair b") ("a.py:1" ∷ "b.py:2" ∷ [])
      ("b.py:2" ∷ "a.py:1" ∷ []) refl refl refl refl refl (cc) (cc) (Perm.swap _ _ _)
