-- ===== src/Jobs/Chain.antt =====
-- `_execute_decision_chain` of jobs/runners.py: decisions that build on each other, one session for
-- all of them, and a stop at the first that makes no progress.
pub mod Halting
pub mod Keeping
pub mod Comments
use gita.Base.{
  String, Bool, true, false, Option, none, some, List, [], ◌∷◌, ◌==◌, if◌then◌else◌, Result, ok,
  err,
}
use gita.Base.Exec.{Exec, pure, ◌>>=◌}
use gita.Value.{Value, Dict, get}
use gita.Platform.{Platform}
use gita.Agents.Decision.{
  WriteMode, Outcome, executed, shadow_logged, deduped, is_shadow, outcome_value, Decision,
  DecisionResult,
}
use gita.Agents.Ledger.{World, commit, rollback}
use gita.Agents.Gate.{Client, Config, execute_decision}

-- `outcome in _PROGRESS_OUTCOMES`
abbrev pub is_progress : Outcome → Bool
is_progress executed = true
is_progress shadow_logged = true
is_progress deduped = true
is_progress _ = false

-- The `dict` that `_decision_summary` returns; `names` holds the keys that depend on the action.
pub record Summary : Type 0 where
  pub action : String
  pub outcome : String
  pub downgrade_reason : Option String
  pub error : Option String
  pub side_effect : Dict
  pub names : Dict

abbrev copied : Option Dict → Dict
copied none = []
copied (some d) = d

abbrev action_names : String → Dict → Dict
action_names action payload =
    if action == "create_branch"
    then ("ref", get "ref" payload) ∷ []
    else if action == "update_file"
    then ("path", get "path" payload) ∷ []
    else if action == "open_pr"
    then ("head", get "head" payload) ∷ ("base", get "base" payload) ∷ []
    else []

module _ (p : Platform) where
  abbrev pub decision_summary : Decision p → DecisionResult p → Summary
  decision_summary d r = record {
    action = d.action;
    outcome = outcome_value r.outcome;
    downgrade_reason = r.downgrade_reason;
    error = r.error;
    side_effect = copied r.side_effect;
    names = action_names d.action d.payload;
  }

  -- The keyword arguments that the chain gives to `execute_decision`: a client unless in shadow mode.
  abbrev pub chain_config : WriteMode → Client p → Config p
  chain_config mode gh_client = record {
    mode = mode;
    client = if is_shadow mode then none else some gh_client;
    thresholds = none;
    session = true;
    agent = some "test_generator";
  }

  -- What the loop does with a result, and with the rest of the decisions.
  abbrev pub proceed :
      Decision p → Exec (World p) (List Summary) → DecisionResult p → Exec (World p) (List Summary)
  proceed d rest r =
      if is_progress r.outcome
      then (rest >>= λ later. pure (decision_summary d r ∷ later))
      else pure (decision_summary d r ∷ [])

  -- The loop
  unfoldable pub run_decisions : Config p → List (Decision p) → Exec (World p) (List Summary)
  run_decisions c [] = pure []
  run_decisions c (d ∷ rest) =
      let later = run_decisions c rest in execute_decision p c d >>= proceed d later

  -- The end of the `async with` block: the commit is reached if nothing was raised, and the session
  -- takes what it did not commit with it.
  abbrev pub close_session : Result (List Summary) → World p → Result (List Summary) × World p
  close_session (ok summaries) w = (ok summaries, rollback p (commit p w))
  close_session (err e) w = (err e, rollback p w)

  -- The whole chain, in a session of its own
  unfoldable pub execute_decision_chain :
      WriteMode → Client p → List (Decision p) → Exec (World p) (List Summary)
  execute_decision_chain mode gh_client decisions w =
      let (ran, w') = run_decisions (chain_config mode gh_client) decisions (rollback p w) in
      close_session ran w'
