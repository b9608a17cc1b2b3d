-- ===== src/Agents/Gate.antt =====
-- The write gate: `execute_decision` of agents/decisions.py and the steps that it is made of.
pub mod Calls
pub mod Walls
pub mod Records
pub mod Rerun
pub mod Failures
pub mod Races
pub mod Alone
use gita.Base.{
  String, ◌<>◌, Bool, true, false, not, ◌&&◌, ◌||◌, Option, none, some, List, [], ◌∷◌, ◌++◌, ◌==◌,
  if◌then◌else◌, value_error, integrity_error, Result, ok, err,
}
use gita.Base.Exec.{Exec, pure, lift, ◌>>=◌, ◌>>◌}
use gita.Value.{Value, null, flag, str, Dict, get, is_null, to_str}
use gita.Platform.{Platform}
use gita.Agents.Decision.{
  WriteMode, Outcome, executed, shadow_logged, downgraded_low_confidence, downgraded_write_mode,
  rejected_no_client, error, deduped, is_shadow, is_comment, outcome_value, is_comment_action,
  is_no_record, Decision, DecisionResult, Thresholds, get_threshold,
}
use gita.Agents.Signature.{compute_signature}
use gita.Agents.Ledger.{AgentAction, World, check_signature, record_action, rollback}
use gita.Agents.Downgrade.{downgrade_to_comment}

-- What `client.execute` does: it returns a dict, or raises an exception with this text.
pub data Reply : Type 0 where
  returned : Dict → Reply
  raised : String → Reply

-- `_external_id_from_side_effect`
first_id : List String → Dict → Option String
first_id [] d = none
first_id (k ∷ ks) d =
    let value = get k d in if is_null value then first_id ks d else some (to_str value)

unfoldable pub external_id_from_side_effect : Option Dict → Option String
unfolding first_id
external_id_from_side_effect none = none
external_id_from_side_effect (some []) = none
external_id_from_side_effect (some (e ∷ d)) =
    first_id ("id" ∷ "external_id" ∷ "issue_number" ∷ "comment_id" ∷ []) (e ∷ d)

-- `d[k] = v`
set_key : String → Value → Dict → Dict
set_key k v [] = (k, v) ∷ []
set_key k v ((j, u) ∷ d) = if j == k then (k, v) ∷ d else (j, u) ∷ set_key k v d

abbrev optional_text : Option String → Value
optional_text none = null
optional_text (some s) = str s

abbrev dict_or_empty : Option Dict → Dict
dict_or_empty none = []
dict_or_empty (some d) = d

-- `not agent`
abbrev pub lacks_agent : Option String → Bool
lacks_agent none = true
lacks_agent (some name) = name == ""

-- The agent of a session, which `execute_decision` has made sure of.
abbrev pub agent_name : Option String → String
agent_name none = ""
agent_name (some name) = name

module _ (p : Platform) where
  open p use {Float, lt, fixed2}

  -- A client answers a decision, after the decisions that it was asked to execute before.
  abbrev pub Client : Type 0
  Client = List (Decision p) → Decision p → Reply

  -- The keyword arguments of `execute_decision`; `session` says whether one was passed.
  pub record Config : Type 0 where
    pub mode : WriteMode
    pub client : Option Client
    pub thresholds : Option (Thresholds p)
    pub session : Bool
    pub agent : Option String

  -- The triple that `_execute_side_effect` returns.
  pub record Attempt : Type 0 where
    pub executed : Bool
    pub side_effect : Option Dict
    pub error : Option String

  abbrev attempt_of : Reply → Attempt
  attempt_of (returned effect) = record { executed = true; side_effect = some effect; error = none }
  attempt_of (raised text) = record { executed = false; side_effect = none; error = some text }

  unfoldable pub execute_side_effect :
      Decision p → WriteMode → Option Client → World p → Attempt × World p
  execute_side_effect d mode client w =
      if is_shadow mode
      then (record { executed = false; side_effect = none; error = none }, w)
      else elim client [
        | none ↦ (
          record { executed = false; side_effect = none; error = some "no ActionClient provided" },
          w,
        )
        | some execute ↦ (attempt_of (execute w.calls d), record w { calls = w.calls ++ d ∷ [] })
      ]

  module _ (c : Config) where
    open c use {mode, client, thresholds, session, agent}

    abbrev deduped_result : Decision p → Dict → DecisionResult p
    deduped_result d effect = record {
      decision = d;
      mode = mode;
      outcome = deduped;
      executed = false;
      downgrade_reason = none;
      error = none;
      side_effect = some effect;
    }

    abbrev seen_before : Decision p → String → AgentAction p → DecisionResult p
    seen_before d signature row = deduped_result d (
        ("deduped", flag true)
        ∷ ("agent_action_id", str row.id)
        ∷ ("external_id", optional_text row.external_id)
        ∷ ("previous_outcome", str row.outcome)
        ∷ ("signature", str signature)
        ∷ [])

    abbrev report_seen :
        Decision p → String → Result (Option (AgentAction p)) → Result (Option (DecisionResult p))
    report_seen d signature (err e) = err e
    report_seen d signature (ok none) = ok none
    report_seen d signature (ok (some row)) = ok (some (seen_before d signature row))

    -- Only a `ValueError` of the signature is caught.
    abbrev pregate_signed :
        Decision p → Result String → World p → Result (Option (DecisionResult p))
    pregate_signed d (err value_error) w = ok none
    pregate_signed d (err e) w = err e
    pregate_signed d (ok signature) w =
        report_seen d signature (check_signature p d (agent_name agent) w)

    unfoldable pub dedupe_pregate : Decision p → Exec (World p) (Option (DecisionResult p))
    dedupe_pregate d w =
        (if session then pregate_signed d (compute_signature p d) w else ok none, w)

    abbrev pub race_result : Decision p → DecisionResult p
    race_result d = deduped_result d (("deduped", flag true) ∷ ("via", str "integrity_race") ∷ [])

    abbrev tagged : DecisionResult p → AgentAction p → DecisionResult p
    tagged r row = record r {
      side_effect = some (set_key "agent_action_id" (str row.id) (dict_or_empty r.side_effect));
    }

    abbrev finalize :
        DecisionResult p → Result (AgentAction p) → World p → Result (DecisionResult p) × World p
    finalize r (ok row) w = (ok (tagged r row), w)
    finalize r (err integrity_error) w = (ok (race_result r.decision), rollback p w)
    finalize r (err e) w = (err e, w)

    abbrev record_result : DecisionResult p → Exec (World p) (DecisionResult p)
    record_result r w =
        let (recorded, w') =
          record_action p r.decision (agent_name agent) (outcome_value r.outcome)
            (external_id_from_side_effect r.side_effect) w in
        finalize r recorded w'

    unfoldable pub record_and_finalize : DecisionResult p → Exec (World p) (DecisionResult p)
    unfolding set_key
    record_and_finalize r =
        if not session
        then pure r
        else if is_no_record r.outcome
        then pure r
        else if is_shadow r.mode || r.executed
        then record_result r
        else pure r

    abbrev downgraded : Decision p → Outcome → String → Attempt → DecisionResult p
    downgraded d outcome reason a = record {
      decision = d;
      mode = mode;
      outcome = outcome;
      executed = a.executed;
      downgrade_reason = some reason;
      error = a.error;
      side_effect = a.side_effect;
    }

    -- Gates 3 and 4: execute the comment that explains the decision.
    unfoldable pub execute_downgraded :
        Decision p → Outcome → String → String → Exec (World p) (DecisionResult p)
    execute_downgraded d outcome body_reason reason w =
        let (a, w') = execute_side_effect (downgrade_to_comment p d body_reason) mode client w in
        record_and_finalize (downgraded d outcome reason a) w'

    unfoldable pub plain_outcome : Attempt → Outcome
    plain_outcome a =
        if a.executed then executed else if is_shadow mode then shadow_logged else elim a.error [
          | some text ↦ if text == "no ActionClient provided" then rejected_no_client else error
          | none ↦ error
        ]

    -- Gate 5: execute as requested.
    unfoldable pub execute_requested : Decision p → Exec (World p) (DecisionResult p)
    unfolding plain_outcome
    execute_requested d w =
        let (a, w') = execute_side_effect d mode client w in
        record_and_finalize
          (record {
            decision = d;
            mode = mode;
            outcome = plain_outcome a;
            executed = a.executed;
            downgrade_reason = none;
            error = a.error;
            side_effect = a.side_effect;
          })
          w'

    abbrev low_confidence : Decision p → Float → String
    low_confidence d threshold =
        "confidence " <> (fixed2 d.confidence <> (" below threshold " <> fixed2 threshold))

    abbrev low_confidence_body : Decision p → Float → String
    low_confidence_body d threshold =
        "confidence "
        <> (fixed2 d.confidence
            <> (" is below threshold "
                <> (fixed2 threshold <> (" for action `" <> (d.action <> "`")))))

    unfoldable pub pass_gates : Float → Decision p → Exec (World p) (DecisionResult p)
    unfolding execute_downgraded execute_requested
    pass_gates threshold d =
        if lt d.confidence threshold
        then execute_downgraded d downgraded_low_confidence (low_confidence_body d threshold)
            (low_confidence d threshold)
        else if is_comment mode && not (is_comment_action d.action)
        then execute_downgraded d downgraded_write_mode
            ("WRITE_MODE=comment disallows action `" <> (d.action <> "`"))
            ("WRITE_MODE=comment, action was `" <> (d.action <> "`"))
        else execute_requested d

    abbrev unless_seen :
        Option (DecisionResult p)
        → Exec (World p) (DecisionResult p)
        → Exec (World p) (DecisionResult p)
    unless_seen (some r) k = pure r
    unless_seen none k = k

    unfoldable pub execute_decision : Decision p → Exec (World p) (DecisionResult p)
    unfolding dedupe_pregate pass_gates record_and_finalize execute_side_effect
    execute_decision d = do
      lift (if session && lacks_agent agent then err value_error else ok tt)
      threshold ← lift (get_threshold p d.action thresholds)
      seen ← dedupe_pregate d
      unless_seen seen (pass_gates threshold d)
