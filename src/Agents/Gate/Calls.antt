-- ===== src/Agents/Gate/Calls.antt =====
-- Recording a result asks no client for anything.
use gita.Base.{◌≡◌, refl, ◌∙◌, arith, integrity_error, Result, ok, err}
use gita.Platform.{Platform}
use gita.Agents.Decision.{DecisionResult, outcome_value}
use gita.Agents.Ledger.{AgentAction, World, record_action, rollback}
use gita.Agents.Ledger.Laws.{calls-record_action}
use gita.Agents.Gate.{
  Config, agent_name, external_id_from_side_effect, finalize, record_result, record_and_finalize,
}

module _ (p : Platform) (c : Config p) where
  calls-finalize :
      (r : DecisionResult p) (recorded : Result (AgentAction p)) (w : World p)
      → (finalize p c r recorded w).1.calls ≡ w.calls
  unfolding rollback
  calls-finalize r (ok row) w = refl
  calls-finalize r (err integrity_error) w = refl
  calls-finalize r (err _) w = refl

  calls-record_result :
      (r : DecisionResult p) (w : World p) → (record_result p c r w).1.calls ≡ w.calls
  calls-record_result r w =
      let (recorded, w') =
        record_action p r.decision (agent_name c.agent) (outcome_value r.outcome)
          (external_id_from_side_effect r.side_effect) w in
      calls-finalize r recorded w' ∙ calls-record_action p r.decision _ _ _ w

  pub calls-record_and_finalize :
      (r : DecisionResult p) (w : World p) → (record_and_finalize p c r w).1.calls ≡ w.calls
  unfolding record_and_finalize
  calls-record_and_finalize r w = ground (arith, calls-record_result r w)
