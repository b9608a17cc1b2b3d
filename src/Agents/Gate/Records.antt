-- ===== src/Agents/Gate/Records.antt =====
-- Which runs of `execute_decision` leave a row in `agent_actions`.
use gita.Base.{
  String, ◌≡◌, ◌≢◌, refl, true, false, not, ◌&&◌, ◌||◌, Bool-cases, ◌⊎◌, inl, inr, Option, none,
  some, arith, Result, ok, err, value_error, integrity_error, if-true,
}
use gita.Base.Exec.{resume, ◌>>=◌}
use gita.Platform.{Platform}
use gita.Agents.Decision.{
  shadow, is_shadow, is_comment, is_comment_action, Outcome, deduped, outcome_value, is_no_record,
  Decision, DecisionResult, get_threshold,
}
use gita.Agents.Signature.{compute_signature}
use gita.Agents.Ledger.{AgentAction, World, record_action}
use gita.Agents.Ledger.Laws.{IsRecorded, OnOk, record_action-IsRecorded}
use gita.Agents.Gate.{
  Config, Attempt, agent_name, lacks_agent, external_id_from_side_effect, finalize, record_result,
  record_and_finalize, execute_side_effect, dedupe_pregate, unless_seen, execute_downgraded,
  plain_outcome, execute_requested, pass_gates, execute_decision, downgraded, pregate_signed,
  report_seen,
}

module _ (p : Platform) (c : Config p) (with_session : c.session ≡ true) where
  -- The run logged in shadow mode or had an effect, and was not a repetition.
  abbrev pub Landed : DecisionResult p → Type 0
  Landed r = (r.outcome ≢ deduped) × ((c.mode ≡ shadow) ⊎ (r.executed ≡ true))

  abbrev pub Keeps : Decision p → DecisionResult p → World p → Type 0
  Keeps d r w = Landed r → IsRecorded p d (agent_name c.agent) w

  -- A result that is not to be recorded comes from no shadow run and had no effect.
  abbrev IsSound : DecisionResult p → Type 0
  IsSound r =
      (r.mode ≡ c.mode) × (is_no_record r.outcome ≡ true → (c.mode ≢ shadow) × (r.executed ≡ false))

  finalize-Keeps :
      (r : DecisionResult p) (recorded : Result (AgentAction p)) (w : World p)
      → OnOk p (λ row w'. IsRecorded p r.decision (agent_name c.agent) w') (recorded, w)
      → OnOk p (Keeps r.decision) (finalize p c r recorded w)
  finalize-Keeps r (ok row) w h = λ _. h
  finalize-Keeps r (err integrity_error) w h = λ (fresh, _). absurd (fresh refl)
  finalize-Keeps r (err _) w h = tt

  record_result-Keeps :
      (r : DecisionResult p) (w : World p) → OnOk p (Keeps r.decision) (record_result p c r w)
  record_result-Keeps r w =
      let (recorded, w') =
        record_action p r.decision (agent_name c.agent) (outcome_value r.outcome)
          (external_id_from_side_effect r.side_effect) w in
      finalize-Keeps r recorded w' (record_action-IsRecorded p r.decision _ _ _ w)

  pure-Keeps :
      (r : DecisionResult p) (w : World p)
      → (r.mode ≡ c.mode)
      → (is_shadow r.mode || r.executed) ≡ false
      → Keeps r.decision r w
  pure-Keeps r w same h (_, inl dark) = ground arith
  pure-Keeps r w same h (_, inr done) = ground arith

  unlanded :
      (r : DecisionResult p)
      → (c.mode ≢ shadow) × (r.executed ≡ false)
      → ¬ ((c.mode ≡ shadow) ⊎ (r.executed ≡ true))
  unlanded r (live, idle) (inl dark) = live dark
  unlanded r (live, idle) (inr done) = cc

  record_and_finalize-Keeps :
      (r : DecisionResult p) (w : World p)
      → IsSound r
      → OnOk p (Keeps r.decision) (record_and_finalize p c r w)
  record_and_finalize-Keeps r w (same, sound) = elim (Bool-cases (is_no_record r.outcome)) [
    | inl skipped ↦
        unfold record_and_finalize in
        rw (with_session, skipped) (λ (_, landed). absurd (unlanded r (sound skipped) landed))
    | inr kept ↦ elim (Bool-cases (is_shadow r.mode || r.executed)) [
      | inl landed ↦
          unfold record_and_finalize in rw (with_session, kept, landed) (record_result-Keeps r w)
      | inr idle ↦
          unfold record_and_finalize in rw (with_session, kept, idle) (pure-Keeps r w same idle)
    ]
  ]

  execute_downgraded-Keeps :
      (d : Decision p) (outcome : Outcome) (body reason : String) (w : World p)
      → is_no_record outcome ≡ false
      → OnOk p (Keeps d) (execute_downgraded p c d outcome body reason w)
  unfolding execute_downgraded
  execute_downgraded-Keeps d outcome body reason w h =
      record_and_finalize-Keeps (downgraded p c d outcome reason _) _ (refl, λ e. cc)

  plain_outcome-IsSound :
      (a : Attempt p)
      → is_no_record (plain_outcome p c a) ≡ true
      → (c.mode ≢ shadow) × (a.executed ≡ false)
  unfolding plain_outcome
  plain_outcome-IsSound a h = ground arith

  execute_requested-Keeps :
      (d : Decision p) (w : World p) → OnOk p (Keeps d) (execute_requested p c d w)
  unfolding execute_requested
  execute_requested-Keeps d w =
      let a = (execute_side_effect p d c.mode c.client w).0 in
      record_and_finalize-Keeps _ _ (refl, plain_outcome-IsSound a)

  pass_gates-Keeps :
      (d : Decision p) (t : p.Float) (w : World p) → OnOk p (Keeps d) (pass_gates p c t d w)
  pass_gates-Keeps d t w = elim (Bool-cases (p.lt d.confidence t)) [
    | inl low ↦ unfold pass_gates in rw low (execute_downgraded-Keeps d _ _ _ w refl)
    | inr high ↦ elim (Bool-cases (is_comment c.mode && not (is_comment_action d.action))) [
      | inl bars ↦ unfold pass_gates in rw (high, bars) (execute_downgraded-Keeps d _ _ _ w refl)
      | inr free ↦ unfold pass_gates in rw (high, free) (execute_requested-Keeps d w)
    ]
  ]

  report_seen-Keeps :
      (d : Decision p) (signature : String) (t : p.Float) (found : Result (Option (AgentAction p)))
      (w : World p)
      → OnOk p (Keeps d) (
          resume
            (report_seen p c d signature found)
            (λ seen. unless_seen p c seen (pass_gates p c t d))
            w)
  report_seen-Keeps d signature t (ok none) w = pass_gates-Keeps d t w
  report_seen-Keeps d signature t (ok (some row)) w = λ (fresh, _). absurd (fresh refl)
  report_seen-Keeps d signature t (err e) w = tt

  pregate-Keeps :
      (d : Decision p) (t : p.Float) (signature : Result String) (w : World p)
      → OnOk p (Keeps d) (
          resume
            (pregate_signed p c d signature w)
            (λ seen. unless_seen p c seen (pass_gates p c t d))
            w)
  pregate-Keeps d t (ok signature) w = report_seen-Keeps d signature t _ w
  pregate-Keeps d t (err value_error) w = pass_gates-Keeps d t w
  pregate-Keeps d t (err _) w = tt

  threshold-Keeps :
      (d : Decision p) (r : Result p.Float) (w : World p)
      → OnOk p (Keeps d) (
          resume r
            (λ t. dedupe_pregate p c d >>= λ seen. unless_seen p c seen (pass_gates p c t d))
            w)
  unfolding dedupe_pregate
  threshold-Keeps d (err e) w = tt
  threshold-Keeps d (ok t) w =
      rw (if-true c.session _ _ with_session) (pregate-Keeps d t (compute_signature p d) w)

  -- A run that returns and landed, in shadow mode or with an effect, leaves a row that
  -- `check_signature` finds.
  pub execute_decision-Keeps :
      (d : Decision p) (w : World p) → OnOk p (Keeps d) (execute_decision p c d w)
  execute_decision-Keeps d w = elim (Bool-cases (c.session && lacks_agent c.agent)) [
    | inl bad ↦ unfold execute_decision in rw bad tt
    | inr fine ↦
        unfold execute_decision in
        rw fine (threshold-Keeps d (get_threshold p d.action c.thresholds) w)
  ]
