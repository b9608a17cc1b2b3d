-- ===== src/Agents/Gate/Rerun.antt =====
-- A decision that is recorded is not executed again.
use gita.Base.{
  String, ◌≡◌, ◌≢◌, refl, sym, subst, true, false, ◌&&◌, ◌⊎◌, some, arith, Result, ok, err, if-true,
}
use gita.Platform.{Platform}
use gita.Agents.Decision.{shadow, deduped, Decision, DecisionResult, get_threshold}
use gita.Agents.Signature.{compute_signature}
use gita.Agents.Ledger.{AgentAction, World, check_signature, commit}
use gita.Agents.Ledger.Laws.{IsRecorded, OnOk, IsRecorded-commit}
use gita.Agents.Gate.{
  Config, agent_name, lacks_agent, dedupe_pregate, execute_decision, seen_before,
}
use gita.Agents.Gate.Records.{Keeps, execute_decision-Keeps}

module _ (p : Platform) (c : Config p) where
  -- The run reports a repetition, and changes nothing at all.
  pub record IsRepeat (d : Decision p) (w : World p) : Type 0 where
    pub result : DecisionResult p
    pub ran : execute_decision p c d w ≡ (ok result, w)
    pub outcome : result.outcome ≡ deduped
    pub idle : result.executed ≡ false

  signature_of_recorded :
      (d : Decision p) (agent : String) (w : World p) (row : AgentAction p)
      → (r : Result String) → compute_signature p d ≡ r
      → check_signature p d agent w ≡ ok (some row)
      → (signature : String) × (compute_signature p d ≡ ok signature)
  unfolding check_signature
  signature_of_recorded d agent w row (ok signature) e h = (signature, e)
  signature_of_recorded d agent w row (err x) e h = cc (rw e at h)

  execute_recorded :
      (d : Decision p) (w : World p)
      → c.session ≡ true
      → lacks_agent c.agent ≡ false
      → (t : p.Float) → get_threshold p d.action c.thresholds ≡ ok t
      → IsRecorded p d (agent_name c.agent) w
      → IsRepeat d w
  execute_recorded d w with_session with_agent t known (row, found) =
      let (signature, signed) =
        signature_of_recorded d (agent_name c.agent) w row (compute_signature p d) refl found in
      let guard : (c.session && lacks_agent c.agent) ≡ false = ground arith in
      record {
        result = seen_before p c d signature row;
        ran =
            unfold execute_decision dedupe_pregate in
            rw (guard, known, if-true c.session _ _ with_session, signed, found);
        outcome = refl;
        idle = refl;
      }

-- A run with a session that landed, in shadow mode or with an effect, without being a repetition
-- itself, and was committed makes the next run of the same decision with a session and the same named
-- agent report a repetition, whatever its mode and client are and whatever its thresholds, as long as
-- they know the action: it calls no client and changes nothing.
pub rerun-IsRepeat :
    (p : Platform) (c c' : Config p) (d : Decision p) (w w' : World p) (r : DecisionResult p)
    (t : p.Float)
    → c.session ≡ true
    → execute_decision p c d w ≡ (ok r, w')
    → r.outcome ≢ deduped
    → (c.mode ≡ shadow) ⊎ (r.executed ≡ true)
    → c'.session ≡ true
    → c'.agent ≡ c.agent
    → lacks_agent c'.agent ≡ false
    → get_threshold p d.action c'.thresholds ≡ ok t
    → IsRepeat p c' d (commit p w')
rerun-IsRepeat p c c' d w w' r t with_session ran fresh landed with_session' same named known =
    let kept =
      subst (OnOk p (Keeps p c with_session d)) ran (execute_decision-Keeps p c with_session d w) in
    let recorded = IsRecorded-commit p d (agent_name c.agent) w' (kept (fresh, landed)) in
    execute_recorded p c' d (commit p w') with_session' named t known
      (subst (λ a. IsRecorded p d (agent_name a) (commit p w')) (sym same) recorded)
