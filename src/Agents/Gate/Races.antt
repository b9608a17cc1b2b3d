-- ===== src/Agents/Gate/Races.antt =====
-- A concurrent writer that records the same decision while the client is at work.
use gita.Base.{
  String, ◌≡◌, refl, ap, ◌∙◌, true, false, not, ◌&&◌, none, some, [], ◌∷◌, ◌++◌, arith, Result, ok,
  if-true,
}
use gita.Value.{Dict}
use gita.Platform.{Platform}
use gita.Agents.Decision.{
  full, is_comment, is_comment_action, is_no_record, executed, outcome_value, Decision,
  DecisionResult, get_threshold,
}
use gita.Agents.Signature.{compute_signature, repo_for_signature}
use gita.Agents.Ledger.{AgentAction, World, rows, has_key, find_row, check_signature, rollback}
use gita.Agents.Ledger.Laws.{check_signature_lem}
use gita.Agents.Ledger.Races.{record_action-beaten}
use gita.Agents.Gate.{
  Client, Attempt, Config, record_result, returned, agent_name, lacks_agent,
  external_id_from_side_effect, record_and_finalize, execute_side_effect, dedupe_pregate,
  execute_requested, pass_gates, execute_decision, race_result, plain_outcome,
}

module _ (p : Platform) (c : Config p) (d : Decision p) (execute : Client p) (effect : Dict)
    (signature repo : String) (rival : AgentAction p) (w : World p) (live : c.mode ≡ full)
    (with_session : c.session ≡ true) (client : c.client ≡ some execute)
    (signed : compute_signature p d ≡ ok signature) (located : repo_for_signature p d ≡ ok repo)
    (fresh : find_row p repo (agent_name c.agent) d.action signature (rows p w) ≡ none)
    (done : execute w.calls d ≡ returned effect) (alone : w.rivals ≡ rival ∷ [])
    (same : has_key p repo (agent_name c.agent) d.action signature rival ≡ true) where
  abbrev pub Outrun : Result (DecisionResult p) × World p → Type 0
  Outrun m = m ≡ (
    ok (race_result p c d),
    record w {
      committed = w.committed ++ rival ∷ [];
      pending = [];
      rivals = [];
      calls = w.calls ++ d ∷ [];
    },
  )

  abbrev called : World p
  called = record w { calls = w.calls ++ d ∷ [] }

  abbrev attempt : Attempt p
  attempt = record { executed = true; side_effect = some effect; error = none }

  client-called : execute_side_effect p d c.mode c.client w ≡ (attempt, called)
  unfolding execute_side_effect
  client-called = rw (live, client, done)

  recorded :
      (r : DecisionResult p)
      → is_no_record r.outcome ≡ false
      → r.executed ≡ true
      → record_and_finalize p c r called ≡ record_result p c r called
  unfolding record_and_finalize
  recorded r kept landed = ground arith

  abbrev landed_result : DecisionResult p
  landed_result = record {
    decision = d;
    mode = c.mode;
    outcome = executed;
    executed = true;
    downgrade_reason = none;
    error = none;
    side_effect = some effect;
  }

  requested-Outrun : Outrun (execute_requested p c d w)
  unfolding execute_requested plain_outcome rollback
  requested-Outrun =
      let stopped =
        record_action-beaten p d (agent_name c.agent) (outcome_value executed)
          (external_id_from_side_effect (some effect)) signature repo rival called signed located
          fresh alone same in
      rw (client-called, recorded landed_result refl refl, stopped)

-- In full mode, with a session, a named agent and a client that succeeds, for a decision that can be
-- signed, reaches its threshold and has no row yet: when one concurrent writer commits its row after
-- the pre-gate looked and before this run records it, the client executed the decision, and yet the
-- run reports a repetition that executed nothing. The rollback also takes away every row that the
-- session had flushed before and not committed.
pub execute_decision-Outrun :
    (p : Platform) (c : Config p) (d : Decision p) (execute : Client p) (effect : Dict)
    (signature repo : String) (rival : AgentAction p) (w : World p) (t : p.Float)
    → c.mode ≡ full
    → c.session ≡ true
    → lacks_agent c.agent ≡ false
    → c.client ≡ some execute
    → get_threshold p d.action c.thresholds ≡ ok t
    → p.lt d.confidence t ≡ false
    → compute_signature p d ≡ ok signature
    → repo_for_signature p d ≡ ok repo
    → find_row p repo (agent_name c.agent) d.action signature (rows p w) ≡ none
    → execute w.calls d ≡ returned effect
    → w.rivals ≡ rival ∷ []
    → has_key p repo (agent_name c.agent) d.action signature rival ≡ true
    → execute_decision p c d w ≡ (
      ok (race_result p c d),
      record w {
        committed = w.committed ++ rival ∷ [];
        pending = [];
        rivals = [];
        calls = w.calls ++ d ∷ [];
      },
    )
execute_decision-Outrun p c d execute effect signature repo rival w t live with_session named client
      known reached signed located fresh done alone same =
    let guard : (c.session && lacks_agent c.agent) ≡ false = ground arith in
    let allowed : (is_comment c.mode && not (is_comment_action d.action)) ≡ false = ground arith in
    let looked : check_signature p d (agent_name c.agent) w ≡ ok none =
      check_signature_lem p d (agent_name c.agent) signature repo w signed located ∙ ap ok fresh in
    unfold execute_decision dedupe_pregate pass_gates in
    rw (guard, known, if-true c.session _ _ with_session, signed, looked, reached, allowed)
      (requested-Outrun p c d execute effect signature repo rival w live with_session client signed
        located fresh done alone same)
