-- ===== src/Agents/Gate/Failures.antt =====
-- Exceptions that `execute_decision` lets through.
use gita.Base.{
  String, ◌≡◌, refl, true, false, ◌&&◌, Bool-cases, ◌⊎◌, inl, inr, none, arith, ok, err,
  value_error, key_error, if-true, not, ap, ◌∙◌,
}
use gita.Platform.{Platform}
use gita.Agents.Decision.{
  shadow, is_no_record, is_comment, is_comment_action, Outcome, Decision, DecisionResult,
  get_threshold,
}
use gita.Agents.Signature.{compute_signature}
use gita.Agents.Ledger.{World, settle, record_action}
use gita.Agents.Gate.{
  Config, Attempt, lacks_agent, record_and_finalize, execute_downgraded, execute_requested,
  execute_side_effect, dedupe_pregate, pass_gates, execute_decision, plain_outcome,
}

-- With the default thresholds, and an agent if there is a session, the actions `add_label` and
-- `remove_label` raise a `KeyError` and change nothing.
pub label_actions_raise :
    (p : Platform) (c : Config p) (d : Decision p) (w : World p)
    → (c.session && lacks_agent c.agent) ≡ false
    → c.thresholds ≡ none
    → (d.action ≡ "add_label") ⊎ (d.action ≡ "remove_label")
    → execute_decision p c d w ≡ (err key_error, w)
label_actions_raise p c d w named defaults (inl label) =
    unfold execute_decision get_threshold in rw (named, defaults, label)
label_actions_raise p c d w named defaults (inr label) =
    unfold execute_decision get_threshold in rw (named, defaults, label)

module _ (p : Platform) (c : Config p) where
  record_raises :
      (r : DecisionResult p) (w : World p)
      → c.session ≡ true
      → is_no_record r.outcome ≡ false
      → r.mode ≡ shadow
      → compute_signature p r.decision ≡ err value_error
      → record_and_finalize p c r w ≡ (err value_error, settle p w.rivals w)
  unfolding record_and_finalize record_action
  record_raises r w with_session kept dark unsigned = rw (with_session, kept, dark, unsigned)

  shadow_side_effect :
      (d : Decision p) (w : World p)
      → c.mode ≡ shadow
      → (execute_side_effect p d c.mode c.client w).1 ≡ w
  unfolding execute_side_effect
  shadow_side_effect d w dark = ground arith

  downgraded_raises :
      (d : Decision p) (outcome : Outcome) (body reason : String) (w : World p)
      → c.session ≡ true
      → is_no_record outcome ≡ false
      → c.mode ≡ shadow
      → compute_signature p d ≡ err value_error
      → execute_downgraded p c d outcome body reason w ≡ (err value_error, settle p w.rivals w)
  unfolding execute_downgraded
  downgraded_raises d outcome body reason w with_session kept dark unsigned =
      record_raises _ _ with_session kept dark unsigned
      ∙ ap (λ v. (err value_error, settle p v.rivals v)) (shadow_side_effect _ w dark)

  plain_outcome_shadow :
      (a : Attempt p) → c.mode ≡ shadow → is_no_record (plain_outcome p c a) ≡ false
  unfolding plain_outcome
  plain_outcome_shadow a dark = ground arith

  requested_raises :
      (d : Decision p) (w : World p)
      → c.session ≡ true
      → c.mode ≡ shadow
      → compute_signature p d ≡ err value_error
      → execute_requested p c d w ≡ (err value_error, settle p w.rivals w)
  unfolding execute_requested
  requested_raises d w with_session dark unsigned =
      let a = (execute_side_effect p d c.mode c.client w).0 in
      record_raises _ _ with_session (plain_outcome_shadow a dark) dark unsigned
      ∙ ap (λ v. (err value_error, settle p v.rivals v)) (shadow_side_effect d w dark)

  pass_gates_raises :
      (d : Decision p) (t : p.Float) (w : World p)
      → c.session ≡ true
      → c.mode ≡ shadow
      → compute_signature p d ≡ err value_error
      → pass_gates p c t d w ≡ (err value_error, settle p w.rivals w)
  pass_gates_raises d t w with_session dark unsigned = elim (Bool-cases (p.lt d.confidence t)) [
    | inl low ↦
        unfold pass_gates in rw low (downgraded_raises d _ _ _ w with_session refl dark unsigned)
    | inr high ↦
        let free : (is_comment c.mode && not (is_comment_action d.action)) ≡ false = ground arith in
        unfold pass_gates in rw (high, free) (requested_raises d w with_session dark unsigned)
  ]

-- In shadow mode with a session and a named agent, a decision whose action has a threshold and whose
-- signature cannot be computed raises a `ValueError`, after the rows of other writers came in: it is
-- neither reported as logged nor recorded.
pub shadow_unsigned_raises :
    (p : Platform) (c : Config p) (d : Decision p) (w : World p) (t : p.Float)
    → c.mode ≡ shadow
    → c.session ≡ true
    → lacks_agent c.agent ≡ false
    → get_threshold p d.action c.thresholds ≡ ok t
    → compute_signature p d ≡ err value_error
    → execute_decision p c d w ≡ (err value_error, settle p w.rivals w)
shadow_unsigned_raises p c d w t dark with_session named known unsigned =
    let guard : (c.session && lacks_agent c.agent) ≡ false = ground arith in
    let gates = pass_gates_raises p c d t w with_session dark unsigned in
    unfold execute_decision dedupe_pregate in
    rw (guard, known, if-true c.session _ _ with_session, unsigned) gates
