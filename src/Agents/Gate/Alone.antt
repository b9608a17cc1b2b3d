-- ===== src/Agents/Gate/Alone.antt =====
-- A run with no concurrent writer loses nothing that its session has flushed.
use gita.Base.{
  String, ◌≡◌, refl, sym, ap, ◌∙◌, Bool, true, false, not, ◌&&◌, ◌||◌, Bool-cases, inl, inr, Option,
  none, some, Option-cases, Result-cases, List, [], ◌∷◌, ◌++◌, append-nil, Result, ok, err, Error,
  value_error, key_error, type_error, attribute_error, not_implemented, integrity_error, http_error,
  if◌then◌else◌, if-true, subst,
}
use gita.Base.Exec.{Exec, resume, ◌>>=◌}
use gita.Platform.{Platform}
use gita.Agents.Decision.{
  WriteMode, shadow, comment, full, is_comment, is_comment_action, is_shadow, is_no_record,
  Decision, DecisionResult, Outcome, outcome_value, get_threshold,
}
use gita.Agents.Downgrade.{downgrade_to_comment}
use gita.Agents.Signature.{compute_signature, repo_for_signature}
use gita.Agents.Ledger.{AgentAction, World, rows, find_row}
use gita.Agents.Ledger.Laws.{check_signature_lem}
use gita.Agents.Ledger.Races.{record_action-unsigned, record_action-fresh}
use gita.Agents.Gate.{
  Client, Config, agent_name, lacks_agent, external_id_from_side_effect, record_result,
  record_and_finalize, execute_side_effect, dedupe_pregate, pregate_signed, unless_seen,
  execute_downgraded, plain_outcome, downgraded, execute_requested, pass_gates, execute_decision,
}

not-false : (b : Bool) → not b ≡ false → b ≡ true
not-false true h = refl
not-false false h = cc

-- The rows of one world, and those that the session has added in the other
pub record IsGrown (p : Platform) (w w' : World p) : Type 0 where
  pub added : List (AgentAction p)
  pub pending : w'.pending ≡ w.pending ++ added
  pub committed : w'.committed ≡ w.committed

module _ (p : Platform) (c : Config p) (d : Decision p) (w : World p) (alone : w.rivals ≡ []) where
  abbrev asked : List (Decision p) → World p
  asked log = record w { calls = log }

  same-IsGrown : (log : List (Decision p)) → IsGrown p w (asked log)
  same-IsGrown log = record { added = []; pending = sym (append-nil w.pending); committed = refl }

  -- What the pre-gate leaves open: no signature, or a key that no row has
  data IsUnseen : Type 0 where
    unsigned : compute_signature p d ≡ err value_error → IsUnseen
    fresh :
        (signature repo : String)
        → compute_signature p d ≡ ok signature
        → repo_for_signature p d ≡ ok repo
        → find_row p repo (agent_name c.agent) d.action signature (rows p w) ≡ none
        → IsUnseen

  abbrev Run : Type 0
  Run = Exec (World p) (DecisionResult p)

  if-IsGrown :
      (b : Bool) (m n : Run) (v : World p)
      → (b ≡ true → IsGrown p w (m v).1)
      → (b ≡ false → IsGrown p w (n v).1)
      → IsGrown p w ((if b then m else n) v).1
  if-IsGrown true m n v h k = h refl
  if-IsGrown false m n v h k = k refl

  record_result-IsGrown :
      (r : DecisionResult p) (log : List (Decision p))
      → r.decision ≡ d
      → IsUnseen
      → IsGrown p w (record_result p c r (asked log)).1
  record_result-IsGrown r log e (unsigned h) =
      let none_made =
        record_action-unsigned p r.decision (agent_name c.agent) (outcome_value r.outcome)
          (external_id_from_side_effect r.side_effect) (asked log) alone (rw e h) in
      rw none_made (record { added = []; pending = sym (append-nil w.pending); committed = refl })
  record_result-IsGrown r log e (fresh signature repo signed located free) =
      let (row, made) =
        record_action-fresh p r.decision (agent_name c.agent) (outcome_value r.outcome)
          (external_id_from_side_effect r.side_effect) (asked log) alone signature repo
          (rw e signed) (rw e located) (rw e free) in
      rw made (record { added = row ∷ []; pending = refl; committed = refl })

  record_and_finalize-IsGrown :
      (r : DecisionResult p) (log : List (Decision p))
      → r.decision ≡ d
      → (c.session ≡ true → IsUnseen)
      → IsGrown p w (record_and_finalize p c r (asked log)).1
  unfolding record_and_finalize
  record_and_finalize-IsGrown r log e unseen =
      if-IsGrown (not c.session) _ _ (asked log) (λ without. same-IsGrown log)
        (λ with_session.
          if-IsGrown (is_no_record r.outcome) _ _ (asked log) (λ skipped. same-IsGrown log)
            (λ kept.
              if-IsGrown (is_shadow r.mode || r.executed) _ _ (asked log)
                (λ landed.
                  record_result-IsGrown r log e (unseen (not-false c.session with_session)))
                (λ idle. same-IsGrown log)))

  -- The client changes nothing but what it was asked.
  side_effect-asked :
      (x : Decision p) (mode : WriteMode) (client : Option (Client p))
      → (log : List (Decision p)) × ((execute_side_effect p x mode client w).1 ≡ asked log)
  unfolding execute_side_effect
  side_effect-asked x shadow client = (w.calls, refl)
  side_effect-asked x comment none = (w.calls, refl)
  side_effect-asked x full none = (w.calls, refl)
  side_effect-asked x comment (some execute) = (w.calls ++ x ∷ [], refl)
  side_effect-asked x full (some execute) = (w.calls ++ x ∷ [], refl)

  downgraded-IsGrown :
      (outcome : Outcome) (body reason : String)
      → (c.session ≡ true → IsUnseen)
      → IsGrown p w (execute_downgraded p c d outcome body reason w).1
  unfolding execute_downgraded
  downgraded-IsGrown outcome body reason unseen =
      let (log, e) = side_effect-asked (downgrade_to_comment p d body) c.mode c.client in
      subst
        (λ v.
          IsGrown p w
            (record_and_finalize p c
              (downgraded p c d outcome reason
                (execute_side_effect p (downgrade_to_comment p d body) c.mode c.client w).0)
              v).1)
        (sym e) (record_and_finalize-IsGrown _ log refl unseen)

  requested-IsGrown : (c.session ≡ true → IsUnseen) → IsGrown p w (execute_requested p c d w).1
  unfolding execute_requested
  requested-IsGrown unseen =
      let (log, e) = side_effect-asked d c.mode c.client in
      let a = (execute_side_effect p d c.mode c.client w).0 in
      subst
        (λ v.
          IsGrown p w
            (record_and_finalize p c
              (record {
                decision = d;
                mode = c.mode;
                outcome = plain_outcome p c a;
                executed = a.executed;
                downgrade_reason = none;
                error = a.error;
                side_effect = a.side_effect;
              })
              v).1)
        (sym e) (record_and_finalize-IsGrown _ log refl unseen)

  pass_gates-IsGrown :
      (t : p.Float) → (c.session ≡ true → IsUnseen) → IsGrown p w (pass_gates p c t d w).1
  unfolding pass_gates
  pass_gates-IsGrown t unseen =
      if-IsGrown (p.lt d.confidence t) _ _ w (λ low. downgraded-IsGrown _ _ _ unseen)
        (λ high.
          if-IsGrown (is_comment c.mode && not (is_comment_action d.action)) _ _ w
            (λ barred. downgraded-IsGrown _ _ _ unseen) (λ allowed. requested-IsGrown unseen))

  own-IsGrown : IsGrown p w w
  own-IsGrown = same-IsGrown w.calls

  only_value_error : (e : Error) → pregate_signed p c d (err e) w ≡ ok none → e ≡ value_error
  only_value_error value_error h = refl
  only_value_error key_error h = cc
  only_value_error type_error h = cc
  only_value_error attribute_error h = cc
  only_value_error not_implemented h = cc
  only_value_error integrity_error h = cc
  only_value_error http_error h = cc

  located_of :
      (signature : String)
      → compute_signature p d ≡ ok signature
      → (repo : String) × (repo_for_signature p d ≡ ok repo)
  unfolding compute_signature
  located_of signature h = elim (Result-cases (repo_for_signature p d)) [
    | inl (e, failed) ↦ cc (rw failed at h)
    | inr (repo, found) ↦ (repo, found)
  ]

  pregate-IsUnseen : pregate_signed p c d (compute_signature p d) w ≡ ok none → IsUnseen
  pregate-IsUnseen h = elim (Result-cases (compute_signature p d)) [
    | inl (e, failed) ↦ unsigned (failed ∙ ap err (only_value_error e (rw failed at h)))
    | inr (signature, signed) ↦
        let (repo, located) = located_of signature signed in
        let looked = check_signature_lem p d (agent_name c.agent) signature repo w signed located in
        elim (Option-cases (find_row p repo (agent_name c.agent) d.action signature (rows p w))) [
          | inl absent ↦ fresh signature repo signed located absent
          | inr (row, found) ↦ cc (rw (signed, looked, found) at h)
        ]
  ]

  seen-IsGrown :
      (t : p.Float) (seen : Result (Option (DecisionResult p)))
      → (seen ≡ ok none → c.session ≡ true → IsUnseen)
      → IsGrown p w (resume seen (λ seen. unless_seen p c seen (pass_gates p c t d)) w).1
  seen-IsGrown t (ok none) h = pass_gates-IsGrown t (h refl)
  seen-IsGrown t (ok (some r)) h = own-IsGrown
  seen-IsGrown t (err e) h = own-IsGrown

  threshold-IsGrown :
      (r : Result p.Float)
      → IsGrown p w
          (resume r
            (λ t. dedupe_pregate p c d >>= λ seen. unless_seen p c seen (pass_gates p c t d))
            w).1
  threshold-IsGrown (err e) = own-IsGrown
  threshold-IsGrown (ok t) =
      unfold dedupe_pregate in
      seen-IsGrown t (dedupe_pregate p c d w).0
        (λ h with_session. pregate-IsUnseen (sym (if-true c.session _ _ with_session) ∙ h))

  -- If no concurrent writer commits a row while the client is busy, then a run leaves the committed rows
  -- and those that its session has flushed as they were, and at most adds to the latter: the unique
  -- constraint refuses no row, so that nothing is rolled back.
  pub execute_decision-IsGrown : IsGrown p w (execute_decision p c d w).1
  execute_decision-IsGrown = elim (Bool-cases (c.session && lacks_agent c.agent)) [
    | inl bad ↦ unfold execute_decision in rw bad own-IsGrown
    | inr fine ↦
        unfold execute_decision in
        rw fine (threshold-IsGrown (get_threshold p d.action c.thresholds))
  ]
