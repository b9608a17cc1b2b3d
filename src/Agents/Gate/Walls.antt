-- ===== src/Agents/Gate/Walls.antt =====
-- What `execute_decision` may ask a client to do.
use gita.Base.{
  String, ◌≡◌, ◌≢◌, refl, ◌∙◌, Bool, true, false, Bool-cases, ◌⊎◌, inl, inr, Option, none, some,
  List, [], ◌∷◌, ◌++◌, arith, Result, ok, err, not, ◌&&◌,
}
use gita.Base.Exec.{resume, ◌>>=◌}
use gita.Platform.{Platform}
use gita.Agents.Decision.{
  WriteMode, shadow, comment, full, is_comment, is_comment_action, Decision, DecisionResult,
  Outcome, get_threshold,
}
use gita.Agents.Downgrade.{downgrade_to_comment}
use gita.Agents.Ledger.{World}
use gita.Agents.Gate.{
  Client, Config, execute_side_effect, dedupe_pregate, unless_seen, execute_downgraded,
  execute_requested, pass_gates, execute_decision, lacks_agent,
}
use gita.Agents.Gate.Calls.{calls-record_and_finalize}

module _ (p : Platform) (c : Config p) where
  open p use {Float, lt}

  -- The decision reached its threshold, and the mode allows its action.
  pub record IsCleared (d : Decision p) : Type 0 where
    pub threshold : Float
    pub known : get_threshold p d.action c.thresholds ≡ ok threshold
    pub reached : lt d.confidence threshold ≡ false
    pub allowed : (c.mode ≡ comment) → is_comment_action d.action ≡ true

  -- One of the two gates refused the decision.
  pub data IsRefused (d : Decision p) : Type 0 where
    below :
        (threshold : Float)
        → get_threshold p d.action c.thresholds ≡ ok threshold
        → lt d.confidence threshold ≡ true
        → IsRefused d
    disallowed : c.mode ≡ comment → is_comment_action d.action ≡ false → IsRefused d

  -- What was asked of the client between two states of its log.
  pub data Asked (d : Decision p) (before after : List (Decision p)) : Type 0 where
    nothing : after ≡ before → Asked d before after
    explained :
        (reason : String)
        → c.mode ≢ shadow
        → IsRefused d
        → after ≡ before ++ downgrade_to_comment p d reason ∷ []
        → Asked d before after
    requested : c.mode ≢ shadow → IsCleared d → after ≡ before ++ d ∷ [] → Asked d before after

  side_effect_cases :
      (d : Decision p) (mode : WriteMode) (client : Option (Client p)) (w : World p)
      → ((execute_side_effect p d mode client w).1.calls ≡ w.calls)
        ⊎ ((mode ≢ shadow) × ((execute_side_effect p d mode client w).1.calls ≡ w.calls ++ d ∷ []))
  unfolding execute_side_effect
  side_effect_cases d shadow client w = inl refl
  side_effect_cases d comment none w = inl refl
  side_effect_cases d full none w = inl refl
  side_effect_cases d comment (some execute) w = inr (cc, refl)
  side_effect_cases d full (some execute) w = inr (cc, refl)

  execute_downgraded-Asked :
      (d : Decision p) (outcome : Outcome) (body reason : String) (w : World p)
      → IsRefused d
      → Asked d w.calls (execute_downgraded p c d outcome body reason w).1.calls
  unfolding execute_downgraded
  execute_downgraded-Asked d outcome body reason w refused =
      let kept = calls-record_and_finalize p c _ _ in
      elim (side_effect_cases (downgrade_to_comment p d body) c.mode c.client w) [
        | inl same ↦ nothing (kept ∙ same)
        | inr (live, called) ↦ explained body live refused (kept ∙ called)
      ]

  execute_requested-Asked :
      (d : Decision p) (w : World p)
      → IsCleared d
      → Asked d w.calls (execute_requested p c d w).1.calls
  unfolding execute_requested
  execute_requested-Asked d w cleared =
      let kept = calls-record_and_finalize p c _ _ in
      elim (side_effect_cases d c.mode c.client w) [
        | inl same ↦ nothing (kept ∙ same)
        | inr (live, called) ↦ requested live cleared (kept ∙ called)
      ]

  disallows : WriteMode → String → Bool
  disallows mode action = is_comment mode && not (is_comment_action action)

  disallows-IsRefused : (d : Decision p) → disallows c.mode d.action ≡ true → IsRefused d
  unfolding disallows
  disallows-IsRefused d h = disallowed (ground arith) (ground arith)

  allows-IsCleared :
      (d : Decision p) (t : Float)
      → get_threshold p d.action c.thresholds ≡ ok t
      → lt d.confidence t ≡ false
      → disallows c.mode d.action ≡ false
      → IsCleared d
  unfolding disallows
  allows-IsCleared d t known reached h = record {
    threshold = t;
    known = known;
    reached = reached;
    allowed = λ e. ground arith;
  }

  pass_gates-Asked :
      (d : Decision p) (t : Float) (w : World p)
      → get_threshold p d.action c.thresholds ≡ ok t
      → Asked d w.calls (pass_gates p c t d w).1.calls
  pass_gates-Asked d t w known = elim (Bool-cases (lt d.confidence t)) [
    | inl low ↦ unfold pass_gates in rw low (execute_downgraded-Asked d _ _ _ w (below t known low))
    | inr high ↦ elim (Bool-cases (disallows c.mode d.action)) [
      | inl bars ↦
          unfold pass_gates disallows in
          rw (high, bars) (execute_downgraded-Asked d _ _ _ w (disallows-IsRefused d bars))
      | inr free ↦
          unfold pass_gates disallows in
          rw (high, free) (execute_requested-Asked d w (allows-IsCleared d t known high free))
    ]
  ]

  unless_seen-Asked :
      (d : Decision p) (r : Result (Option (DecisionResult p))) (t : Float) (w : World p)
      → get_threshold p d.action c.thresholds ≡ ok t
      → Asked d w.calls (resume r (λ seen. unless_seen p c seen (pass_gates p c t d)) w).1.calls
  unless_seen-Asked d (ok none) t w known = pass_gates-Asked d t w known
  unless_seen-Asked d (ok (some r)) t w known = nothing refl
  unless_seen-Asked d (err e) t w known = nothing refl

  threshold-Asked :
      (d : Decision p) (r : Result Float) (w : World p)
      → get_threshold p d.action c.thresholds ≡ r
      → Asked d w.calls
          (resume r
            (λ t. dedupe_pregate p c d >>= λ seen. unless_seen p c seen (pass_gates p c t d))
            w).1.calls
  threshold-Asked d (err e) w known = nothing refl
  threshold-Asked d (ok t) w known =
      unfold dedupe_pregate in unless_seen-Asked d (dedupe_pregate p c d w).0 t w known

  -- Whatever the mode, the client, the table and the concurrent writers, one run asks the client for
  -- at most one thing, never in shadow mode: the decision itself, after it reached its threshold and
  -- the mode allowed its action, or a comment that explains it, after one of the two gates refused it.
  pub execute_decision-Asked :
      (d : Decision p) (w : World p) → Asked d w.calls (execute_decision p c d w).1.calls
  execute_decision-Asked d w = elim (Bool-cases (c.session && lacks_agent c.agent)) [
    | inl bad ↦ unfold execute_decision in rw bad (nothing refl)
    | inr fine ↦
        unfold execute_decision in
        rw fine (threshold-Asked d (get_threshold p d.action c.thresholds) w refl)
  ]
