-- ===== src/Jobs/Chain/Halting.antt =====
-- Where a chain of decisions stops.
use gita.Base.{
  ◌≡◌, refl, ap, sym, subst, true, false, Bool-cases, inl, inr, List, [], ◌∷◌, Result, ok, err,
}
use gita.Base.Exec.{resume, pure}
use gita.Platform.{Platform}
use gita.Agents.Decision.{WriteMode, Decision, DecisionResult}
use gita.Agents.Ledger.{World, commit, rollback}
use gita.Agents.Gate.{Client, Config, execute_decision}
use gita.Jobs.Chain.{
  is_progress, Summary, decision_summary, chain_config, proceed, run_decisions, close_session,
  execute_decision_chain,
}

module _ (p : Platform) (c : Config p) where
  -- The runs of a chain from one world to another, with their summaries: each decision is run in the
  -- world that the one before it left, and nothing is run behind one without progress.
  pub data Halted : List (Decision p) → World p → List Summary → World p → Type 0 where
    finished : (w : World p) → Halted [] w [] w
    stopped :
        (d : Decision p) (rest : List (Decision p)) (w w' : World p) (r : DecisionResult p)
        → execute_decision p c d w ≡ (ok r, w')
        → is_progress r.outcome ≡ false
        → Halted (d ∷ rest) w (decision_summary p d r ∷ []) w'
    proceeded :
        (d : Decision p) (rest : List (Decision p)) (w w1 w' : World p) (r : DecisionResult p)
        (later : List Summary)
        → execute_decision p c d w ≡ (ok r, w1)
        → is_progress r.outcome ≡ true
        → Halted rest w1 later w'
        → Halted (d ∷ rest) w (decision_summary p d r ∷ later) w'

  OnReturn : List (Decision p) → World p → Result (List Summary) × World p → Type 0
  OnReturn ds w (ok summaries, w') = Halted ds w summaries w'
  OnReturn ds w (err e, w') = Unit

  later-Halted :
      (d : Decision p) (rest : List (Decision p)) (w w1 : World p) (r : DecisionResult p)
      (out : Result (List Summary) × World p)
      → execute_decision p c d w ≡ (ok r, w1)
      → is_progress r.outcome ≡ true
      → OnReturn rest w1 out
      → OnReturn (d ∷ rest) w (resume out.0 (λ later. pure (decision_summary p d r ∷ later)) out.1)
  unfolding OnReturn
  later-Halted d rest w w1 r (ok later, w') ran moves h =
      proceeded d rest w w1 w' r later ran moves h
  later-Halted d rest w w1 r (err e, w') ran moves h = tt

  proceed-Halted :
      (d : Decision p) (rest : List (Decision p)) (w : World p)
      (out : Result (DecisionResult p) × World p)
      → execute_decision p c d w ≡ out
      → ((w : World p) → OnReturn rest w (run_decisions p c rest w))
      → OnReturn (d ∷ rest) w (resume out.0 (proceed p d (run_decisions p c rest)) out.1)
  unfolding OnReturn
  proceed-Halted d rest w (err e, w1) ran h = tt
  proceed-Halted d rest w (ok r, w1) ran h = elim (Bool-cases (is_progress r.outcome)) [
    | inl moves ↦ rw moves (later-Halted d rest w w1 r _ ran moves (h w1))
    | inr stands ↦ rw stands (stopped d rest w w1 r ran stands)
  ]

  run_decisions-Halted :
      (ds : List (Decision p)) (w : World p) → OnReturn ds w (run_decisions p c ds w)
  unfolding run_decisions OnReturn
  run_decisions-Halted [] w = finished w
  run_decisions-Halted (d ∷ rest) w =
      proceed-Halted d rest w (execute_decision p c d w) refl (run_decisions-Halted rest)

  close_session-Halted :
      (ds : List (Decision p)) (w w' : World p) (out : Result (List Summary) × World p)
      (summaries : List Summary)
      → OnReturn ds w out
      → close_session p out.0 out.1 ≡ (ok summaries, w')
      → (v : World p) × Halted ds w summaries v × (w' ≡ rollback p (commit p v))
  unfolding OnReturn
  close_session-Halted ds w w' (ok found, v) summaries h e =
      (v, subst (λ ss. Halted ds w ss v) (cc) h, sym (ap (λ o. o.1) e))
  close_session-Halted ds w w' (err x, v) summaries h e = cc

-- A chain that returns ran its decisions in order from the first on, each in the world that the one
-- before it left, and went past each but the last one that it ran only after an outcome that counts as
-- progress: if one was downgraded, rejected or failed, nothing behind it was run. The world at the end
-- is the one that the last run left, committed.
pub execute_decision_chain-Halted :
    (p : Platform) (mode : WriteMode) (gh_client : Client p) (ds : List (Decision p))
    (w w' : World p) (summaries : List Summary)
    → execute_decision_chain p mode gh_client ds w ≡ (ok summaries, w')
    → (v : World p) × Halted p (chain_config p mode gh_client) ds (rollback p w) summaries v
      × (w' ≡ rollback p (commit p v))
unfolding execute_decision_chain
execute_decision_chain-Halted p mode gh_client ds w w' summaries h =
    let c = chain_config p mode gh_client in
    close_session-Halted p c ds (rollback p w) w' (run_decisions p c ds (rollback p w)) summaries
      (run_decisions-Halted p c ds (rollback p w)) h
