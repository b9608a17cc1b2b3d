-- ===== src/Jobs/Chain/Keeping.antt =====
-- What a chain of decisions leaves as it was.
use gita.Base.{◌≡◌, refl, ◌∙◌, Bool-cases, inl, inr, List, [], ◌∷◌, Result, ok, err}
use gita.Base.Exec.{resume, pure}
use gita.Platform.{Platform}
use gita.Agents.Decision.{WriteMode, shadow, Decision, DecisionResult}
use gita.Agents.Ledger.{World, commit, rollback}
use gita.Agents.Gate.{Client, Config, execute_decision}
use gita.Agents.Gate.Walls.{Asked, nothing, explained, requested, execute_decision-Asked}
use gita.Jobs.Chain.{
  is_progress, Summary, decision_summary, chain_config, proceed, run_decisions, close_session,
  execute_decision_chain,
}

module _ (p : Platform) where
  -- A property of the world that one run of the gate keeps, and a rollback and a commit too.
  record IsKept (c : Config p) (P : World p → Type 0) : Type 0 where
    ran : (d : Decision p) (w : World p) → P w → P (execute_decision p c d w).1
    undone : (w : World p) → P w → P (rollback p w)
    committed : (w : World p) → P w → P (commit p w)

  later-keeps :
      (summary : Summary) (out : Result (List Summary) × World p) (P : World p → Type 0)
      → P out.1
      → P (resume out.0 (λ later. pure (summary ∷ later)) out.1).1
  later-keeps summary (ok later, w) P h = h
  later-keeps summary (err e, w) P h = h

  proceed-keeps :
      (c : Config p) (P : World p → Type 0) (d : Decision p) (rest : List (Decision p))
      (found : Result (DecisionResult p)) (w : World p)
      → P w
      → P (run_decisions p c rest w).1
      → P (resume found (proceed p d (run_decisions p c rest)) w).1
  proceed-keeps c P d rest (err e) w h k = h
  proceed-keeps c P d rest (ok r) w h k = elim (Bool-cases (is_progress r.outcome)) [
    | inl moves ↦ rw moves (later-keeps (decision_summary p d r) (run_decisions p c rest w) P k)
    | inr stands ↦ rw stands h
  ]

  run_decisions-keeps :
      (c : Config p) (P : World p → Type 0) (ds : List (Decision p)) (w : World p)
      → IsKept c P
      → P w
      → P (run_decisions p c ds w).1
  unfolding run_decisions
  run_decisions-keeps c P [] w kept h = h
  run_decisions-keeps c P (d ∷ rest) w kept h =
      let (found, w') = execute_decision p c d w in
      proceed-keeps c P d rest found w' (kept.ran d w h)
        (run_decisions-keeps c P rest w' kept (kept.ran d w h))

  close_session-keeps :
      (c : Config p) (P : World p → Type 0) (out : Result (List Summary) × World p)
      → IsKept c P
      → P out.1
      → P (close_session p out.0 out.1).1
  close_session-keeps c P (ok summaries, w) kept h = kept.undone _ (kept.committed w h)
  close_session-keeps c P (err e, w) kept h = kept.undone w h

  chain-keeps :
      (mode : WriteMode) (gh_client : Client p) (P : World p → Type 0) (ds : List (Decision p))
      (w : World p)
      → IsKept (chain_config p mode gh_client) P
      → P w
      → P (execute_decision_chain p mode gh_client ds w).1
  unfolding execute_decision_chain
  chain-keeps mode gh_client P ds w kept h =
      close_session-keeps (chain_config p mode gh_client) P _ kept
        (run_decisions-keeps _ P ds _ kept (kept.undone w h))

  dark_calls :
      (c : Config p) (d : Decision p) (before after : List (Decision p))
      → c.mode ≡ shadow
      → Asked p c d before after
      → after ≡ before
  dark_calls c d before after dark (nothing same) = same
  dark_calls c d before after dark (explained reason lit refused called) = absurd (lit dark)
  dark_calls c d before after dark (requested lit cleared called) = absurd (lit dark)

  -- In shadow mode a chain asks the client for nothing, however it ends.
  pub calls-execute_decision_chain :
      (gh_client : Client p) (ds : List (Decision p)) (w : World p)
      → (execute_decision_chain p shadow gh_client ds w).1.calls ≡ w.calls
  calls-execute_decision_chain gh_client ds w =
      chain-keeps shadow gh_client (λ v. v.calls ≡ w.calls) ds w
        (record {
          ran = λ d v h.
              dark_calls (chain_config p shadow gh_client) d _ _ refl
                (execute_decision-Asked p (chain_config p shadow gh_client) d v)
              ∙ h;
          undone = λ v h. unfold rollback in h;
          committed = λ v h. unfold commit in h;
        })
        refl
