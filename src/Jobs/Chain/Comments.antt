-- ===== src/Jobs/Chain/Comments.antt =====
-- A chain in comment mode.
use gita.Base.{String, ◌<>◌, ◌≡◌, refl, false, none, List, [], ◌∷◌, ◌++◌, ok}
use gita.Value.{Dict}
use gita.Platform.{Platform}
use gita.Agents.Decision.{comment, is_comment_action, Decision, get_threshold}
use gita.Agents.Signature.{compute_signature, repo_for_signature}
use gita.Agents.Downgrade.{downgrade_to_comment}
use gita.Agents.Ledger.{World, check_signature, find_row, record_action, commit, rollback}
use gita.Agents.Gate.{
  Client, returned, execute_decision, execute_side_effect, execute_downgraded, dedupe_pregate,
  pass_gates, record_and_finalize,
}
use gita.Jobs.Chain.{run_decisions, execute_decision_chain}

module _ (p : Platform) where
  -- A table without rows, no other writer, and what was asked of the client before.
  abbrev pub fresh : List (Decision p) → World p
  fresh calls = record { committed = []; pending = []; rivals = []; calls = calls; issued = 0 }

  abbrev pub disallowed_comment : Decision p → Decision p
  disallowed_comment d =
      downgrade_to_comment p d ("WRITE_MODE=comment disallows action `" <> (d.action <> "`"))

  -- In comment mode, on a fresh table and with a client that succeeds, a chain whose first decision is
  -- no comment, is confident enough and can be signed asks the client for one thing only: the comment
  -- that explains this first decision. The decisions behind it are neither executed nor explained.
  pub execute_decision_chain-comment :
      (gh_client : Client p) (d : Decision p) (rest calls : List (Decision p)) (effect : Dict)
      (signature repo : String) (t : p.Float)
      → get_threshold p d.action none ≡ ok t
      → p.lt d.confidence t ≡ false
      → is_comment_action d.action ≡ false
      → compute_signature p d ≡ ok signature
      → repo_for_signature p d ≡ ok repo
      → gh_client calls (disallowed_comment d) ≡ returned effect
      → (execute_decision_chain p comment gh_client (d ∷ rest) (fresh calls)).1.calls
        ≡ calls ++ disallowed_comment d ∷ []
  unfolding execute_decision_chain run_decisions execute_decision dedupe_pregate pass_gates
      execute_downgraded execute_side_effect record_and_finalize check_signature find_row
      record_action commit rollback
  execute_decision_chain-comment gh_client d rest calls effect signature repo t known high other
        signed located obliged =
      rw (known, signed, signed, located, high, other, obliged, signed, located) refl
