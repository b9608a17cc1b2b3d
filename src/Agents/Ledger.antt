-- ===== src/Agents/Ledger.antt =====
-- The table `agent_actions` of db/models.py as one session sees it, and `check_signature` and
-- `record_action` of agents/dedupe.py on it.
pub mod Laws
pub mod Unique
pub mod Races
use gita.Base.{
  ℕ, ◌+◌, String, Bool, ◌&&◌, Option, none, some, List, [], ◌∷◌, ◌++◌, ◌==◌, any, if◌then◌else◌,
  integrity_error, Result, ok, err, ◌>>=◌,
}
use gita.Base.Exec.{Exec}
use gita.Platform.{Platform}
use gita.Agents.Decision.{Decision}
use gita.Agents.Signature.{repo_for_signature, compute_signature}

module _ (p : Platform) where
  open p use {Float, uuid}

  pub record AgentAction : Type 0 where
    pub id : String
    pub repo_name : String
    pub agent : String
    pub action : String
    pub signature : String
    pub external_id : Option String
    pub outcome : String
    pub confidence : Float
    pub evidence : List String

  -- `committed` is what every session sees and `pending` what this one has flushed and not committed.
  -- `rivals` are rows that concurrent writers commit while this session waits for the client.
  -- `calls` are the decisions that a client was asked to execute, and `issued` counts the row ids.
  pub record World : Type 0 where
    pub committed : List AgentAction
    pub pending : List AgentAction
    pub rivals : List AgentAction
    pub calls : List (Decision p)
    pub issued : ℕ

  abbrev pub rows : World → List AgentAction
  rows w = w.committed ++ w.pending

  -- Whether a row has the key of the unique constraint `uq_agent_actions_signature`.
  unfoldable pub has_key : String → String → String → String → AgentAction → Bool
  has_key repo agent action signature row =
      row.repo_name == repo
      && (row.agent == agent && (row.action == action && row.signature == signature))

  unfoldable pub find_row :
      String → String → String → String → List AgentAction → Option AgentAction
  find_row repo agent action signature [] = none
  find_row repo agent action signature (row ∷ table) =
      if has_key repo agent action signature row
      then some row
      else find_row repo agent action signature table

  abbrev pub is_taken : AgentAction → List AgentAction → Bool
  is_taken row = any (has_key row.repo_name row.agent row.action row.signature)

  unfoldable pub check_signature : Decision p → String → World → Result (Option AgentAction)
  unfolding find_row
  check_signature d agent w = do
    signature ← compute_signature p d
    repo_name ← repo_for_signature p d
    ok (find_row repo_name agent d.action signature (rows w))

  -- A rival's row is committed unless the constraint refuses it.
  pub admit : AgentAction → World → World
  admit row w =
      if is_taken row (rows w) then w else record w { committed = w.committed ++ row ∷ [] }

  pub settle : List AgentAction → World → World
  unfolding admit
  settle [] w = record w { rivals = [] }
  settle (row ∷ rest) w = settle rest (admit row w)

  -- `session.add(row)` and `session.flush()`
  pub flush : AgentAction → Exec World AgentAction
  flush row w =
      if is_taken row (rows w)
      then (err integrity_error, w)
      else (ok row, record w { pending = w.pending ++ row ∷ []; issued = w.issued + 1 })

  abbrev pub new_row :
      Decision p → String → String → Option String → String → String → ℕ → AgentAction
  new_row d agent outcome external_id repo_name signature n = record {
    id = uuid n;
    repo_name = repo_name;
    agent = agent;
    action = d.action;
    signature = signature;
    external_id = external_id;
    outcome = outcome;
    confidence = d.confidence;
    evidence = d.evidence;
  }

  abbrev flush_keyed :
      Decision p
      → String
      → String
      → Option String
      → Result String
      → Result String
      → Exec World AgentAction
  flush_keyed d agent outcome external_id (ok signature) (ok repo_name) w =
      flush (new_row d agent outcome external_id repo_name signature w.issued) w
  flush_keyed d agent outcome external_id (ok signature) (err e) w = (err e, w)
  flush_keyed d agent outcome external_id (err e) repo_name w = (err e, w)

  unfoldable pub record_action :
      Decision p → String → String → Option String → Exec World AgentAction
  unfolding flush settle
  record_action d agent outcome external_id w =
      flush_keyed d agent outcome external_id (compute_signature p d) (repo_for_signature p d)
        (settle w.rivals w)

  -- `session.commit()` and `session.rollback()`
  unfoldable pub commit : World → World
  commit w = record w { committed = w.committed ++ w.pending; pending = [] }

  unfoldable pub rollback : World → World
  rollback w = record w { pending = [] }
