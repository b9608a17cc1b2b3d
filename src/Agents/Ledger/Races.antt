-- ===== src/Agents/Ledger/Races.antt =====
-- A row of a concurrent writer that has the key of the row to be inserted.
use gita.Base.{
  String, ◌≡◌, refl, ap, ◌∙◌, true, false, ◌||◌, Bool-cases, inl, inr, Option, none, List, [], ◌∷◌,
  ◌++◌, append_assoc, arith, any, ok, err, integrity_error, value_error, eq_iff, ◌+◌,
}
use gita.Platform.{Platform}
use gita.Agents.Decision.{Decision}
use gita.Agents.Signature.{compute_signature, repo_for_signature}
use gita.Agents.Ledger.{
  AgentAction, World, rows, has_key, find_row, is_taken, admit, settle, flush, record_action,
  new_row,
}
use gita.Agents.Ledger.Unique.{is_taken-middle}

module _ (p : Platform) (repo agent action signature : String) where
  is_taken_of_none :
      (table : List (AgentAction p))
      → find_row p repo agent action signature table ≡ none
      → any (has_key p repo agent action signature) table ≡ false
  unfolding find_row
  is_taken_of_none [] h = refl
  is_taken_of_none (row ∷ table) h = elim (Bool-cases (has_key p repo agent action signature row)) [
    | inl same ↦ cc (rw same at h)
    | inr other ↦ rw other (is_taken_of_none table (rw other at h))
  ]

  is_taken-rival :
      (rival : AgentAction p) (table : List (AgentAction p))
      → has_key p repo agent action signature rival ≡ true
      → is_taken p rival table ≡ any (has_key p repo agent action signature) table
  unfolding has_key
  is_taken-rival rival table h =
      let same_repo : rival.repo_name ≡ repo = (eq_iff _ _).0 (ground arith) in
      let same_agent : rival.agent ≡ agent = (eq_iff _ _).0 (ground arith) in
      let same_action : rival.action ≡ action = (eq_iff _ _).0 (ground arith) in
      let same_signature : rival.signature ≡ signature = (eq_iff _ _).0 (ground arith) in
      λ i. any (has_key p (same_repo i) (same_agent i) (same_action i) (same_signature i)) table

-- What is recorded where no rival row waits: nothing without a signature, and otherwise a row whose key
-- no row has.
module _ (p : Platform) (d : Decision p) (agent outcome : String) (external : Option String)
    (w : World p) (alone : w.rivals ≡ []) where
  settle-alone : settle p w.rivals w ≡ record w { rivals = [] }
  unfolding settle
  settle-alone = ap (λ rs. settle p rs w) alone

  pub record_action-unsigned :
      compute_signature p d ≡ err value_error
      → record_action p d agent outcome external w ≡ (err value_error, record w { rivals = [] })
  unfolding record_action
  record_action-unsigned h = rw (settle-alone, h) refl

  pub record_action-fresh :
      (signature repo : String)
      → compute_signature p d ≡ ok signature
      → repo_for_signature p d ≡ ok repo
      → find_row p repo agent d.action signature (rows p w) ≡ none
      → (row : AgentAction p) × (record_action p d agent outcome external w ≡ (
        ok row,
        record w { rivals = []; pending = w.pending ++ row ∷ []; issued = w.issued + 1 },
      ))
  unfolding record_action flush
  record_action-fresh signature repo signed located free = (
    new_row p d agent outcome external repo signature w.issued,
    rw
        (
          settle-alone,
          signed,
          located,
          is_taken_of_none p repo agent d.action signature (rows p w) free,
        )
        refl,
  )

module _ (p : Platform) (d : Decision p) (agent outcome : String) (external : Option String)
    (signature repo : String) (rival : AgentAction p) (w : World p)
    (signed : compute_signature p d ≡ ok signature) (located : repo_for_signature p d ≡ ok repo)
    (fresh : find_row p repo agent d.action signature (rows p w) ≡ none)
    (alone : w.rivals ≡ rival ∷ [])
    (same : has_key p repo agent d.action signature rival ≡ true) where
  abbrev pub beaten : World p
  beaten = record w { committed = w.committed ++ rival ∷ []; rivals = [] }

  settle-beaten : settle p w.rivals w ≡ beaten
  unfolding settle admit
  settle-beaten =
      let free =
        is_taken-rival p repo agent d.action signature rival (rows p w) same
        ∙ is_taken_of_none p repo agent d.action signature (rows p w) fresh in
      ap (λ rs. settle p rs w) alone ∙ rw free

  flush-beaten :
      flush p (new_row p d agent outcome external repo signature beaten.issued) beaten
      ≡ (err integrity_error, beaten)
  unfolding flush
  flush-beaten =
      let row = new_row p d agent outcome external repo signature beaten.issued in
      let taken : is_taken p row (rows p beaten) ≡ true =
        ap (is_taken p row) (append_assoc w.committed (rival ∷ []) w.pending)
        ∙ is_taken-middle p row rival w.committed w.pending
        ∙ ap (λ b. b || is_taken p row (rows p w)) same in
      rw taken

  pub record_action-beaten :
      record_action p d agent outcome external w ≡ (err integrity_error, beaten)
  unfolding record_action
  record_action-beaten = rw (signed, located, settle-beaten) flush-beaten
