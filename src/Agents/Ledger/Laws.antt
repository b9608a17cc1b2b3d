-- ===== src/Agents/Ledger/Laws.antt =====
-- What the operations on `agent_actions` change and what they keep.
use gita.Base.{
  String, ◌≡◌, refl, sym, ◌∙◌, true, Bool-cases, inl, inr, Option, some, List, [], ◌∷◌, ◌++◌,
  append_assoc, append-nil, ap, arith, Result, ok, err, eq_refl,
}
use gita.Platform.{Platform}
use gita.Agents.Decision.{Decision}
use gita.Agents.Signature.{repo_for_signature, compute_signature}
use gita.Agents.Ledger.{
  AgentAction, World, rows, is_taken, settle, flush, record_action, flush_keyed, new_row, admit,
  has_key, find_row, check_signature, commit,
}

module _ (p : Platform) where
  calls-admit : (row : AgentAction p) (w : World p) → (admit p row w).calls ≡ w.calls
  unfolding admit
  calls-admit row w = ground arith

  pub calls-settle :
      (rivals : List (AgentAction p)) (w : World p) → (settle p rivals w).calls ≡ w.calls
  unfolding settle
  calls-settle [] w = refl
  calls-settle (row ∷ rest) w = calls-settle rest (admit p row w) ∙ calls-admit row w

  calls-flush : (row : AgentAction p) (w : World p) → (flush p row w).1.calls ≡ w.calls
  unfolding flush
  calls-flush row w = ground arith

  calls-flush_keyed :
      (d : Decision p) (agent outcome : String) (external : Option String)
      (signature repo : Result String) (w : World p)
      → (flush_keyed p d agent outcome external signature repo w).1.calls ≡ w.calls
  calls-flush_keyed d agent outcome external (ok s) (ok r) w = calls-flush _ w
  calls-flush_keyed d agent outcome external (ok s) (err e) w = refl
  calls-flush_keyed d agent outcome external (err e) repo w = refl

  pub calls-record_action :
      (d : Decision p) (agent outcome : String) (external : Option String) (w : World p)
      → (record_action p d agent outcome external w).1.calls ≡ w.calls
  calls-record_action d agent outcome external w =
      unfold record_action in
      calls-flush_keyed d agent outcome external (compute_signature p d) (repo_for_signature p d)
        (settle p w.rivals w)
      ∙ calls-settle w.rivals w

  -- A decision is recorded for an agent when `check_signature` finds its row.
  abbrev pub IsRecorded : Decision p → String → World p → Type 0
  IsRecorded d agent w = (row : AgentAction p) × (check_signature p d agent w ≡ ok (some row))

  find_row-middle :
      (repo agent action signature : String) (before after : List (AgentAction p))
      (row : AgentAction p)
      → has_key p repo agent action signature row ≡ true
      → (found : AgentAction p) × (find_row p repo agent action signature (before ++ row ∷ after)
          ≡ some found)
  unfolding find_row
  find_row-middle repo agent action signature [] after row h = (row, rw h)
  find_row-middle repo agent action signature (b ∷ before) after row h =
      elim (Bool-cases (has_key p repo agent action signature b)) [
        | inl same ↦ (b, rw same)
        | inr other ↦
            let (found, e) = find_row-middle repo agent action signature before after row h in
            (found, rw other e)
      ]

  has_key_self :
      (row : AgentAction p) → has_key p row.repo_name row.agent row.action row.signature row ≡ true
  unfolding has_key
  has_key_self row =
      simp (eq_refl row.repo_name, eq_refl row.agent, eq_refl row.action, eq_refl row.signature)

  pub check_signature_lem :
      (d : Decision p) (agent signature repo : String) (w : World p)
      → compute_signature p d ≡ ok signature
      → repo_for_signature p d ≡ ok repo
      → check_signature p d agent w ≡ ok (find_row p repo agent d.action signature (rows p w))
  unfolding check_signature
  check_signature_lem d agent signature repo w hs hr = rw (hs, hr)

  -- What holds of a call that returned; nothing is said of one that raised.
  abbrev pub OnOk : {A : Type 0} → (A → World p → Type 0) → Result A × World p → Type 0
  OnOk Q (ok a, w) = Q a w
  OnOk Q (err e, w) = Unit

  flush-IsRecorded :
      (d : Decision p) (agent outcome : String) (external : Option String) (signature repo : String)
      (w : World p)
      → compute_signature p d ≡ ok signature
      → repo_for_signature p d ≡ ok repo
      → OnOk
          (λ row w'. IsRecorded d agent w')
          (flush p (new_row p d agent outcome external repo signature w.issued) w)
  unfolding flush
  flush-IsRecorded d agent outcome external signature repo w hs hr =
      let row = new_row p d agent outcome external repo signature w.issued in
      elim (Bool-cases (is_taken p row (rows p w))) [
        | inl taken ↦ rw taken tt
        | inr free ↦
            let (found, e) =
              find_row-middle repo agent d.action signature (rows p w) [] row (has_key_self row) in
            rw free (
              found,
              check_signature_lem d agent signature repo _ hs hr
                  ∙ ap ok (
                      ap (find_row p repo agent d.action signature)
                        (sym (append_assoc w.committed w.pending (row ∷ [])))
                      ∙ e),
            )
      ]

  flush_keyed-IsRecorded :
      (d : Decision p) (agent outcome : String) (external : Option String)
      (signature repo : Result String) (w : World p)
      → compute_signature p d ≡ signature
      → repo_for_signature p d ≡ repo
      → OnOk
          (λ row w'. IsRecorded d agent w')
          (flush_keyed p d agent outcome external signature repo w)
  flush_keyed-IsRecorded d agent outcome external (ok s) (ok r) w hs hr =
      flush-IsRecorded d agent outcome external s r w hs hr
  flush_keyed-IsRecorded d agent outcome external (ok s) (err e) w hs hr = tt
  flush_keyed-IsRecorded d agent outcome external (err e) r w hs hr = tt

  -- A `record_action` that returns has made the decision one that `check_signature` finds.
  pub record_action-IsRecorded :
      (d : Decision p) (agent outcome : String) (external : Option String) (w : World p)
      → OnOk (λ row w'. IsRecorded d agent w') (record_action p d agent outcome external w)
  record_action-IsRecorded d agent outcome external w =
      unfold record_action in
      flush_keyed-IsRecorded d agent outcome external (compute_signature p d)
        (repo_for_signature p d) (settle p w.rivals w) refl refl

  pub IsRecorded-commit :
      (d : Decision p) (agent : String) (w : World p)
      → IsRecorded d agent w
      → IsRecorded d agent (commit p w)
  unfolding check_signature commit
  IsRecorded-commit d agent w (row, e) = (row, rw append-nil e)
