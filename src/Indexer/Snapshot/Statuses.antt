-- ===== src/Indexer/Snapshot/Statuses.antt =====
-- What the loop over the changes does to the row of a path, by the status of the path.
use gita.Base.{
  String, ◌≡◌, refl, sym, subst, ◌∙◌, Bool, false, not, ◌&&◌, ◌||◌, Bool-cases, inl, inr, Option,
  none, some, List, [], ◌∷◌, ◌==◌, eq_iff, eq_refl, arith, any, is_some, if◌then◌else◌,
}
use gita.Indexer.Walker.{is_indexable}
use gita.Indexer.Changes.{FileChange}
use gita.Indexer.Rows.{Store, CodeIndex, delete_file, row_at}
use gita.Indexer.Rows.Laws.{row_at-delete_file}
use gita.Indexer.Ingest.{Run, Pass, note_row, added_path, drop_stale, note_change, index_changes}
use gita.Indexer.Snapshot.{Distinct, change_paths, status_at}
use gita.Indexer.Snapshot.Gathered.{cons_some, rows_of, path_row}

module _ {V : Type 0} (run : Run V) where
  open run use {parse_file, tree, include_tests, repo_id}

  -- The paths that the loop looks for a file at
  abbrev pub kept_paths : List FileChange → List String
  kept_paths [] = []
  kept_paths (c ∷ changes) =
      if c.status == "deleted" then kept_paths changes else c.relative_path ∷ kept_paths changes

  -- Whether the change's statements remove the file
  abbrev pub drops : FileChange → Bool
  drops c =
      c.status == "deleted"
      || (is_some (is_indexable c.relative_path include_tests) && c.status == "modified")

  abbrev pub dropped : String → List FileChange → Bool
  dropped path [] = false
  dropped path (c ∷ changes) = (c.relative_path == path && drops c) || dropped path changes

  rows-note_change :
      (c : FileChange) (pass : Pass V)
      → (note_change run c pass).rows ≡ (
          if c.status == "deleted"
          then pass.rows
          else cons_some (path_row run c.relative_path) pass.rows)
  unfolding note_change
  rows-note_change c pass = elim (Bool-cases (c.status == "deleted")) [
    | inl gone ↦ rw gone refl
    | inr kept ↦ rw kept (rows_note (path_row run c.relative_path))
  ]
    where
      rows_note :
          (found : Option (CodeIndex V))
          → (note_row found (added_path run c) pass).rows ≡ cons_some found pass.rows
      rows_note none = refl
      rows_note (some row) = refl

  pub rows-index_changes :
      (changes : List FileChange) (s : Store V)
      → (index_changes run changes s).0.rows ≡ rows_of run (kept_paths changes)
  unfolding index_changes
  rows-index_changes [] s = refl
  rows-index_changes (c ∷ changes) s =
      rows-note_change c (index_changes run changes (drop_stale run c s)).0
      ∙ (rw (rows-index_changes changes (drop_stale run c s)) (ground arith))

  row_at-drop_stale :
      (path : String) (c : FileChange) (s : Store V)
      → row_at repo_id path (drop_stale run c s).code_index
        ≡ (if c.relative_path == path && drops c then none else row_at repo_id path s.code_index)
  unfolding drop_stale delete_file
  row_at-drop_stale path c s = elim (Bool-cases (drops c)) [
    | inl gone ↦
        rw gone (row_at-delete_file repo_id c.relative_path path s.code_index ∙ ground arith)
    | inr kept ↦ rw kept (ground arith)
  ]

  pub row_at-index_changes :
      (path : String) (changes : List FileChange) (s : Store V)
      → row_at repo_id path (index_changes run changes s).1.code_index
        ≡ (if dropped path changes then none else row_at repo_id path s.code_index)
  unfolding index_changes
  row_at-index_changes path [] s = refl
  row_at-index_changes path (c ∷ changes) s =
      row_at-index_changes path changes (drop_stale run c s)
      ∙ (rw (row_at-drop_stale path c s) (ground arith))

  -- What the two say of a path, by its status
  abbrev pub is_kept : Option String → Bool
  is_kept none = false
  is_kept (some status) = not (status == "deleted")

  abbrev pub is_dropped : String → Option String → Bool
  is_dropped path none = false
  is_dropped path (some status) =
      status == "deleted" || (is_some (is_indexable path include_tests) && status == "modified")

  absent :
      (path : String) (changes : List FileChange)
      → any (λ q. q == path) (change_paths changes) ≡ false
      → (any (λ q. q == path) (kept_paths changes) ≡ false) × (dropped path changes ≡ false)
  absent path [] h = (refl, refl)
  absent path (c ∷ changes) h = ground (arith, absent path changes)

  AtStatus : String → List FileChange → Option String → Type 0
  AtStatus path changes status =
      (any (λ q. q == path) (kept_paths changes) ≡ is_kept status)
      × (dropped path changes ≡ is_dropped path status)

  changed :
      (c : FileChange) (changes : List FileChange)
      → any (λ q. q == c.relative_path) (change_paths changes) ≡ false
      → AtStatus c.relative_path (c ∷ changes) (some c.status)
  unfolding AtStatus
  changed c changes d = ground (arith, absent c.relative_path changes, eq_refl c.relative_path)

  unchanged :
      (path : String) (c : FileChange) (changes : List FileChange) (status : Option String)
      → (c.relative_path == path) ≡ false
      → AtStatus path changes status
      → AtStatus path (c ∷ changes) status
  unfolding AtStatus
  unchanged path c changes status other h = ground arith

  status_at-cons :
      (path : String) (c : FileChange) (changes : List FileChange)
      → status_at path (c ∷ changes)
        ≡ (if c.relative_path == path then some c.status else status_at path changes)
  unfolding status_at
  status_at-cons path c changes = refl

  by_status :
      (path : String) (changes : List FileChange)
      → Distinct (change_paths changes)
      → AtStatus path changes (status_at path changes)
  by_status path [] d = unfold AtStatus in unfold status_at in (refl, refl)
  by_status path (c ∷ changes) (d, ds) = elim (Bool-cases (c.relative_path == path)) [
    | inl same ↦
        subst (AtStatus path (c ∷ changes)) (sym (status_at-cons path c changes ∙ (rw same refl))) (
          subst (λ q. AtStatus q (c ∷ changes) (some c.status))
            ((eq_iff c.relative_path path).0 same) (changed c changes d))
    | inr other ↦
        subst (AtStatus path (c ∷ changes)) (sym (status_at-cons path c changes ∙ (rw other refl)))
          (unchanged path c changes (status_at path changes) other (by_status path changes ds))
  ]

  pub kept-status :
      (path : String) (changes : List FileChange)
      → Distinct (change_paths changes)
      → any (λ q. q == path) (kept_paths changes) ≡ is_kept (status_at path changes)
  unfolding AtStatus
  kept-status path changes d = (by_status path changes d).0

  pub dropped-status :
      (path : String) (changes : List FileChange)
      → Distinct (change_paths changes)
      → dropped path changes ≡ is_dropped path (status_at path changes)
  unfolding AtStatus
  dropped-status path changes d = (by_status path changes d).1

  pub kept_paths-Distinct :
      (changes : List FileChange) → Distinct (change_paths changes) → Distinct (kept_paths changes)
  kept_paths-Distinct [] d = tt
  kept_paths-Distinct (c ∷ changes) (d, ds) = elim (Bool-cases (c.status == "deleted")) [
    | inl gone ↦ rw gone (kept_paths-Distinct changes ds)
    | inr kept ↦ rw kept ((absent c.relative_path changes d).0, kept_paths-Distinct changes ds)
  ]
