-- ===== src/Indexer/Snapshot/Full.antt =====
-- A full run: whatever the index said, it then reflects the tree.
use gita.Base.{
  ℕ, String, ◌≡◌, refl, ◌∙◌, ◌⊎◌, true, Bool-cases, Option-cases, inl, inr, Option, none, some,
  List, [], ◌∷◌, ◌==◌, arith, any, All, if◌then◌else◌, ok,
}
use gita.Indexer.Walker.{
  Entry, DiscoveredFile, is_indexable, language_of, is_skipped, discover, yielded, iter_files,
  max_file_size,
}
use gita.Indexer.Changes.{slashes}
use gita.Indexer.Rows.{Store, CodeIndex, clear_repo_rows}
use gita.Indexer.Rows.Laws.{row_at-delete_repo}
use gita.Indexer.Ingest.{
  Run, Pass, IngestResult, parse_and_build_row, row_of, note_row, index_files, full_index,
}
use gita.Indexer.Snapshot.{
  expected, view_of_language-none, Reflects, entry_paths, Fits, IsPlain, IsListing,
}
use gita.Indexer.Ingest.Embedded.{Answers}
use gita.Indexer.Snapshot.Gathered.{cons_some, rows_of, path_row, store_pass-view}

module _ {V : Type 0} (run : Run V) where
  open run use {parse_file, tree, include_tests, repo_id}

  rows-note_row :
      (found : Option (CodeIndex V)) (added : List String) (pass : Pass V)
      → (note_row found added pass).rows ≡ cons_some found pass.rows
  rows-note_row none added pass = refl
  rows-note_row (some row) added pass = refl

  rows-unreadable :
      (path : String) (language : Option String)
      → tree.read path ≡ none
      → row_of run path language ≡ none
  unfolding parse_and_build_row
  rows-unreadable path none h = refl
  rows-unreadable path (some language) h = rw h refl

  -- What the loop adds for what the walker made of an entry
  abbrev gathered_row : Option DiscoveredFile → Option (CodeIndex V)
  gathered_row none = none
  gathered_row (some file) = parse_and_build_row run file.relative_path file.language

  rows-yielded :
      (found : Option DiscoveredFile) (files : List DiscoveredFile)
      → (index_files run (yielded found files)).rows
        ≡ cons_some (gathered_row found) (index_files run files).rows
  unfolding index_files
  rows-yielded none files = refl
  rows-yielded (some file) files =
      rows-note_row (gathered_row (some file)) [] (index_files run files)

  gathered_row-unreadable :
      (e : Entry)
      → slashes e.relative ≡ e.relative
      → tree.read e.relative ≡ none
      → gathered_row (discover include_tests max_file_size e) ≡ none
  unfolding discover parse_and_build_row
  gathered_row-unreadable e plain h = ground arith

  gathered_row-sized :
      (e : Entry) (size : Option ℕ)
      → slashes e.relative ≡ e.relative
      → e.is_file ≡ true
      → e.size ≡ size
      → Fits size
      → gathered_row (discover include_tests max_file_size e) ≡ path_row run e.relative
  unfolding discover is_indexable
  gathered_row-sized e none plain file known fits = elim fits [ ]
  gathered_row-sized e (some n) plain file known fits =
      elim (Option-cases (language_of e.relative)) [
        | inl other ↦ elim (Bool-cases (is_skipped e.relative include_tests)) [
          | inl skipped ↦ rw (file, other, skipped) refl
          | inr kept ↦ rw (file, other, kept) refl
        ]
        | inr (language, spoken) ↦ elim (Bool-cases (is_skipped e.relative include_tests)) [
          | inl skipped ↦ rw (file, spoken, skipped) refl
          | inr kept ↦ rw (file, spoken, kept, known) (rw (fits, plain) refl)
        ]
      ]

  gathered_row-discover :
      (e : Entry)
      → IsPlain tree.read e
      → gathered_row (discover include_tests max_file_size e) ≡ path_row run e.relative
  gathered_row-discover e (plain, inl (file, fits)) =
      gathered_row-sized e e.size plain file refl fits
  gathered_row-discover e (plain, inr h) =
      gathered_row-unreadable e plain h
      ∙ (rw (rows-unreadable e.relative (is_indexable e.relative include_tests) h) refl)

  rows-index_files :
      (entries : List Entry)
      → All (IsPlain tree.read) entries
      → (index_files run (iter_files entries include_tests max_file_size)).rows
        ≡ rows_of run (entry_paths entries)
  unfolding iter_files index_files
  rows-index_files [] h = refl
  rows-index_files (e ∷ entries) (h, hs) =
      rows-yielded (discover include_tests max_file_size e)
        (iter_files entries include_tests max_file_size)
      ∙ (rw (gathered_row-discover e h, rows-index_files entries hs) refl)

  -- A full run ends without an error.
  pub full_index-Reflects :
      (s : Store V)
      → IsListing tree.read tree.entries
      → Answers run.embedding_client
      → (result : IngestResult) × (s' : Store V) × (full_index run s ≡ (ok result, s'))
        × Reflects parse_file include_tests tree.read repo_id s'.code_index
  unfolding full_index clear_repo_rows
  full_index-Reflects s listing answers =
      let (result, s', runs, views) =
        store_pass-view run "full"
          (index_files run (iter_files tree.entries include_tests max_file_size))
          (clear_repo_rows repo_id s) (entry_paths tree.entries)
          (rows-index_files tree.entries listing.plain) listing.distinct
          (λ path _. row_at-delete_repo repo_id path s.code_index) answers in
      (
        result,
        s',
        runs,
        λ path.
            views path
            ∙ (rw (row_at-delete_repo repo_id path s.code_index)
                (covered path (listing.complete path))),
      )
    where
      covered :
          (path : String)
          → ((any (λ q. q == path) (entry_paths tree.entries) ≡ true) ⊎ (tree.read path ≡ none))
          → (if any (λ p. p == path) (entry_paths tree.entries)
              then expected parse_file include_tests tree.read path
              else none)
            ≡ expected parse_file include_tests tree.read path
      covered path (inl listed) = rw listed refl
      covered path (inr missing) =
          rw
            (view_of_language-none parse_file tree.read path (is_indexable path include_tests)
              missing)
            (ground arith)
