-- ===== src/Indexer/Snapshot/Clash.antt =====
-- An incremental run that meets a row of a file which git calls added.
use gita.Base.{String, ◌≡◌, refl, ap, ◌∙◌, none, some, List, err, integrity_error}
use gita.Indexer.Walker.{is_indexable}
use gita.Indexer.Changes.{FileChange}
use gita.Indexer.Rows.{Store, CodeIndex, row_at}
use gita.Indexer.Rows.Laws.{insert_rows-taken}
use gita.Indexer.Ingest.{
  Run, build_row, parse_and_build_row, index_changes, store_pass, incremental_index, finish,
}
use gita.Indexer.Snapshot.{Distinct, change_paths, status_at}
use gita.Indexer.Snapshot.Gathered.{row_at-rows_of, path_row}
use gita.Indexer.Snapshot.Statuses.{
  kept_paths, rows-index_changes, row_at-index_changes, kept-status, dropped-status,
}

module _ {V : Type 0} (run : Run V) (changes : List FileChange) (s : Store V) where
  open run use {tree, include_tests, repo_id}

  path_row-readable :
      (path language content : String)
      → is_indexable path include_tests ≡ some language
      → tree.read path ≡ some content
      → path_row run path ≡ build_row run path language (some content)
  unfolding parse_and_build_row
  path_row-readable path language content source readable = rw (source, readable) refl

  -- If git calls a file added that is indexable and can be read, and the table has a row for it from
  -- before, as a full run leaves one for a file that was not committed yet, then the incremental run
  -- raises the error of the unique constraint.
  pub incremental_index-clash :
      (path language content : String) (row : CodeIndex V)
      → Distinct (change_paths changes)
      → status_at path changes ≡ some "added"
      → is_indexable path include_tests ≡ some language
      → tree.read path ≡ some content
      → row_at repo_id path s.code_index ≡ some row
      → (incremental_index run changes s).0 ≡ err integrity_error
  unfolding incremental_index store_pass
  incremental_index-clash path language content row distinct added source readable stored =
      ap
        (λ out.
          (finish run "incremental" (index_changes run changes s).0 (index_changes run changes s).1
            out).0)
        (insert_rows-taken repo_id path (index_changes run changes s).0.rows
          (index_changes run changes s).1.code_index built row gathered remaining)
    where
      built : CodeIndex V
      built = elim (build_row run path language (some content)) [ none ↦ row | some found ↦ found ]

      found : path_row run path ≡ some built
      found = path_row-readable path language content source readable

      gathered : row_at repo_id path (index_changes run changes s).0.rows ≡ some built
      gathered =
          ap (row_at repo_id path) (rows-index_changes run changes s)
          ∙ row_at-rows_of run path (kept_paths run changes)
          ∙ (rw (kept-status run path changes distinct, added) found)

      remaining : row_at repo_id path (index_changes run changes s).1.code_index ≡ some row
      remaining =
          row_at-index_changes run path changes s
          ∙ (rw (dropped-status run path changes distinct, added, source) stored)
