-- ===== src/Indexer/Ingest/Keys.antt =====
-- What a run writes is of its own repository.
use gita.Base.{
  String, ◌≡◌, refl, Option, none, some, List, [], ◌∷◌, All, Bool-cases, inl, inr, ◌==◌,
}
use gita.Indexer.Changes.{FileChange}
use gita.Indexer.Walker.{DiscoveredFile, is_indexable}
use gita.Indexer.Rows.{CodeIndex, ImportEdge, Store}
use gita.Indexer.Edges.{WorkTree, edge_to, file_edges}
use gita.Indexer.Ingest.{
  Run, Pass, build_row, parse_and_build_row, row_of, note_row, added_path, index_files, drop_stale,
  note_change, index_changes,
}

abbrev pub OfRepo : {V : Type 0} → String → List (CodeIndex V) → Type 0
OfRepo r = All (λ row. row.repo_id ≡ r)

module _ {V : Type 0} (run : Run V) where
  open run use {tree, include_tests, repo_id}

  abbrev Keyed : Option (CodeIndex V) → Type 0
  Keyed none = Unit
  Keyed (some row) = row.repo_id ≡ repo_id

  parse_and_build_row-Keyed :
      (path language : String) → Keyed (parse_and_build_row run path language)
  unfolding parse_and_build_row
  parse_and_build_row-Keyed path language =
      elim (tree.read path) as (λ c. Keyed (build_row run path language c)) [
        | none ↦ tt
        | some content ↦ refl
      ]

  row_of-Keyed : (path : String) (language : Option String) → Keyed (row_of run path language)
  row_of-Keyed path none = tt
  row_of-Keyed path (some language) = parse_and_build_row-Keyed path language

  note_row-OfRepo :
      (found : Option (CodeIndex V)) (added : List String) (pass : Pass V)
      → Keyed found
      → OfRepo repo_id pass.rows
      → OfRepo repo_id (note_row found added pass).rows
  note_row-OfRepo none added pass k h = h
  note_row-OfRepo (some row) added pass k h = (k, h)

  pub index_files-OfRepo :
      (files : List DiscoveredFile) → OfRepo repo_id (index_files run files).rows
  unfolding index_files
  index_files-OfRepo [] = tt
  index_files-OfRepo (file ∷ files) =
      note_row-OfRepo (parse_and_build_row run file.relative_path file.language) []
        (index_files run files) (parse_and_build_row-Keyed file.relative_path file.language)
        (index_files-OfRepo files)

  note_change-OfRepo :
      (c : FileChange) (pass : Pass V)
      → OfRepo repo_id pass.rows
      → OfRepo repo_id (note_change run c pass).rows
  unfolding note_change
  note_change-OfRepo c pass h = elim (Bool-cases (c.status == "deleted")) [
    | inl gone ↦ rw gone h
    | inr kept ↦ rw kept (
        note_row-OfRepo (row_of run c.relative_path (is_indexable c.relative_path include_tests))
          (added_path run c) pass
          (row_of-Keyed c.relative_path (is_indexable c.relative_path include_tests)) h)
  ]

  pub index_changes-OfRepo :
      (changes : List FileChange) (s : Store V)
      → OfRepo repo_id (index_changes run changes s).0.rows
  unfolding index_changes
  index_changes-OfRepo [] s = tt
  index_changes-OfRepo (c ∷ changes) s =
      note_change-OfRepo c (index_changes run changes (drop_stale run c s)).0
        (index_changes-OfRepo changes (drop_stale run c s))

-- The edges of a repository from files of the list
abbrev pub IsEdgeOf : String → String → ImportEdge → Type 0
IsEdgeOf r src edge = (edge.repo_id ≡ r) × (edge.src_file ≡ src)

module _ (tree : WorkTree) (r : String) where
  edge_to-IsEdgeOf :
      (src language raw : String) (found : Option (Option String))
      → IsEdgeOf r src (edge_to r src language raw found).0
  edge_to-IsEdgeOf src language raw none = (refl, refl)
  edge_to-IsEdgeOf src language raw (some none) = (refl, refl)
  edge_to-IsEdgeOf src language raw (some (some dst)) = (refl, refl)

  pub file_edges-IsEdgeOf :
      (src language : String) (imports : List String)
      → All (IsEdgeOf r src) (file_edges tree r src language imports).0
  unfolding file_edges
  file_edges-IsEdgeOf src language [] = tt
  file_edges-IsEdgeOf src language (raw ∷ imports) = elim (Bool-cases (raw == "")) [
    | inl blank ↦ rw blank (file_edges-IsEdgeOf src language imports)
    | inr written ↦ rw written (
      edge_to-IsEdgeOf src language raw (tree.resolve raw src language),
      file_edges-IsEdgeOf src language imports,
    )
  ]
