-- ===== src/Indexer/Snapshot/Gathered.antt =====
-- The rows that a loop gathers from distinct paths, and what the table reflects once they are stored.
use gita.Base.{
  String, ◌≡◌, refl, ◌∙◌, Bool, true, false, Bool-cases, inl, inr, Option, none, some, List, [],
  ◌∷◌, ◌||◌, ◌++◌, ◌==◌, eq_iff, eq_refl, arith, any, if◌then◌else◌, ok, length,
}
use gita.Indexer.Walker.{is_indexable}
use gita.Indexer.Rows.{CodeIndex, Store, of_file, insert_rows, row_at}
use gita.Indexer.Rows.Laws.{or_else, row_at-append, IsFresh, insert_rows-fresh}
use gita.Indexer.Ingest.{
  Run, Pass, IngestResult, build_row, parse_and_build_row, row_of, find_row, embedded_row,
  write_embeddings, complete_pass, ingest_result, store_pass,
}
use gita.Indexer.Ingest.Embedded.{Answers, attach_embeddings-ok}
use gita.Indexer.Edges.{build_edges}
use gita.Indexer.Snapshot.{view_of_language, read_view, expected, view, view_found, Distinct}

abbrev pub cons_some {ℓ} : {A : Type ℓ} → Option A → List A → List A
cons_some none xs = xs
cons_some (some x) xs = x ∷ xs

or_else_same {ℓ} : {A : Type ℓ} (o : Option A) (b : Bool) → or_else o (if b then o else none) ≡ o
or_else_same none true = refl
or_else_same none false = refl
or_else_same (some a) b = refl

module _ {V : Type 0} (run : Run V) where
  open run use {parse_file, tree, include_tests, repo_id}

  abbrev pub path_row : String → Option (CodeIndex V)
  path_row path = row_of run path (is_indexable path include_tests)

  abbrev pub rows_of : List String → List (CodeIndex V)
  rows_of [] = []
  rows_of (p ∷ ps) = cons_some (path_row p) (rows_of ps)

  -- A row of a path has the path and the repository for its key.
  abbrev IsKeyed : String → Option (CodeIndex V) → Type 0
  IsKeyed path none = Unit
  IsKeyed path (some row) = (row.repo_id ≡ repo_id) × (row.file_path ≡ path)

  row_of-IsKeyed :
      (path : String) (language : Option String) → IsKeyed path (row_of run path language)
  unfolding parse_and_build_row
  row_of-IsKeyed path none = tt
  row_of-IsKeyed path (some language) =
      elim (tree.read path) as (λ c. IsKeyed path (build_row run path language c)) [
        | none ↦ tt
        | some content ↦ (refl, refl)
      ]

  row_at-cons_some :
      (path p : String) (found : Option (CodeIndex V)) (rows : List (CodeIndex V))
      → IsKeyed p found
      → row_at repo_id path (cons_some found rows)
        ≡ (if p == path then or_else found (row_at repo_id path rows) else row_at repo_id path rows)
  row_at-cons_some path p none rows h = ground arith
  row_at-cons_some path p (some row) rows (h, k) = ground (
    arith,
    eq_refl repo_id,
    eq_iff row.repo_id repo_id,
    eq_iff row.file_path p,
    eq_iff row.file_path path,
    eq_iff p path,
  )

  next_row :
      (path p : String) (later : Bool)
      → (if p == path
          then or_else (path_row p) (if later then path_row path else none)
          else if later
          then path_row path
          else none)
        ≡ (if p == path || later then path_row path else none)
  next_row path p later = elim (Bool-cases (p == path)) [
    | inl same ↦ rw (same, (eq_iff p path).0 same) (or_else_same (path_row path) later)
    | inr other ↦ rw other refl
  ]

  -- The rows that were gathered hold one for each path that has an indexable file.
  pub row_at-rows_of :
      (path : String) (ps : List String)
      → row_at repo_id path (rows_of ps) ≡ (if any (λ p. p == path) ps then path_row path else none)
  row_at-rows_of path [] = refl
  row_at-rows_of path (p ∷ ps) =
      row_at-cons_some path p (path_row p) (rows_of ps)
        (row_of-IsKeyed p (is_indexable p include_tests))
      ∙ (rw (row_at-rows_of path ps) (next_row path p (any (λ q. q == path) ps)))

  -- The gathered rows of distinct paths that the table lacks can be inserted.
  IsFresh-cons_some :
      (p : String) (found : Option (CodeIndex V)) (rows table : List (CodeIndex V))
      → IsKeyed p found
      → row_at repo_id p rows ≡ none
      → row_at repo_id p table ≡ none
      → IsFresh rows table
      → IsFresh (cons_some found rows) table
  IsFresh-cons_some p none rows table k h l hs = hs
  IsFresh-cons_some p (some row) rows table (k, e) h l hs = (rw (k, e) l, rw (k, e) h, hs)

  pub rows_of-IsFresh :
      (ps : List String) (table : List (CodeIndex V))
      → Distinct ps
      → ((path : String) → any (λ p. p == path) ps ≡ true → row_at repo_id path table ≡ none)
      → IsFresh (rows_of ps) table
  rows_of-IsFresh [] table d h = tt
  rows_of-IsFresh (p ∷ ps) table (d, ds) h =
      IsFresh-cons_some p (path_row p) (rows_of ps) table
        (row_of-IsKeyed p (is_indexable p include_tests)) (row_at-rows_of p ps ∙ (rw d refl))
        (h p (rw (eq_refl p) refl)) (rows_of-IsFresh ps table ds (λ path k. h path (later path k)))
    where
      later :
          (path : String)
          → any (λ q. q == path) ps ≡ true
          → (p == path || any (λ q. q == path) ps) ≡ true
      later path k = ground arith

  view_found-embedded_row :
      (row : CodeIndex V) (found : Option (CodeIndex V))
      → view (embedded_row run row found) ≡ view row
  view_found-embedded_row row none = refl
  view_found-embedded_row row (some found) = refl

  key-embedded_row :
      (r path : String) (row : CodeIndex V) (found : Option (CodeIndex V))
      → of_file r path (embedded_row run row found) ≡ of_file r path row
  key-embedded_row r path row none = refl
  key-embedded_row r path row (some found) = refl

  -- Writing the embeddings changes no view.
  pub view-write_embeddings :
      (r path : String) (rows table : List (CodeIndex V))
      → view_found (row_at r path (write_embeddings run rows table))
        ≡ view_found (row_at r path table)
  unfolding write_embeddings
  view-write_embeddings r path rows [] = refl
  view-write_embeddings r path rows (row ∷ table) = ground (
    arith,
    view-write_embeddings r path rows table,
    view_found-embedded_row row (find_row run row.file_path rows),
    key-embedded_row r path row (find_row run row.file_path rows),
  )

  view_found-or_else :
      (a b : Option (CodeIndex V))
      → view_found (or_else a b) ≡ or_else (view_found a) (view_found b)
  view_found-or_else none b = refl
  view_found-or_else (some row) b = refl

  view_found-row_of :
      (path : String) (language : Option String)
      → view_found (row_of run path language) ≡ view_of_language parse_file tree.read path language
  unfolding parse_and_build_row
  view_found-row_of path none = refl
  view_found-row_of path (some language) =
      elim (tree.read path)
        as (λ c.
          view_found (build_row run path language c) ≡ read_view parse_file path language c) [
            | none ↦ refl
            | some content ↦ refl
          ]

  -- A pass over distinct paths that the table lacks is stored without an error, and puts what the tree
  -- holds at each of the paths on top of what the table reflected.
  pub store_pass-view :
      (mode : String) (pass : Pass V) (s : Store V) (ps : List String)
      → pass.rows ≡ rows_of ps
      → Distinct ps
      → ((path : String) → any (λ p. p == path) ps ≡ true → row_at repo_id path s.code_index ≡ none)
      → Answers run.embedding_client
      → (result : IngestResult) × (s' : Store V) × (store_pass run mode pass s ≡ (ok result, s'))
        × ((path : String)
            → view_found (row_at repo_id path s'.code_index)
              ≡ or_else (view_found (row_at repo_id path s.code_index)) (
                  if any (λ p. p == path) ps
                  then expected parse_file include_tests tree.read path
                  else none))
  unfolding store_pass
  store_pass-view mode pass s ps gathered distinct fresh answers =
      let ((rows, embedded), attached) =
        attach_embeddings-ok pass.rows run.embedding_client answers in
      let (edges, resolved) = build_edges tree repo_id rows in
      (
        ingest_result run mode pass (length edges) resolved embedded,
        (complete_pass run mode pass s (s.code_index ++ rows_of ps) (ok (rows, embedded))).1,
        rw (stored, attached) refl,
        λ path. view-write_embeddings repo_id path rows (s.code_index ++ rows_of ps) ∙ found path,
      )
    where
      stored : insert_rows pass.rows s.code_index ≡ ok (s.code_index ++ rows_of ps)
      stored = rw gathered (
          insert_rows-fresh (rows_of ps) s.code_index
            (rows_of-IsFresh ps s.code_index distinct fresh))

      found :
          (path : String)
          → view_found (row_at repo_id path (s.code_index ++ rows_of ps))
            ≡ or_else (view_found (row_at repo_id path s.code_index)) (
                if any (λ p. p == path) ps
                then expected parse_file include_tests tree.read path
                else none)
      found path =
          rw
            (
              row_at-append repo_id path s.code_index (rows_of ps),
              view_found-or_else (row_at repo_id path s.code_index)
                  (row_at repo_id path (rows_of ps)),
              row_at-rows_of path ps,
            )
            (elim (Bool-cases (any (λ p. p == path) ps)) [
              | inl here ↦
                  rw here (rw (view_found-row_of path (is_indexable path include_tests)) refl)
              | inr other ↦ rw other refl
            ])
