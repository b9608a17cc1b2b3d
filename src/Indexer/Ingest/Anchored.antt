-- ===== src/Indexer/Ingest/Anchored.antt =====
-- The edges of the table `import_edges` come from files that have a row in `code_index`.
use gita.Base.{
  ℕ, String, ◌≡◌, refl, sym, ◌∙◌, true, false, ◌||◌, ◌&&◌, List, [], ◌∷◌, ◌++◌, All, All-append,
  Bool-cases, inl, inr, arith, any, ◌==◌, eq_iff, eq_refl, is_some, Result, ok, err,
}
use gita.Indexer.Changes.{FileChange}
use gita.Indexer.Rows.{
  CodeIndex, ImportEdge, Store, delete, of_repo, of_file, edge_of_repo, edge_of_file,
  clear_repo_rows, delete_file, insert_rows,
}
use gita.Indexer.Edges.{WorkTree, file_edges, build_edges}
use gita.Indexer.Embeddings.{attach_embeddings}
use gita.Indexer.Walker.{is_indexable}
use gita.Indexer.Rows.Laws.{insert_rows-ok}
use gita.Indexer.Ingest.Embedded.{
  Attached, any-attach_embeddings, OfRepo-attach_embeddings, any-write_embeddings,
}
use gita.Indexer.Ingest.Keys.{OfRepo, IsEdgeOf, file_edges-IsEdgeOf}
use gita.Indexer.Ingest.{
  Run, Pass, finish, complete_pass, store_pass, drop_stale, index_changes, write_embeddings,
}

module _ {V : Type 0} where
  abbrev pub HasRow : List (CodeIndex V) → ImportEdge → Type 0
  HasRow table edge = any (of_file edge.repo_id edge.src_file) table ≡ true

  abbrev pub IsAnchored : List (CodeIndex V) → List ImportEdge → Type 0
  IsAnchored table = All (HasRow table)

  any-append_left :
      (r p : String) (xs ys : List (CodeIndex V))
      → any (of_file r p) xs ≡ true
      → any (of_file r p) (xs ++ ys) ≡ true
  any-append_left r p [] ys h = cc
  any-append_left r p (x ∷ xs) ys h = ground (arith, any-append_left r p xs ys)

  any-append_right :
      (r p : String) (xs ys : List (CodeIndex V))
      → any (of_file r p) ys ≡ true
      → any (of_file r p) (xs ++ ys) ≡ true
  any-append_right r p [] ys h = h
  any-append_right r p (x ∷ xs) ys h = ground (arith, any-append_right r p xs ys)

  pub IsAnchored-append_left :
      (table rows : List (CodeIndex V)) (edges : List ImportEdge)
      → IsAnchored table edges
      → IsAnchored (table ++ rows) edges
  IsAnchored-append_left table rows [] h = tt
  IsAnchored-append_left table rows (e ∷ edges) (h, hs) = (
    any-append_left e.repo_id e.src_file table rows h,
    IsAnchored-append_left table rows edges hs,
  )

  pub IsAnchored-append_right :
      (table rows : List (CodeIndex V)) (edges : List ImportEdge)
      → IsAnchored rows edges
      → IsAnchored (table ++ rows) edges
  IsAnchored-append_right table rows [] h = tt
  IsAnchored-append_right table rows (e ∷ edges) (h, hs) = (
    any-append_right e.repo_id e.src_file table rows h,
    IsAnchored-append_right table rows edges hs,
  )

  -- Tables with the same keys anchor the same edges.
  pub IsAnchored-keys :
      (xs ys : List (CodeIndex V)) (edges : List ImportEdge)
      → ((r p : String) → any (of_file r p) xs ≡ any (of_file r p) ys)
      → IsAnchored xs edges
      → IsAnchored ys edges
  IsAnchored-keys xs ys [] same h = tt
  IsAnchored-keys xs ys (e ∷ edges) same (h, hs) =
      (sym (same e.repo_id e.src_file) ∙ h, IsAnchored-keys xs ys edges same hs)

  any-delete_repo :
      (r q p : String) (table : List (CodeIndex V))
      → (q == r) ≡ false
      → any (of_file q p) (delete (of_repo r) table) ≡ any (of_file q p) table
  unfolding delete
  any-delete_repo r q p [] h = refl
  any-delete_repo r q p (row ∷ table) h =
      ground (
        arith,
        any-delete_repo r q p table h,
        eq_iff row.repo_id r,
        eq_iff row.repo_id q,
        eq_iff q r,
      )

  pub IsAnchored-delete_repo :
      (r : String) (table : List (CodeIndex V)) (edges : List ImportEdge)
      → IsAnchored table edges
      → IsAnchored (delete (of_repo r) table) (delete (edge_of_repo r) edges)
  unfolding delete
  IsAnchored-delete_repo r table [] h = tt
  IsAnchored-delete_repo r table (e ∷ edges) (h, hs) = elim (Bool-cases (e.repo_id == r)) [
    | inl gone ↦ rw gone (IsAnchored-delete_repo r table edges hs)
    | inr kept ↦ rw kept (
      any-delete_repo r e.repo_id e.src_file table kept ∙ h,
      IsAnchored-delete_repo r table edges hs,
    )
  ]

  any-delete_file :
      (r f q p : String) (table : List (CodeIndex V))
      → (q == r && p == f) ≡ false
      → any (of_file q p) (delete (of_file r f) table) ≡ any (of_file q p) table
  unfolding delete
  any-delete_file r f q p [] h = refl
  any-delete_file r f q p (row ∷ table) h = ground (
    arith,
    any-delete_file r f q p table h,
    eq_iff row.repo_id r,
    eq_iff row.repo_id q,
    eq_iff q r,
    eq_iff row.file_path f,
    eq_iff row.file_path p,
    eq_iff p f,
  )

  pub IsAnchored-delete_file :
      (r f : String) (table : List (CodeIndex V)) (edges : List ImportEdge)
      → IsAnchored table edges
      → IsAnchored (delete (of_file r f) table) (delete (edge_of_file r f) edges)
  unfolding delete
  IsAnchored-delete_file r f table [] h = tt
  IsAnchored-delete_file r f table (e ∷ edges) (h, hs) = elim (Bool-cases (edge_of_file r f e)) [
    | inl gone ↦ rw gone (IsAnchored-delete_file r f table edges hs)
    | inr kept ↦ rw kept (
      any-delete_file r f e.repo_id e.src_file table kept ∙ h,
      IsAnchored-delete_file r f table edges hs,
    )
  ]

  file_edges-HasRow :
      (r : String) (row : CodeIndex V) (rows : List (CodeIndex V)) (edges : List ImportEdge)
      → row.repo_id ≡ r
      → All (IsEdgeOf r row.file_path) edges
      → IsAnchored (row ∷ rows) edges
  file_edges-HasRow r row rows [] k h = tt
  file_edges-HasRow r row rows (e ∷ edges) k ((h, f), hs) = (
    rw (h, f, k) (rw (eq_refl r, eq_refl row.file_path) refl),
    file_edges-HasRow r row rows edges k hs,
  )

  pub build_edges-IsAnchored :
      (tree : WorkTree) (r : String) (rows : List (CodeIndex V))
      → OfRepo r rows
      → IsAnchored rows (build_edges tree r rows).0
  unfolding build_edges
  build_edges-IsAnchored tree r [] h = tt
  build_edges-IsAnchored tree r (row ∷ rows) (h, hs) =
      All-append (HasRow (row ∷ rows))
        (file_edges tree r row.file_path row.language row.structure.imports).0
        (build_edges tree r rows).0
        (file_edges-HasRow r row rows _ h
          (file_edges-IsEdgeOf tree r row.file_path row.language row.structure.imports))
        (IsAnchored-append_right (row ∷ []) rows (build_edges tree r rows).0
          (build_edges-IsAnchored tree r rows hs))

  -- What the tables hold together
  abbrev pub IsSound : Store V → Type 0
  IsSound s = IsAnchored s.code_index s.import_edges

  pub clear_repo_rows-IsSound :
      (r : String) (s : Store V) → IsSound s → IsSound (clear_repo_rows r s)
  unfolding clear_repo_rows
  clear_repo_rows-IsSound r s h = IsAnchored-delete_repo r s.code_index s.import_edges h

  pub delete_file-IsSound : (r f : String) (s : Store V) → IsSound s → IsSound (delete_file r f s)
  unfolding delete_file
  delete_file-IsSound r f s h = IsAnchored-delete_file r f s.code_index s.import_edges h

module _ {V : Type 0} (run : Run V) where
  open run use {tree, repo_id, embedding_client}

  complete_pass-IsSound :
      (mode : String) (pass : Pass V) (s : Store V) (table : List (CodeIndex V))
      (out : Result (List (CodeIndex V) × ℕ))
      → table ≡ s.code_index ++ pass.rows
      → Attached (λ rows. (r p : String) → any (of_file r p) pass.rows ≡ any (of_file r p) rows) out
      → Attached (OfRepo repo_id) out
      → IsSound s
      → IsSound (complete_pass run mode pass s table out).1
  complete_pass-IsSound mode pass s table (err e) inserted same own h =
      rw inserted (IsAnchored-append_left s.code_index pass.rows s.import_edges h)
  complete_pass-IsSound mode pass s table (ok (rows, embedded)) inserted same own h =
      let edges = (build_edges tree repo_id rows).0 in
      let written = write_embeddings run rows table in
      let kept : IsAnchored table s.import_edges =
        rw inserted (IsAnchored-append_left s.code_index pass.rows s.import_edges h) in
      let fresh : IsAnchored pass.rows edges =
        IsAnchored-keys rows pass.rows edges (λ r p. sym (same r p))
          (build_edges-IsAnchored tree repo_id rows own) in
      let added : IsAnchored table edges =
        rw inserted (IsAnchored-append_right s.code_index pass.rows edges fresh) in
      All-append (HasRow written) s.import_edges edges
        (IsAnchored-keys table written s.import_edges
          (λ r p. any-write_embeddings run r p rows table) kept)
        (IsAnchored-keys table written edges (λ r p. any-write_embeddings run r p rows table) added)

  finish-IsSound :
      (mode : String) (pass : Pass V) (s : Store V) (out : Result (List (CodeIndex V)))
      → OfRepo repo_id pass.rows
      → insert_rows pass.rows s.code_index ≡ out
      → IsSound s
      → IsSound (finish run mode pass s out).1
  finish-IsSound mode pass s (err e) k inserted h = h
  finish-IsSound mode pass s (ok table) k inserted h =
      complete_pass-IsSound mode pass s table (attach_embeddings pass.rows embedding_client)
        (insert_rows-ok pass.rows s.code_index table inserted)
        (any-attach_embeddings pass.rows embedding_client)
        (OfRepo-attach_embeddings repo_id pass.rows embedding_client k) h

  pub store_pass-IsSound :
      (mode : String) (pass : Pass V) (s : Store V)
      → OfRepo repo_id pass.rows
      → IsSound s
      → IsSound (store_pass run mode pass s).1
  unfolding store_pass
  store_pass-IsSound mode pass s k h =
      finish-IsSound mode pass s (insert_rows pass.rows s.code_index) k refl h

  drop_stale-IsSound : (c : FileChange) (s : Store V) → IsSound s → IsSound (drop_stale run c s)
  unfolding drop_stale
  drop_stale-IsSound c s h =
      elim (Bool-cases (
        c.status == "deleted"
        || (is_some (is_indexable c.relative_path run.include_tests) && c.status == "modified"))) [
          | inl gone ↦ rw gone (delete_file-IsSound repo_id c.relative_path s h)
          | inr kept ↦ rw kept h
        ]

  pub index_changes-IsSound :
      (changes : List FileChange) (s : Store V)
      → IsSound s
      → IsSound (index_changes run changes s).1
  unfolding index_changes
  index_changes-IsSound [] s h = h
  index_changes-IsSound (c ∷ changes) s h =
      index_changes-IsSound changes (drop_stale run c s) (drop_stale-IsSound c s h)
