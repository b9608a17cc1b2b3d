-- ===== src/Indexer/Ingest/Others.antt =====
-- The rows and edges of other repositories, which a run leaves alone.
use gita.Base.{
  ℕ, String, ◌≡◌, refl, ap, ◌∙◌, ◌||◌, ◌&&◌, is_some, Option, none, some, List, [], ◌∷◌, ◌++◌, All,
  All-append, Bool-cases, inl, inr, arith, ◌==◌, eq_iff, Result, ok, err,
}
use gita.Indexer.Changes.{FileChange}
use gita.Indexer.Walker.{is_indexable}
use gita.Indexer.Rows.{
  CodeIndex, ImportEdge, Store, delete, of_repo, of_file, edge_of_repo, edge_of_file,
  clear_repo_rows, delete_file, insert_rows,
}
use gita.Indexer.Rows.Laws.{insert_rows-ok}
use gita.Indexer.Edges.{WorkTree, file_edges, build_edges}
use gita.Indexer.Embeddings.{attach_embeddings}
use gita.Indexer.Ingest.Keys.{OfRepo, IsEdgeOf, file_edges-IsEdgeOf}
use gita.Indexer.Ingest.{
  Run, Pass, finish, complete_pass, store_pass, drop_stale, index_changes, embedded_row, find_row,
  write_embeddings,
}

module _ {V : Type 0} where
  -- The two stores hold the same rows and edges of the repositories other than `r`.
  pub record AgreeElsewhere (r : String) (s t : Store V) : Type 0 where
    pub rows : delete (of_repo r) s.code_index ≡ delete (of_repo r) t.code_index
    pub edges : delete (edge_of_repo r) s.import_edges ≡ delete (edge_of_repo r) t.import_edges

  delete-delete_repo :
      (r : String) (table : List (CodeIndex V))
      → delete (of_repo r) (delete (of_repo r) table) ≡ delete (of_repo r) table
  unfolding delete
  delete-delete_repo r [] = refl
  delete-delete_repo r (row ∷ table) = ground (arith, delete-delete_repo r table)

  delete-delete_file :
      (r f : String) (table : List (CodeIndex V))
      → delete (of_repo r) (delete (of_file r f) table) ≡ delete (of_repo r) table
  unfolding delete
  delete-delete_file r f [] = refl
  delete-delete_file r f (row ∷ table) = ground (arith, delete-delete_file r f table)

  delete-append_rows :
      (r : String) (table rows : List (CodeIndex V))
      → OfRepo r rows
      → delete (of_repo r) (table ++ rows) ≡ delete (of_repo r) table
  unfolding delete
  delete-append_rows r [] [] h = refl
  delete-append_rows r [] (row ∷ rows) (h, hs) =
      ground (arith, delete-append_rows r [] rows hs, eq_iff row.repo_id r)
  delete-append_rows r (row ∷ table) rows h = ground (arith, delete-append_rows r table rows h)

  repo_id-embedded_row :
      (run : Run V) (row : CodeIndex V) (found : Option (CodeIndex V))
      → (embedded_row run row found).repo_id ≡ row.repo_id
  repo_id-embedded_row run row none = refl
  repo_id-embedded_row run row (some found) = refl

  delete-write_embeddings :
      (run : Run V) (rows table : List (CodeIndex V))
      → delete (of_repo run.repo_id) (write_embeddings run rows table)
        ≡ delete (of_repo run.repo_id) table
  unfolding delete write_embeddings
  delete-write_embeddings run rows [] = refl
  delete-write_embeddings run rows (row ∷ table) = ground (
    arith,
    delete-write_embeddings run rows table,
    repo_id-embedded_row run row (find_row run row.file_path rows),
  )

delete-delete_edges :
    (r : String) (edges : List ImportEdge)
    → delete (edge_of_repo r) (delete (edge_of_repo r) edges) ≡ delete (edge_of_repo r) edges
unfolding delete
delete-delete_edges r [] = refl
delete-delete_edges r (e ∷ edges) = ground (arith, delete-delete_edges r edges)

delete-delete_file_edges :
    (r f : String) (edges : List ImportEdge)
    → delete (edge_of_repo r) (delete (edge_of_file r f) edges) ≡ delete (edge_of_repo r) edges
unfolding delete
delete-delete_file_edges r f [] = refl
delete-delete_file_edges r f (e ∷ edges) = ground (arith, delete-delete_file_edges r f edges)

delete-append_edges :
    (r : String) (edges more : List ImportEdge)
    → All (λ e. e.repo_id ≡ r) more
    → delete (edge_of_repo r) (edges ++ more) ≡ delete (edge_of_repo r) edges
unfolding delete
delete-append_edges r [] [] h = refl
delete-append_edges r [] (e ∷ more) (h, hs) =
    ground (arith, delete-append_edges r [] more hs, eq_iff e.repo_id r)
delete-append_edges r (e ∷ edges) more h = ground (arith, delete-append_edges r edges more h)

IsEdgeOf-repo :
    (r src : String) (edges : List ImportEdge)
    → All (IsEdgeOf r src) edges
    → All (λ e. e.repo_id ≡ r) edges
IsEdgeOf-repo r src [] h = tt
IsEdgeOf-repo r src (e ∷ edges) ((h, k), hs) = (h, IsEdgeOf-repo r src edges hs)

build_edges-repo :
    {V : Type 0} (tree : WorkTree) (r : String) (rows : List (CodeIndex V))
    → All (λ e. e.repo_id ≡ r) (build_edges tree r rows).0
unfolding build_edges
build_edges-repo tree r [] = tt
build_edges-repo tree r (row ∷ rows) =
    All-append (λ e. e.repo_id ≡ r)
      (file_edges tree r row.file_path row.language row.structure.imports).0
      (build_edges tree r rows).0
      (IsEdgeOf-repo r row.file_path _
        (file_edges-IsEdgeOf tree r row.file_path row.language row.structure.imports))
      (build_edges-repo tree r rows)

module _ {V : Type 0} (run : Run V) where
  open run use {tree, repo_id, embedding_client, include_tests}

  pub clear_repo_rows-AgreeElsewhere :
      (s : Store V) → AgreeElsewhere repo_id (clear_repo_rows repo_id s) s
  unfolding clear_repo_rows
  clear_repo_rows-AgreeElsewhere s = record {
    rows = delete-delete_repo repo_id s.code_index;
    edges = delete-delete_edges repo_id s.import_edges;
  }

  drop_stale-AgreeElsewhere :
      (c : FileChange) (s : Store V) → AgreeElsewhere repo_id (drop_stale run c s) s
  unfolding drop_stale delete_file
  drop_stale-AgreeElsewhere c s =
      elim (Bool-cases (
        c.status == "deleted"
        || (is_some (is_indexable c.relative_path include_tests) && c.status == "modified"))) [
          | inl gone ↦ rw gone (record {
            rows = delete-delete_file repo_id c.relative_path s.code_index;
            edges = delete-delete_file_edges repo_id c.relative_path s.import_edges;
          })
          | inr kept ↦ rw kept (record { rows = refl; edges = refl })
        ]

  pub index_changes-AgreeElsewhere :
      (changes : List FileChange) (s : Store V)
      → AgreeElsewhere repo_id (index_changes run changes s).1 s
  unfolding index_changes
  index_changes-AgreeElsewhere [] s = record { rows = refl; edges = refl }
  index_changes-AgreeElsewhere (c ∷ changes) s =
      let first = drop_stale-AgreeElsewhere c s in
      let rest = index_changes-AgreeElsewhere changes (drop_stale run c s) in
      record { rows = rest.rows ∙ first.rows; edges = rest.edges ∙ first.edges }

  complete_pass-AgreeElsewhere :
      (mode : String) (pass : Pass V) (s t : Store V) (table : List (CodeIndex V))
      (out : Result (List (CodeIndex V) × ℕ))
      → delete (of_repo repo_id) table ≡ delete (of_repo repo_id) t.code_index
      → AgreeElsewhere repo_id s t
      → AgreeElsewhere repo_id (complete_pass run mode pass s table out).1 t
  complete_pass-AgreeElsewhere mode pass s t table (err e) same h = record {
    rows = same;
    edges = h.edges;
  }
  complete_pass-AgreeElsewhere mode pass s t table (ok (rows, embedded)) same h = record {
    rows = delete-write_embeddings run rows table ∙ same;
    edges =
        delete-append_edges repo_id s.import_edges (build_edges tree repo_id rows).0
          (build_edges-repo tree repo_id rows)
        ∙ h.edges;
  }

  finish-AgreeElsewhere :
      (mode : String) (pass : Pass V) (s t : Store V) (out : Result (List (CodeIndex V)))
      → OfRepo repo_id pass.rows
      → insert_rows pass.rows s.code_index ≡ out
      → AgreeElsewhere repo_id s t
      → AgreeElsewhere repo_id (finish run mode pass s out).1 t
  finish-AgreeElsewhere mode pass s t (err e) k inserted h = h
  finish-AgreeElsewhere mode pass s t (ok table) k inserted h =
      complete_pass-AgreeElsewhere mode pass s t table
        (attach_embeddings pass.rows embedding_client)
        (ap (delete (of_repo repo_id)) (insert_rows-ok pass.rows s.code_index table inserted)
          ∙ delete-append_rows repo_id s.code_index pass.rows k
          ∙ h.rows)
        h

  pub store_pass-AgreeElsewhere :
      (mode : String) (pass : Pass V) (s t : Store V)
      → OfRepo repo_id pass.rows
      → AgreeElsewhere repo_id s t
      → AgreeElsewhere repo_id (store_pass run mode pass s).1 t
  unfolding store_pass
  store_pass-AgreeElsewhere mode pass s t k h =
      finish-AgreeElsewhere mode pass s t (insert_rows pass.rows s.code_index) k refl h
