-- ===== src/Indexer/Repository/Invariants.antt =====
-- What every run keeps, in each mode and with each outcome.
use gita.Base.{
  ℕ, String, ◌≡◌, refl, sym, ap, subst, ◌∙◌, Bool-cases, Option-cases, inl, inr, arith, Result, ok,
  err,
}
use gita.Indexer.Git.{read_head_sha, discover_default_branch}
use gita.Indexer.Walker.{iter_files, max_file_size}
use gita.Indexer.Rows.{
  Repo, Structure, Store, delete, of_repo, edge_of_repo, clear_repo_rows, repo_named,
}
use gita.Indexer.Edges.{WorkTree}
use gita.Indexer.Ingest.{Run, index_files, index_changes, full_index, incremental_index}
use gita.Indexer.Ingest.Keys.{index_files-OfRepo, index_changes-OfRepo}
use gita.Indexer.Ingest.Anchored.{
  IsSound, clear_repo_rows-IsSound, index_changes-IsSound, store_pass-IsSound,
}
use gita.Indexer.Ingest.Others.{
  AgreeElsewhere, clear_repo_rows-AgreeElsewhere, index_changes-AgreeElsewhere,
  store_pass-AgreeElsewhere,
}
use gita.Indexer.Repository.{
  Options, Mode, full, noop, incremental, choose_mode, run_mode, noop_index, text_or,
  get_or_create_repo, run_of, index_with, index_repository,
}

module _ {V : Type 0} (run : Run V) where
  run_mode-IsSound : (mode : Mode) (s : Store V) → IsSound s → IsSound (run_mode run mode s).1
  unfolding run_mode full_index noop_index incremental_index
  run_mode-IsSound full s h =
      store_pass-IsSound run "full"
        (index_files run (iter_files run.tree.entries run.include_tests max_file_size))
        (clear_repo_rows run.repo_id s)
        (index_files-OfRepo run (iter_files run.tree.entries run.include_tests max_file_size))
        (clear_repo_rows-IsSound run.repo_id s h)
  run_mode-IsSound noop s h = h
  run_mode-IsSound (incremental changes) s h =
      store_pass-IsSound run "incremental" (index_changes run changes s).0
        (index_changes run changes s).1 (index_changes-OfRepo run changes s)
        (index_changes-IsSound run changes s h)

  run_mode-AgreeElsewhere :
      (mode : Mode) (s : Store V) → AgreeElsewhere run.repo_id (run_mode run mode s).1 s
  unfolding run_mode full_index noop_index incremental_index
  run_mode-AgreeElsewhere full s =
      store_pass-AgreeElsewhere run "full"
        (index_files run (iter_files run.tree.entries run.include_tests max_file_size))
        (clear_repo_rows run.repo_id s) s
        (index_files-OfRepo run (iter_files run.tree.entries run.include_tests max_file_size))
        (clear_repo_rows-AgreeElsewhere run s)
  run_mode-AgreeElsewhere noop s = record { rows = refl; edges = refl }
  run_mode-AgreeElsewhere (incremental changes) s =
      store_pass-AgreeElsewhere run "incremental" (index_changes run changes s).0
        (index_changes run changes s).1 s (index_changes-OfRepo run changes s)
        (index_changes-AgreeElsewhere run changes s)

module _ {V : Type 0} (uuid : ℕ → String) (parse_file : String → String → String → Structure)
    (tree : WorkTree) (options : Options V) (now : ℕ) where
  -- The call that finds or creates the row of the repository
  abbrev obtain : String → Store V → Result Repo × Store V
  obtain name =
      get_or_create_repo uuid name tree.root_path options.github_full_name
        (text_or options.default_branch (discover_default_branch tree.git))

  obtain-tables :
      (name : String) (s : Store V)
      → ((obtain name s).1.code_index ≡ s.code_index)
        × ((obtain name s).1.import_edges ≡ s.import_edges)
  unfolding get_or_create_repo
  obtain-tables name s = elim (Option-cases (repo_named name s.repos)) [
    | inl new ↦ rw new (ground arith)
    | inr (old, found) ↦ rw found (ground arith)
  ]

  index_with-IsSound :
      (got : Result Repo) (s : Store V)
      → IsSound s
      → IsSound (index_with uuid parse_file tree options now (got, s)).1
  index_with-IsSound (err e) s h = h
  index_with-IsSound (ok repo) s h =
      run_mode-IsSound (run_of uuid parse_file tree options now repo)
        (choose_mode options.force_full repo.head_sha (read_head_sha tree.git) tree.git) s h

  -- Whatever the tree, the options and the outcome, a raised exception included: if each import edge
  -- came from a file that has a row of the same repository, then each still does after the run.
  pub index_repository-IsSound :
      (name : String) (s : Store V)
      → IsSound s
      → IsSound (index_repository uuid parse_file name tree options now s).1
  unfolding index_repository
  index_repository-IsSound name s h = elim (Bool-cases tree.is_dir) [
    | inl dir ↦ simp dir (
        index_with-IsSound (obtain name s).0 (obtain name s).1
          (rw ((obtain-tables name s).0, (obtain-tables name s).1) h))
    | inr missing ↦ simp missing h
  ]

  index_with-AgreeElsewhere :
      (repo : Repo) (s : Store V)
      → AgreeElsewhere repo.id (index_with uuid parse_file tree options now (ok repo, s)).1 s
  index_with-AgreeElsewhere repo s =
      run_mode-AgreeElsewhere (run_of uuid parse_file tree options now repo)
        (choose_mode options.force_full repo.head_sha (read_head_sha tree.git) tree.git) s

  -- A run on a repository, with whatever outcome, leaves the rows and the import edges of all other
  -- repositories as they were, in their order.
  pub index_repository-AgreeElsewhere :
      (name : String) (s s1 : Store V) (repo : Repo)
      → obtain name s ≡ (ok repo, s1)
      → AgreeElsewhere repo.id (index_repository uuid parse_file name tree options now s).1 s
  unfolding index_repository
  index_repository-AgreeElsewhere name s s1 repo got = elim (Bool-cases tree.is_dir) [
    | inl dir ↦ simp dir (
        subst (λ out. AgreeElsewhere repo.id (index_with uuid parse_file tree options now out).1 s)
          (sym got)
          (record {
            rows =
                (index_with-AgreeElsewhere repo s1).rows
                ∙ ap (delete (of_repo repo.id))
                    (ap (λ out. out.1.code_index) (sym got) ∙ (obtain-tables name s).0);
            edges =
                (index_with-AgreeElsewhere repo s1).edges
                ∙ ap (delete (edge_of_repo repo.id))
                    (ap (λ out. out.1.import_edges) (sym got) ∙ (obtain-tables name s).1);
          }))
    | inr missing ↦ simp missing (record { rows = refl; edges = refl })
  ]
