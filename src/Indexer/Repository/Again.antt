-- ===== src/Indexer/Repository/Again.antt =====
-- A second run at the same revision.
use gita.Base.{
  ℕ, ◌+◌, String, ◌≡◌, refl, sym, ap, ◌∙◌, Bool, true, false, Bool-cases, Option-cases, if-true,
  inl, inr, Option, none, some, List, [], ◌∷◌, ◌++◌, ◌==◌, eq_iff, eq_refl, arith, Result, ok, err,
}
use gita.Indexer.Git.{detect_changes, read_head_sha, discover_default_branch}
use gita.Indexer.Rows.{Repo, Structure, Store, clear_repo_rows, repo_named, update_repo}
use gita.Indexer.Edges.{WorkTree}
use gita.Indexer.Ingest.{
  Run, IngestResult, index_changes, stamp, store_pass, full_index, incremental_index,
}
use gita.Indexer.Repository.Named.{
  repo_named-name, repo_named-replace, repo_named-update_repo, repo_named_snoc, finish-repos,
  repos-index_changes, flush_repo-ok,
}
use gita.Indexer.Repository.{
  Options, Mode, full, noop, incremental, choose_mode, run_mode, noop_index, touch, text_or,
  get_or_create_repo, refresh, new_repo, run_of, index_with, index_repository,
}

-- The row of the repository says the run's revision.
abbrev IsMarked : String → Option String → List Repo → Type 0
IsMarked name head repos =
    (repo : Repo) × (repo_named name repos ≡ some repo) × (repo.head_sha ≡ head)

module _ {V : Type 0} where
  module _ (uuid : ℕ → String) (parse_file : String → String → String → Structure) (tree : WorkTree)
      (options : Options V) (now : ℕ) (name : String) where
    abbrev branch : String
    branch = text_or options.default_branch (discover_default_branch tree.git)

    abbrev pub obtain : Store V → Result Repo × Store V
    obtain = get_or_create_repo uuid name tree.root_path options.github_full_name branch

    obtain-repo_named :
        (s s1 : Store V) (repo : Repo)
        → obtain s ≡ (ok repo, s1)
        → repo_named name s1.repos ≡ some repo
    unfolding get_or_create_repo refresh
    obtain-repo_named s s1 repo h = elim (Option-cases (repo_named name s.repos)) [
      | inl missing ↦
          let made = new_repo (uuid s.issued) name tree.root_path options.github_full_name branch in
          let (same, after) =
            flush_repo-ok made repo
              (record s { repos = s.repos ++ made ∷ []; issued = s.issued + 1 }) s s1
              (rw missing at h) in
          rw (after, same) (repo_named_snoc name s.repos made missing (eq_refl name))
      | inr (old, found) ↦
          let fresh = refresh tree.root_path options.github_full_name branch old in
          let (same, after) =
            flush_repo-ok fresh repo (record s { repos = update_repo old.id (λ _. fresh) s.repos })
              s s1 (rw found at h) in
          rw (after, same)
            (repo_named-replace name s.repos old fresh (repo_named-name name s.repos old found)
              found)
    ]

    abbrev run_on : Repo → Run V
    run_on = run_of uuid parse_file tree options now

    -- Each mode leaves the repository's row at the tree's revision.
    stamped-IsMarked :
        (repo : Repo) (s s' : Store V)
        → repo_named name s.repos ≡ some repo
        → s'.repos ≡ update_repo repo.id (stamp (run_on repo)) s.repos
        → IsMarked name (read_head_sha tree.git) s'.repos
    stamped-IsMarked repo s s' found after = (
      stamp (run_on repo) repo,
      rw after (repo_named-update_repo name (stamp (run_on repo)) s.repos repo (λ r. refl) found),
      refl,
    )

    run_mode-IsMarked :
        (mode : Mode) (repo : Repo) (s s' : Store V) (result : IngestResult)
        → (mode ≡ noop → repo.head_sha ≡ read_head_sha tree.git)
        → repo_named name s.repos ≡ some repo
        → run_mode (run_on repo) mode s ≡ (ok result, s')
        → IsMarked name (read_head_sha tree.git) s'.repos
    unfolding run_mode full_index incremental_index noop_index store_pass clear_repo_rows
    run_mode-IsMarked full repo s s' result still found h =
        stamped-IsMarked repo s s' found
          (finish-repos (run_on repo) "full" _ (clear_repo_rows repo.id s) s' result _ h)
    run_mode-IsMarked (incremental changes) repo s s' result still found h =
        stamped-IsMarked repo s s' found (
          finish-repos (run_on repo) "incremental" _ (index_changes (run_on repo) changes s).1 s'
            result _ h
          ∙ ap (update_repo repo.id (stamp (run_on repo)))
              (repos-index_changes (run_on repo) changes s))
    run_mode-IsMarked noop repo s s' result still found h = (
      touch now repo,
      rw (sym (ap (λ o. o.1.repos) h))
          (repo_named-update_repo name (touch now) s.repos repo (λ r. refl) found),
      still refl,
    )

    choose_mode-noop :
        (force : Bool) (old head : Option String)
        → choose_mode force old head tree.git ≡ noop
        → old ≡ head
    unfolding choose_mode
    choose_mode-noop force none head h = ground (arith, h)
    choose_mode-noop force (some old) none h = ground (arith, h)
    choose_mode-noop true (some old) (some head) h = ground (arith, h)
    choose_mode-noop false (some old) (some head) h = elim (Bool-cases (old == head)) [
      | inl same ↦ ap some ((eq_iff old head).0 same)
      | inr differs ↦ elim (Option-cases (detect_changes tree.git old)) [
        | inl unknown ↦ ground (arith, h)
        | inr (changes, printed) ↦ ground (arith, h)
      ]
    ]

    index_with-IsMarked :
        (got : Result Repo × Store V) (s s' : Store V) (result : IngestResult)
        → obtain s ≡ got
        → index_with uuid parse_file tree options now got ≡ (ok result, s')
        → IsMarked name (read_head_sha tree.git) s'.repos
    index_with-IsMarked (err e, s1) s s' result got h = ground (arith, h)
    index_with-IsMarked (ok repo, s1) s s' result got h =
        run_mode-IsMarked
          (choose_mode options.force_full repo.head_sha (read_head_sha tree.git) tree.git) repo s1
          s' result (choose_mode-noop options.force_full repo.head_sha (read_head_sha tree.git))
          (obtain-repo_named s s1 repo got) h

    ran :
        (s s' : Store V) (result : IngestResult)
        → index_repository uuid parse_file name tree options now s ≡ (ok result, s')
        → (tree.is_dir ≡ true)
          × (index_with uuid parse_file tree options now (obtain s) ≡ (ok result, s'))
    unfolding index_repository
    ran s s' result h = elim (Bool-cases tree.is_dir) [
      | inl dir ↦ (dir, sym (if-true tree.is_dir _ _ dir) ∙ h)
      | inr missing ↦ ground (arith, h)
    ]

    -- After a run that returned, the repository's row says the revision of the tree.
    index_repository-IsMarked :
        (s s' : Store V) (result : IngestResult)
        → index_repository uuid parse_file name tree options now s ≡ (ok result, s')
        → IsMarked name (read_head_sha tree.git) s'.repos
    index_repository-IsMarked s s' result h =
        index_with-IsMarked (obtain s) s s' result refl (ran s s' result h).1

    head_sha-obtain :
        (s s1 : Store V) (repo old : Repo)
        → repo_named name s.repos ≡ some old
        → obtain s ≡ (ok repo, s1)
        → (repo.head_sha ≡ old.head_sha)
          × (s1.code_index ≡ s.code_index)
          × (s1.import_edges ≡ s.import_edges)
    unfolding get_or_create_repo refresh
    head_sha-obtain s s1 repo old found h =
        let fresh = refresh tree.root_path options.github_full_name branch old in
        let (same, after) =
          flush_repo-ok fresh repo (record s { repos = update_repo old.id (λ _. fresh) s.repos }) s
            s1 (rw found at h) in
        (ap (λ r. r.head_sha) same, ap (λ t. t.code_index) after, ap (λ t. t.import_edges) after)

    index_repository-noop :
        (s s1 : Store V) (repo : Repo) (head : String)
        → tree.is_dir ≡ true
        → read_head_sha tree.git ≡ some head
        → options.force_full ≡ false
        → obtain s ≡ (ok repo, s1)
        → repo.head_sha ≡ some head
        → index_repository uuid parse_file name tree options now s ≡ noop_index (run_on repo) s1
    unfolding index_repository choose_mode run_mode
    index_repository-noop s s1 repo head dir read lazy got marked =
        if-true tree.is_dir _ _ dir
        ∙ ap (index_with uuid parse_file tree options now) got
        ∙ ap (λ m. run_mode (run_on repo) m s1) mode
      where
        mode : choose_mode options.force_full repo.head_sha (read_head_sha tree.git) tree.git ≡ noop
        mode = rw (marked, read, lazy) (rw (eq_refl head) refl)

  -- If a run returned on a tree whose revision git tells, then a second run on the same tree that is
  -- not forced, and whose writing of the repository's row succeeds, returns in the mode "noop" and
  -- leaves the rows and the import edges as they are.
  pub index_repository-again :
      (uuid : ℕ → String) (parse_file : String → String → String → Structure) (tree : WorkTree)
      (options later : Options V) (now later_now : ℕ) (name head : String) (s s' s2 : Store V)
      (result : IngestResult) (repo : Repo)
      → read_head_sha tree.git ≡ some head
      → index_repository uuid parse_file name tree options now s ≡ (ok result, s')
      → later.force_full ≡ false
      → obtain uuid parse_file tree later later_now name s' ≡ (ok repo, s2)
      → (again : IngestResult) × (s3 : Store V) × (index_repository uuid parse_file name tree later
            later_now s'
          ≡ (ok again, s3))
        × (again.mode ≡ "noop")
        × (s3.code_index ≡ s'.code_index)
        × (s3.import_edges ≡ s'.import_edges)
  unfolding noop_index
  index_repository-again uuid parse_file tree options later now later_now name head s s' s2 result
        repo read first lazy got =
      let (marked, found, at_head) =
        index_repository-IsMarked uuid parse_file tree options now name s s' result first in
      let (kept, rows, edges) =
        head_sha-obtain uuid parse_file tree later later_now name s' s2 repo marked found got in
      let dir = (ran uuid parse_file tree options now name s s' result first).0 in
      (
        _,
        _,
        index_repository-noop uuid parse_file tree later later_now name s' s2 repo head dir read
            lazy got (kept ∙ at_head ∙ read),
        refl,
        rows,
        edges,
      )
