-- ===== src/Indexer/Repository/Reflects.antt =====
-- A run of `index_repository`, in whichever mode, brings the index up to the tree.
use gita.Base.{
  ℕ, String, ◌≡◌, refl, sym, ap, ◌∙◌, Bool, true, false, Bool-cases, Option-cases, subst, inl, inr,
  Option, none, some, List, ◌==◌, eq_iff, arith, if-true, Result, ok,
}
use gita.Indexer.Changes.{FileChange}
use gita.Indexer.Git.{detect_changes, read_head_sha, discover_default_branch}
use gita.Indexer.Walker.{is_indexable}
use gita.Indexer.Rows.{Repo, Structure, Store, repo_named}
use gita.Indexer.Edges.{WorkTree}
use gita.Indexer.Ingest.{Run, IngestResult}
use gita.Indexer.Snapshot.{view_of_language-eq, Reflects, IsDiff, IsListing}
use gita.Indexer.Ingest.Embedded.{Answers}
use gita.Indexer.Snapshot.Full.{full_index-Reflects}
use gita.Indexer.Snapshot.Incremental.{incremental_index-Reflects}
use gita.Indexer.Repository.{
  Options, of_changes, full, noop, choose_mode, run_mode, noop_index, text_or, get_or_create_repo,
  run_of, index_with, index_repository,
}

-- What is known of the last indexed revision: with none, nothing; otherwise the table reflects the
-- contents `before`, the diff that git prints leads from them to the tree, and the same revision has
-- the same contents.
pub record IsTracked {V : Type 0} (parse_file : String → String → String → Structure)
    (options : Options V) (tree : WorkTree) (before : String → Option String) (repo : Repo)
    (s : Store V) : Type 0 where
  pub known :
      (sha : String)
      → repo.head_sha ≡ some sha
      → Reflects parse_file options.include_tests before repo.id s.code_index
  pub moved :
      (sha : String) (changes : List FileChange)
      → repo.head_sha ≡ some sha
      → detect_changes tree.git sha ≡ some changes
      → IsDiff before tree.read changes
  pub still :
      (sha : String)
      → repo.head_sha ≡ some sha
      → read_head_sha tree.git ≡ some sha
      → (path : String) → tree.read path ≡ before path

module _ {V : Type 0} (uuid : ℕ → String) (parse_file : String → String → String → Structure)
    (tree : WorkTree) (options : Options V) (now : ℕ) where
  -- What a run is to end in
  abbrev EndsWell : Repo → Result IngestResult × Store V → Type 0
  EndsWell repo out =
      (result : IngestResult) × (s' : Store V) × (out ≡ (ok result, s'))
      × Reflects parse_file options.include_tests tree.read repo.id s'.code_index

  module _ (before : String → Option String) (repo : Repo) (s : Store V)
      (listing : IsListing tree.read tree.entries)
      (tracked : IsTracked parse_file options tree before repo s)
      (answers : Answers options.embedding_client) where
    abbrev this_run : Run V
    this_run = run_of uuid parse_file tree options now repo

    full-EndsWell : EndsWell repo (run_mode this_run full s)
    unfolding run_mode
    full-EndsWell = full_index-Reflects this_run s listing answers

    changed-EndsWell :
        (old : String) (found : Option (List FileChange))
        → repo.head_sha ≡ some old
        → detect_changes tree.git old ≡ found
        → EndsWell repo (run_mode this_run (of_changes found) s)
    changed-EndsWell old none stored printed = full-EndsWell
    changed-EndsWell old (some changes) stored printed =
        unfold run_mode in
        incremental_index-Reflects this_run before s changes
          (tracked.moved old changes stored printed) (tracked.known old stored) answers

    noop-EndsWell :
        (sha : String)
        → repo.head_sha ≡ some sha
        → read_head_sha tree.git ≡ some sha
        → EndsWell repo (run_mode this_run noop s)
    unfolding run_mode noop_index
    noop-EndsWell sha stored read = (
      _,
      _,
      refl,
      λ path.
          tracked.known sha stored path
          ∙ view_of_language-eq parse_file before tree.read path
              (is_indexable path options.include_tests) (tracked.still sha stored read path),
    )

    run_mode-EndsWell :
        (force : Bool) (old head : Option String)
        → repo.head_sha ≡ old
        → read_head_sha tree.git ≡ head
        → EndsWell repo (run_mode this_run (choose_mode force old head tree.git) s)
    unfolding choose_mode
    run_mode-EndsWell force none head stored read = full-EndsWell
    run_mode-EndsWell force (some old) none stored read = full-EndsWell
    run_mode-EndsWell true (some old) (some head) stored read = full-EndsWell
    run_mode-EndsWell false (some old) (some head) stored read = elim (Bool-cases (old == head)) [
      | inl same ↦
          rw same (noop-EndsWell old stored (read ∙ (rw (← (eq_iff old head).0 same) refl)))
      | inr differs ↦ rw differs (changed-EndsWell old (detect_changes tree.git old) stored refl)
    ]

  code_index-get_or_create :
      (name branch : String) (s s1 : Store V) (repo : Repo)
      → get_or_create_repo uuid name tree.root_path options.github_full_name branch s
        ≡ (ok repo, s1)
      → s1.code_index ≡ s.code_index
  unfolding get_or_create_repo
  code_index-get_or_create name branch s s1 repo h = elim (Option-cases (repo_named name s.repos)) [
    | inl new ↦ ground arith
    | inr (old, found) ↦ ground arith
  ]

  index_repository_lem :
      (name : String) (s s1 : Store V) (repo : Repo)
      → tree.is_dir ≡ true
      → get_or_create_repo uuid name tree.root_path options.github_full_name
          (text_or options.default_branch (discover_default_branch tree.git))
          s
        ≡ (ok repo, s1)
      → index_repository uuid parse_file name tree options now s
        ≡ run_mode
            (run_of uuid parse_file tree options now repo)
            (choose_mode options.force_full repo.head_sha (read_head_sha tree.git) tree.git)
            s1
  unfolding index_repository
  index_repository_lem name s s1 repo dir got =
      if-true tree.is_dir _ _ dir ∙ ap (index_with uuid parse_file tree options now) got

  -- If the root is a directory, the repository's row can be written, what is known of the last indexed
  -- revision is right, the walk lists the readable files with their sizes in the limit, and the
  -- embedding client, if there is one, does not raise, then the run ends without an error, and the
  -- index reflects the tree: of each path it says what reading and parsing the file says, and nothing
  -- where there is no indexable file.
  pub index_repository-Reflects :
      (name : String) (s s1 : Store V) (repo : Repo) (before : String → Option String)
      → tree.is_dir ≡ true
      → get_or_create_repo uuid name tree.root_path options.github_full_name
          (text_or options.default_branch (discover_default_branch tree.git))
          s
        ≡ (ok repo, s1)
      → IsListing tree.read tree.entries
      → IsTracked parse_file options tree before repo s
      → Answers options.embedding_client
      → EndsWell repo (index_repository uuid parse_file name tree options now s)
  index_repository-Reflects name s s1 repo before dir got listing tracked answers =
      subst (EndsWell repo) (sym (index_repository_lem name s s1 repo dir got)) (
        run_mode-EndsWell before repo s1 listing moved answers options.force_full repo.head_sha
          (read_head_sha tree.git) refl refl)
    where
      branch : String
      branch = text_or options.default_branch (discover_default_branch tree.git)

      moved : IsTracked parse_file options tree before repo s1
      moved = record {
        known = λ sha stored.
            rw (code_index-get_or_create name branch s s1 repo got) (tracked.known sha stored);
        moved = tracked.moved;
        still = tracked.still;
      }
