-- ===== src/Indexer/Repository.antt =====
-- `index_repository` of indexer/ingest.py: which of the modes a run takes.
pub mod Reflects
pub mod Named
pub mod Again
pub mod Invariants
use gita.Base.{
  ℕ, ◌+◌, String, Bool, ◌&&◌, not, Option, none, false, some, List, [], ◌∷◌, ◌++◌, ◌==◌, any,
  if◌then◌else◌, integrity_error, value_error, Result, ok, err,
}
use gita.Base.Exec.{Exec}
use gita.Indexer.Changes.{FileChange}
use gita.Indexer.Git.{Git, detect_changes, read_head_sha, discover_default_branch}
use gita.Indexer.Rows.{Repo, Structure, Store, update_repo, repo_named}
use gita.Indexer.Edges.{WorkTree}
use gita.Indexer.Ingest.{
  Run, IngestResult, empty_pass, ingest_result, full_index, incremental_index,
}

-- The keyword arguments
pub record Options (V : Type 0) : Type 0 where
  pub include_tests : Bool
  pub force_full : Bool
  pub github_full_name : Option String
  pub default_branch : Option String
  pub embedding_client : Option (List String → Result (List V))

-- `if value`, of an optional text
abbrev pub given_text : Option String → Bool
given_text none = false
given_text (some s) = not (s == "")

abbrev pub text_or : Option String → String → String
text_or none other = other
text_or (some s) other = if s == "" then other else s

abbrev pub named_on_github : Option String → Repo → Bool
named_on_github none repo = false
named_on_github (some name) repo = elim repo.github_full_name [
  | none ↦ false
  | some other ↦ other == name
]

-- The assignments to a repository that is in the table
unfoldable pub refresh : String → Option String → String → Repo → Repo
refresh root_path github_full_name branch repo = record repo {
  root_path = root_path;
  github_full_name =
      if given_text github_full_name && not (given_text repo.github_full_name)
      then github_full_name
      else repo.github_full_name;
  default_branch = if branch == "" then repo.default_branch else branch;
}

abbrev pub new_repo : String → String → String → Option String → String → Repo
new_repo id name root_path github_full_name branch = record {
  id = id;
  name = name;
  github_full_name = github_full_name;
  root_path = root_path;
  head_sha = none;
  indexed_at = none;
  auto_test_generation = false;
  default_branch = if branch == "" then "main" else branch;
}

-- The unique constraint on `github_full_name`
unfoldable pub is_claimed : Repo → List Repo → Bool
is_claimed repo =
    any (λ other. not (other.id == repo.id) && named_on_github repo.github_full_name other)

-- What a run decides to do
pub data Mode : Type 0 where
  full : Mode
  noop : Mode
  incremental : List FileChange → Mode

abbrev pub of_changes : Option (List FileChange) → Mode
of_changes none = full
of_changes (some changes) = incremental changes

unfoldable pub choose_mode : Bool → Option String → Option String → Git → Mode
choose_mode force_full none head git = full
choose_mode force_full (some old) none git = full
choose_mode force_full (some old) (some head) git =
    if force_full then full else if old == head then noop else of_changes (detect_changes git old)

abbrev pub touch : ℕ → Repo → Repo
touch now repo = record repo { indexed_at = some now }

module _ {V : Type 0} where
  abbrev pub flush_repo : Repo → Store V → Exec (Store V) Repo
  flush_repo repo changed s =
      if is_claimed repo s.repos then (err integrity_error, s) else (ok repo, changed)

  abbrev pub get_or_create :
      (ℕ → String) → String → String → Option String → String → Option Repo → Exec (Store V) Repo
  get_or_create uuid name root_path github_full_name branch (some existing) s =
      let repo = refresh root_path github_full_name branch existing in
      flush_repo repo (record s { repos = update_repo existing.id (λ _. repo) s.repos }) s
  get_or_create uuid name root_path github_full_name branch none s =
      let repo = new_repo (uuid s.issued) name root_path github_full_name branch in
      flush_repo repo (record s { repos = s.repos ++ repo ∷ []; issued = s.issued + 1 }) s

  unfoldable pub get_or_create_repo :
      (ℕ → String) → String → String → Option String → String → Exec (Store V) Repo
  get_or_create_repo uuid name root_path github_full_name branch s =
      get_or_create uuid name root_path github_full_name branch (repo_named name s.repos) s

  unfoldable pub noop_index : Run V → Exec (Store V) IngestResult
  noop_index run s = (
    ok (ingest_result run "noop" empty_pass 0 0 0),
    record s { repos = update_repo run.repo_id (touch run.now) s.repos },
  )

  unfoldable pub run_mode : Run V → Mode → Exec (Store V) IngestResult
  run_mode run full = full_index run
  run_mode run noop = noop_index run
  run_mode run (incremental changes) = incremental_index run changes

  module _ (uuid : ℕ → String) (parse_file : String → String → String → Structure) where
    abbrev pub run_of : WorkTree → Options V → ℕ → Repo → Run V
    run_of tree options now repo = record {
      parse_file = parse_file;
      tree = tree;
      include_tests = options.include_tests;
      embedding_client = options.embedding_client;
      repo_id = repo.id;
      head_sha = read_head_sha tree.git;
      now = now;
    }

    abbrev pub index_with :
        WorkTree → Options V → ℕ → Result Repo × Store V → Result IngestResult × Store V
    index_with tree options now (err e, s) = (err e, s)
    index_with tree options now (ok repo, s) =
        run_mode (run_of tree options now repo)
          (choose_mode options.force_full repo.head_sha (read_head_sha tree.git) tree.git) s

    unfoldable pub index_repository :
        String → WorkTree → Options V → ℕ → Exec (Store V) IngestResult
    index_repository name tree options now s =
        if tree.is_dir
        then index_with tree options now (
            get_or_create_repo uuid name tree.root_path options.github_full_name
              (text_or options.default_branch (discover_default_branch tree.git)) s)
        else (err value_error, s)
