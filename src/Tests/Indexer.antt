-- ===== src/Tests/Indexer.antt =====
-- Runs of the indexer on small trees.
use gita.Base.{
  All, ℕ, String, ◌≡◌, refl, subst, sym, ap, ◌∙◌, Bool, true, false, Bool-cases, inl, inr, Option,
  none, some, List, [], ◌∷◌, map, ◌==◌, eq_iff, arith, if◌then◌else◌, Result, ok, err,
  integrity_error, value_error,
}
use gita.Base.Text.{text_size, strip, splitlines, split_on, first, ends_with, decimal}
use gita.Indexer.Changes.{FileChange, plain_change, line_changes, status_of, slashes}
use gita.Indexer.Git.{Git, detect_changes, read_head_sha}
use gita.Indexer.Walker.{
  Entry, is_indexable, is_skipped, language_of, path_parts, path_name, path_suffix,
}
use gita.Indexer.Rows.{
  Repo, Structure, CodeIndex, ImportEdge, Store, insert_rows, repo_named, update_repo, row_at,
}
use gita.Indexer.Edges.{WorkTree, build_edges, file_edges}
use gita.Indexer.Embeddings.{
  attach_embeddings, prepare_embedding_input, embedding_inputs, assign_embeddings,
}
use gita.Indexer.Ingest.{
  IngestResult, count_lines, count_newlines, parse_and_build_row, drop_stale, note_change,
  index_changes, find_row, write_embeddings, store_pass, incremental_index,
}
use gita.Indexer.Snapshot.{
  view_of_language-none, Explains, view_found, expected, Reflects, IsDiff, IsListing, status_at,
}
use gita.Indexer.Snapshot.Clash.{incremental_index-clash}
use gita.Indexer.Ingest.Anchored.{IsSound}
use gita.Indexer.Ingest.Others.{AgreeElsewhere}
use gita.Indexer.Repository.Invariants.{index_repository-IsSound, index_repository-AgreeElsewhere}
use gita.Indexer.Repository.Again.{obtain, index_repository-again}
use gita.Indexer.Repository.Reflects.{IsTracked, index_repository-Reflects}
use gita.Indexer.Repository.{
  Options, refresh, is_claimed, get_or_create_repo, choose_mode, run_mode, run_of, index_repository,
}
use gita.Indexer.Changes.{parse_name_status}
use gita.Indexer.Changes.Paths.{IsNormal, parse_name_status-IsNormal}

parse_name_status-IsNormal_example :
    All IsNormal (parse_name_status "R100\told\\b.py\tnew\\b.py\nM\ta.py\n")
parse_name_status-IsNormal_example =
    parse_name_status-IsNormal "R100\told\\b.py\tnew\\b.py\nM\ta.py\n"

abbrev parse : String → String → String → Structure
parse path content language = record { functions = 1; classes = 0; imports = "import b" ∷ [] }

abbrev old_text : String → Option String
old_text path = if "a.py" == path then some "import b\n" else none

abbrev new_text : String → Option String
new_text path =
    if "a.py" == path then some "import b\n" else if "b.py" == path then some "x = 1" else none

abbrev git_at : String → Git
git_at sha args = elim args [
  | [] ↦ none
  | arg ∷ _ ↦
      if arg == "diff" then some "A\tb.py\n" else if arg == "rev-parse" then some sha else none
]

abbrev file_entry : String → ℕ → Entry
file_entry path size = record { relative = path; is_file = true; size = some size }

abbrev new_tree : WorkTree
new_tree = record {
  root_path = "/srv/app";
  is_dir = true;
  entries = file_entry "a.py" 9 ∷ file_entry "b.py" 5 ∷ [];
  read = new_text;
  resolve = λ raw src language. some (some "b.py");
  git = git_at "h2";
}

abbrev row_a : CodeIndex ℕ
row_a = record {
  repo_id = "r";
  file_path = "a.py";
  language = "python";
  content = some "import b\n";
  line_count = 1;
  indexed_at_sha = some "h1";
  structure = parse "a.py" "import b\n" "python";
  embedding = none;
}

abbrev app : Repo
app = record {
  id = "r";
  name = "app";
  github_full_name = none;
  root_path = "/srv/app";
  head_sha = some "h1";
  indexed_at = none;
  auto_test_generation = false;
  default_branch = "main";
}

abbrev edge_a : ImportEdge
edge_a = record {
  repo_id = "r";
  src_file = "a.py";
  dst_file = none;
  raw_import = "import b";
  language = "python";
}

abbrev before_run : Store ℕ
before_run = record {
  repos = app ∷ [];
  code_index = row_a ∷ [];
  import_edges = edge_a ∷ [];
  issued = 1;
}

abbrev one_each : List String → Result (List ℕ)
one_each inputs = ok (map (λ text. 1) inputs)

abbrev plain_options : Options ℕ
plain_options = record {
  include_tests = false;
  force_full = false;
  github_full_name = none;
  default_branch = some "main";
  embedding_client = some one_each;
}

run_outcome : Result IngestResult × Store ℕ
unfolding index_repository get_or_create_repo choose_mode run_mode incremental_index index_changes
    note_change drop_stale parse_and_build_row is_indexable is_skipped language_of path_parts
    path_name path_suffix store_pass insert_rows write_embeddings find_row attach_embeddings
    prepare_embedding_input embedding_inputs assign_embeddings text_size build_edges file_edges
    count_lines count_newlines detect_changes read_head_sha parse_name_status line_changes status_of
    slashes strip splitlines split_on first ends_with is_claimed refresh repo_named update_repo
    decimal
run_outcome = index_repository decimal parse "app" new_tree plain_options 7 before_run

run_paths : map (λ (r : CodeIndex ℕ). r.file_path) run_outcome.1.code_index ≡ "a.py" ∷ "b.py" ∷ []
unfolding run_outcome
run_paths = refl

new_tree-IsListing : IsListing new_text new_tree.entries
unfolding slashes
new_tree-IsListing = record {
  distinct = (refl, (refl, tt));
  plain = ((refl, inl (refl, refl)), ((refl, inl (refl, refl)), tt));
  complete = λ path. ground arith;
}

known_before : Reflects parse false old_text "r" before_run.code_index
unfolding is_indexable is_skipped language_of path_parts path_name path_suffix split_on ends_with
    count_lines count_newlines
known_before path = elim (Bool-cases ("a.py" == path)) [
  | inl same ↦
      subst (λ p. view_found (row_at "r" p before_run.code_index) ≡ expected parse false old_text p)
        ((eq_iff "a.py" path).0 same) refl
  | inr other ↦
      rw other
        (sym (view_of_language-none parse old_text path (is_indexable path false) (rw other refl)))
]

moved_on : IsDiff old_text new_text (plain_change "added" "b.py" ∷ [])
unfolding slashes strip status_at
moved_on = record {
  distinct = (refl, tt);
  explains = λ path. elim (Bool-cases ("b.py" == path)) [
    | inl same ↦
        subst
          (λ p. Explains (old_text p) (new_text p) (status_at p (plain_change "added" "b.py" ∷ [])))
          ((eq_iff "b.py" path).0 same) (inl (refl, refl))
    | inr other ↦ rw other refl
  ];
}

abbrev is_first : Option String → Bool
is_first none = false
is_first (some sha) = sha == "h1"

before_run-IsTracked : IsTracked parse plain_options new_tree old_text app before_run
unfolding detect_changes read_head_sha parse_name_status line_changes status_of slashes strip
    splitlines split_on first
before_run-IsTracked = record {
  known = λ sha stored. known_before;
  moved = λ sha changes stored printed.
      let same : some (plain_change "added" "b.py" ∷ []) ≡ some changes = printed in
      subst (IsDiff old_text new_text) (cc) moved_on;
  still = λ sha stored read. cc (ap is_first (stored ∙ sym read));
}

index_repository-Reflects_example :
    (result : IngestResult) × (s' : Store ℕ) × (run_outcome ≡ (ok result, s'))
    × Reflects parse false new_text "r" s'.code_index
unfolding run_outcome
index_repository-Reflects_example =
    index_repository-Reflects decimal parse new_tree plain_options 7 "app" before_run before_run app
      old_text refl
      (unfold get_or_create_repo in
        unfold refresh in unfold is_claimed in unfold repo_named in unfold update_repo in refl)
      new_tree-IsListing before_run-IsTracked (λ inputs. (map (λ text. 1) inputs, refl))

index_repository-IsSound_example : IsSound run_outcome.1
unfolding run_outcome
index_repository-IsSound_example =
    index_repository-IsSound decimal parse new_tree plain_options 7 "app" before_run (refl, tt)

-- A store with a file of another repository
abbrev shared : Store ℕ
shared = record before_run { code_index = record row_a { repo_id = "q" } ∷ row_a ∷ [] }

index_repository-AgreeElsewhere_example :
    AgreeElsewhere "r"
      (index_repository decimal parse "app" new_tree plain_options 7 shared).1
      shared
index_repository-AgreeElsewhere_example =
    index_repository-AgreeElsewhere decimal parse new_tree plain_options 7 "app" shared shared app (
      unfold get_or_create_repo in
      unfold refresh in unfold is_claimed in unfold repo_named in unfold update_repo in refl)

run_result : IngestResult
run_result = record {
  repo_id = "r";
  files_indexed = 1;
  functions_extracted = 1;
  classes_extracted = 0;
  edges_total = 1;
  edges_resolved = 1;
  head_sha = some "h2";
  mode = "incremental";
  files_deleted = 0;
  files_embedded = 1;
  added_files = "b.py" ∷ [];
}

-- The repository's row once more
obtained : Result Repo × Store ℕ
unfolding run_outcome get_or_create_repo refresh is_claimed repo_named update_repo
obtained = obtain decimal parse new_tree plain_options 8 "app" run_outcome.1

index_repository-again_example :
    (again : IngestResult) × (s3 : Store ℕ) × (index_repository decimal parse "app" new_tree
        plain_options 8 run_outcome.1
      ≡ (ok again, s3))
    × (again.mode ≡ "noop")
    × (s3.code_index ≡ run_outcome.1.code_index)
    × (s3.import_edges ≡ run_outcome.1.import_edges)
index_repository-again_example =
    index_repository-again decimal parse new_tree plain_options plain_options 7 8 "app" "h2"
      before_run run_outcome.1 (obtained.1) run_result
      (record app { head_sha = some "h2"; indexed_at = some 7 })
      (unfold read_head_sha in unfold strip in refl)
      (unfold run_outcome in unfold run_result in refl) refl
      (unfold obtained in unfold run_outcome in refl)

-- A client that raises ends the run, and leaves what was flushed before.
unreachable_run : Result IngestResult × Store ℕ
unfolding run_outcome
unreachable_run =
    index_repository decimal parse "app" new_tree
      (record plain_options { embedding_client = some (λ inputs. err value_error) }) 7 before_run

unreachable_run-raises : unreachable_run.0 ≡ err value_error
unfolding unreachable_run
unreachable_run-raises = refl

a_py : is_indexable "a.py" false ≡ some "python"
unfolding is_indexable is_skipped language_of path_parts path_name path_suffix split_on ends_with
a_py = refl

abbrev a_added : List FileChange
a_added = plain_change "added" "a.py" ∷ []

incremental_index-clash_example :
    (incremental_index (run_of decimal parse new_tree plain_options 7 app) a_added before_run).0
    ≡ err integrity_error
incremental_index-clash_example =
    incremental_index-clash (run_of decimal parse new_tree plain_options 7 app) a_added before_run
      "a.py" "python" "import b\n" row_a (unfold slashes in unfold strip in (refl, tt))
      (unfold slashes in unfold strip in unfold status_at in refl) a_py refl refl
