-- ===== src/Indexer/Ingest.antt =====
-- indexer/ingest.py: a run of the indexer over a working tree. A raised exception leaves the session
-- to the caller, who owns the transaction.
pub mod Keys
pub mod Embedded
pub mod Anchored
pub mod Others
use Prim.Native.Char.{code}
use gita.Base.{
  ℕ, ◌+◌, String, Bool, ◌&&◌, ◌||◌, Option, none, some, List, [], ◌∷◌, ◌++◌, ◌==◌, eqb, length,
  is_some, if◌then◌else◌, Result, ok, err,
}
use gita.Base.Text.{ends_with}
use gita.Base.Exec.{Exec}
use gita.Indexer.Changes.{FileChange}
use gita.Indexer.Walker.{DiscoveredFile, iter_files, max_file_size, is_indexable}
use gita.Indexer.Edges.{WorkTree, build_edges}
use gita.Indexer.Embeddings.{attach_embeddings}
use gita.Indexer.Rows.{
  Repo, Structure, CodeIndex, Store, clear_repo_rows, delete_file, insert_rows, update_repo,
}

pub record IngestResult : Type 0 where
  pub repo_id : String
  pub files_indexed : ℕ
  pub functions_extracted : ℕ
  pub classes_extracted : ℕ
  pub edges_total : ℕ
  pub edges_resolved : ℕ
  pub head_sha : Option String
  pub mode : String
  pub files_deleted : ℕ
  pub files_embedded : ℕ
  pub added_files : List String

-- What a loop over files has gathered: the rows, and the counts of the result.
pub record Pass (V : Type 0) : Type 0 where
  pub rows : List (CodeIndex V)
  pub functions : ℕ
  pub classes : ℕ
  pub deleted : ℕ
  pub added_files : List String

-- `content.count("\n")`
unfoldable pub count_newlines : String → ℕ
count_newlines String.[] = 0
count_newlines (String.◌∷◌ c s) =
    let rest = count_newlines s in if eqb (code c) b'\n' then rest + 1 else rest

unfoldable pub count_lines : String → ℕ
count_lines content = count_newlines content + (if ends_with content "\n" then 0 else 1)

module _ {V : Type 0} where
  abbrev pub empty_pass : Pass V
  empty_pass = record { rows = []; functions = 0; classes = 0; deleted = 0; added_files = [] }

  -- A file's row in front of what the loop gathers behind it
  abbrev pub note_row : Option (CodeIndex V) → List String → Pass V → Pass V
  note_row none added pass = pass
  note_row (some row) added pass = record {
    rows = row ∷ pass.rows;
    functions = row.structure.functions + pass.functions;
    classes = row.structure.classes + pass.classes;
    deleted = pass.deleted;
    added_files = added ++ pass.added_files;
  }

-- One run: the parsers, the tree, the options of `index_repository` that every mode reads, and the id
-- of the repository.
pub record Run (V : Type 0) : Type 0 where
  pub parse_file : String → String → String → Structure
  pub tree : WorkTree
  pub include_tests : Bool
  pub embedding_client : Option (List String → Result (List V))
  pub repo_id : String
  pub head_sha : Option String
  pub now : ℕ

module _ {V : Type 0} (run : Run V) where
  open run use {parse_file, tree, include_tests, embedding_client, repo_id, head_sha, now}

  abbrev pub build_row : String → String → Option String → Option (CodeIndex V)
  build_row path language none = none
  build_row path language (some content) = some (record {
    repo_id = repo_id;
    file_path = path;
    language = language;
    content = some content;
    line_count = count_lines content;
    indexed_at_sha = head_sha;
    structure = parse_file path content language;
    embedding = none;
  })

  unfoldable pub parse_and_build_row : String → String → Option (CodeIndex V)
  parse_and_build_row path language = build_row path language (tree.read path)

  unfoldable pub index_files : List DiscoveredFile → Pass V
  index_files [] = empty_pass
  index_files (file ∷ files) =
      note_row (parse_and_build_row file.relative_path file.language) [] (index_files files)

  -- The row of a changed path, where it has an indexable file
  abbrev pub row_of : String → Option String → Option (CodeIndex V)
  row_of path none = none
  row_of path (some language) = parse_and_build_row path language

  abbrev pub added_path : FileChange → List String
  added_path c = if c.status == "added" then c.relative_path ∷ [] else []

  -- The body of the loop over the changes: the statements that it executes ...
  unfoldable pub drop_stale : FileChange → Store V → Store V
  drop_stale c s =
      if c.status == "deleted"
        || (is_some (is_indexable c.relative_path include_tests) && c.status == "modified")
      then delete_file repo_id c.relative_path s
      else s

  -- ... and what it gathers.
  unfoldable pub note_change : FileChange → Pass V → Pass V
  note_change c pass =
      if c.status == "deleted"
      then record pass { deleted = pass.deleted + 1 }
      else note_row (row_of c.relative_path (is_indexable c.relative_path include_tests))
          (added_path c) pass

  unfoldable pub index_changes : List FileChange → Store V → Pass V × Store V
  index_changes [] s = (empty_pass, s)
  index_changes (c ∷ changes) s =
      let (pass, s') = index_changes changes (drop_stale c s) in (note_change c pass, s')

  -- The embedding of a row of the session, written by the last flush
  abbrev pub embedded_row : CodeIndex V → Option (CodeIndex V) → CodeIndex V
  embedded_row row none = row
  embedded_row row (some found) = record row { embedding = found.embedding }

  unfoldable pub find_row : String → List (CodeIndex V) → Option (CodeIndex V)
  find_row path [] = none
  find_row path (row ∷ rows) = if row.file_path == path then some row else find_row path rows

  unfoldable pub write_embeddings : List (CodeIndex V) → List (CodeIndex V) → List (CodeIndex V)
  write_embeddings rows [] = []
  write_embeddings rows (row ∷ table) =
      (if row.repo_id == repo_id then embedded_row row (find_row row.file_path rows) else row)
      ∷ write_embeddings rows table

  abbrev pub stamp : Repo → Repo
  stamp repo = record repo { head_sha = head_sha; indexed_at = some now }

  abbrev pub ingest_result : String → Pass V → ℕ → ℕ → ℕ → IngestResult
  ingest_result mode pass total resolved embedded = record {
    repo_id = repo_id;
    files_indexed = length pass.rows;
    functions_extracted = pass.functions;
    classes_extracted = pass.classes;
    edges_total = total;
    edges_resolved = resolved;
    head_sha = head_sha;
    mode = mode;
    files_deleted = pass.deleted;
    files_embedded = embedded;
    added_files = pass.added_files;
  }

  -- What follows the flush of the rows, from the answer of the embedding client on
  abbrev pub complete_pass :
      String
      → Pass V
      → Store V
      → List (CodeIndex V)
      → Result (List (CodeIndex V) × ℕ)
      → Result IngestResult × Store V
  complete_pass mode pass s table (err e) = (err e, record s { code_index = table })
  complete_pass mode pass s table (ok (rows, embedded)) =
      let (edges, resolved) = build_edges tree repo_id rows in
      (
        ok (ingest_result mode pass (length edges) resolved embedded),
        record s {
          code_index = write_embeddings rows table;
          import_edges = s.import_edges ++ edges;
          repos = update_repo repo_id stamp s.repos;
        },
      )

  abbrev pub finish :
      String → Pass V → Store V → Result (List (CodeIndex V)) → Result IngestResult × Store V
  finish mode pass s (err e) = (err e, s)
  finish mode pass s (ok table) =
      complete_pass mode pass s table (attach_embeddings pass.rows embedding_client)

  -- The end that both modes share: rows, embeddings, edges, and the repository's revision
  unfoldable pub store_pass : String → Pass V → Exec (Store V) IngestResult
  store_pass mode pass s = finish mode pass s (insert_rows pass.rows s.code_index)

  unfoldable pub full_index : Exec (Store V) IngestResult
  full_index s =
      store_pass "full" (index_files (iter_files tree.entries include_tests max_file_size))
        (clear_repo_rows repo_id s)

  unfoldable pub incremental_index : List FileChange → Exec (Store V) IngestResult
  incremental_index changes s =
      let (pass, s') = index_changes changes s in store_pass "incremental" pass s'
