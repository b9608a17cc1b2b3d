-- ===== src/Indexer/Rows.antt =====
-- The tables `repos`, `code_index` and `import_edges` of db/models.py as one session sees them, and
-- the statements of indexer/ingest.py on them. `Vector` is the type of an embedding.
pub mod Laws
use gita.Base.{
  ℕ, String, Bool, ◌&&◌, Option, none, some, List, [], ◌∷◌, ◌++◌, ◌==◌, any, if◌then◌else◌,
  integrity_error, Result, ok, err,
}

pub record Repo : Type 0 where
  pub id : String
  pub name : String
  pub github_full_name : Option String
  pub root_path : String
  pub head_sha : Option String
  pub indexed_at : Option ℕ
  pub auto_test_generation : Bool
  pub default_branch : String

-- What the parsers found in a file: how many functions and classes, and the texts of the imports.
pub record Structure : Type 0 where
  pub functions : ℕ
  pub classes : ℕ
  pub imports : List String

pub record CodeIndex (Vector : Type 0) : Type 0 where
  pub repo_id : String
  pub file_path : String
  pub language : String
  pub content : Option String
  pub line_count : ℕ
  pub indexed_at_sha : Option String
  pub structure : Structure
  pub embedding : Option Vector

pub record ImportEdge : Type 0 where
  pub repo_id : String
  pub src_file : String
  pub dst_file : Option String
  pub raw_import : String
  pub language : String

-- `issued` counts the row ids that were handed out.
pub record Store (Vector : Type 0) : Type 0 where
  pub repos : List Repo
  pub code_index : List (CodeIndex Vector)
  pub import_edges : List ImportEdge
  pub issued : ℕ

-- What `DELETE ... WHERE test` leaves
unfoldable pub delete {ℓ} : {A : Type ℓ} → (A → Bool) → List A → List A
delete test [] = []
delete test (x ∷ xs) = let rest = delete test xs in if test x then rest else x ∷ rest

abbrev pub of_repo : {V : Type 0} → String → CodeIndex V → Bool
of_repo repo_id row = row.repo_id == repo_id

abbrev pub of_file : {V : Type 0} → String → String → CodeIndex V → Bool
of_file repo_id path row = row.repo_id == repo_id && row.file_path == path

abbrev pub edge_of_repo : String → ImportEdge → Bool
edge_of_repo repo_id edge = edge.repo_id == repo_id

abbrev pub edge_of_file : String → String → ImportEdge → Bool
edge_of_file repo_id path edge = edge.repo_id == repo_id && edge.src_file == path

module _ {V : Type 0} where
  unfoldable pub clear_repo_rows : String → Store V → Store V
  clear_repo_rows repo_id s = record s {
    import_edges = delete (edge_of_repo repo_id) s.import_edges;
    code_index = delete (of_repo repo_id) s.code_index;
  }

  -- The two statements that remove a file and its outgoing edges
  unfoldable pub delete_file : String → String → Store V → Store V
  delete_file repo_id path s = record s {
    import_edges = delete (edge_of_file repo_id path) s.import_edges;
    code_index = delete (of_file repo_id path) s.code_index;
  }

  -- `session.add_all(rows)` and `session.flush()`: the constraint `uq_code_index_repo_file` refuses a
  -- second row of a file.
  unfoldable pub insert_rows : List (CodeIndex V) → List (CodeIndex V) → Result (List (CodeIndex V))
  insert_rows [] table = ok table
  insert_rows (row ∷ rows) table =
      let longer = insert_rows rows (table ++ row ∷ []) in
      if any (of_file row.repo_id row.file_path) table then err integrity_error else longer

  abbrev pub row_at : String → String → List (CodeIndex V) → Option (CodeIndex V)
  row_at repo_id path [] = none
  row_at repo_id path (row ∷ table) =
      if of_file repo_id path row then some row else row_at repo_id path table

-- Assignments to the fields of the repository with the id
unfoldable pub update_repo : String → (Repo → Repo) → List Repo → List Repo
update_repo id change [] = []
update_repo id change (repo ∷ repos) =
    (if repo.id == id then change repo else repo) ∷ update_repo id change repos

-- `select(Repo).where(Repo.name == name)`
unfoldable pub repo_named : String → List Repo → Option Repo
repo_named name [] = none
repo_named name (repo ∷ repos) = if repo.name == name then some repo else repo_named name repos
