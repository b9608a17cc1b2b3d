-- ===== src/Indexer/Edges.antt =====
-- `_build_edges` of indexer/ingest.py, and the working tree that a run reads.
use gita.Base.{ℕ, ◌+◌, String, Bool, Option, none, some, List, [], ◌∷◌, ◌++◌, ◌==◌, if◌then◌else◌}
use gita.Indexer.Changes.{slashes}
use gita.Indexer.Git.{Git}
use gita.Indexer.Walker.{Entry}
use gita.Indexer.Rows.{CodeIndex, ImportEdge}

-- The checkout that a run reads. `read` is none where `read_text` raises; `resolve` takes an import's
-- text, the importing file and its language to the file that it names, whose path relative to the
-- root is none where it lies outside.
pub record WorkTree : Type 0 where
  pub root_path : String
  pub is_dir : Bool
  pub entries : List Entry
  pub read : String → Option String
  pub resolve : String → String → String → Option (Option String)
  pub git : Git

abbrev pub edge_of : String → String → String → String → Option String → ImportEdge
edge_of repo_id src language raw dst = record {
  repo_id = repo_id;
  src_file = src;
  dst_file = dst;
  raw_import = raw;
  language = language;
}

-- The edge of one import, and whether its target is in the repository
abbrev pub edge_to : String → String → String → String → Option (Option String) → ImportEdge × ℕ
edge_to repo_id src language raw resolved = elim resolved [
  | none ↦ (edge_of repo_id src language raw none, 0)
  | some none ↦ (edge_of repo_id src language raw none, 0)
  | some (some dst) ↦ (edge_of repo_id src language raw (some (slashes dst)), 1)
]

unfoldable pub file_edges : WorkTree → String → String → String → List String → List ImportEdge × ℕ
file_edges tree repo_id src language [] = ([], 0)
file_edges tree repo_id src language (raw ∷ imports) =
    let (edges, resolved) = file_edges tree repo_id src language imports in
    let (edge, here) = edge_to repo_id src language raw (tree.resolve raw src language) in
    if raw == "" then (edges, resolved) else (edge ∷ edges, here + resolved)

module _ {V : Type 0} where
  unfoldable pub build_edges : WorkTree → String → List (CodeIndex V) → List ImportEdge × ℕ
  build_edges tree repo_id [] = ([], 0)
  build_edges tree repo_id (row ∷ rows) =
      let (edges, resolved) =
        file_edges tree repo_id row.file_path row.language row.structure.imports in
      let (rest, more) = build_edges tree repo_id rows in (edges ++ rest, resolved + more)
