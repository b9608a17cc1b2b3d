-- ===== src/Indexer/Snapshot.antt =====
-- What the index of a repository stands for: each indexable file's language, content, number of lines
-- and structure. The embedding, the revision of the row and the order of the table are forgotten.
pub mod Gathered
pub mod Full
pub mod Statuses
pub mod Incremental
pub mod Clash
use gita.Base.{
  ℕ, String, ◌≡◌, refl, ◌⊎◌, Bool, true, false, Option, none, some, List, [], ◌∷◌, ◌==◌, leb, any,
  All, if◌then◌else◌,
}
use gita.Indexer.Changes.{FileChange, slashes}
use gita.Indexer.Walker.{Entry, is_indexable, max_file_size}
use gita.Indexer.Rows.{Structure, CodeIndex, row_at}
use gita.Indexer.Ingest.{count_lines}

pub record FileView : Type 0 where
  pub language : String
  pub content : Option String
  pub line_count : ℕ
  pub structure : Structure

module _ (parse_file : String → String → String → Structure) where
  abbrev pub read_view : String → String → Option String → Option FileView
  read_view path language none = none
  read_view path language (some content) = some (record {
    language = language;
    content = some content;
    line_count = count_lines content;
    structure = parse_file path content language;
  })

  abbrev pub view_of_language : (String → Option String) → String → Option String → Option FileView
  view_of_language read path none = none
  view_of_language read path (some language) = read_view path language (read path)

  -- What the index of a tree should say of a path
  abbrev pub expected : Bool → (String → Option String) → String → Option FileView
  expected include_tests read path = view_of_language read path (is_indexable path include_tests)

  pub view_of_language-none :
      (read : String → Option String) (path : String) (language : Option String)
      → read path ≡ none
      → view_of_language read path language ≡ none
  view_of_language-none read path none h = refl
  view_of_language-none read path (some language) h = rw h refl

  pub view_of_language-eq :
      (before after : String → Option String) (path : String) (language : Option String)
      → after path ≡ before path
      → view_of_language before path language ≡ view_of_language after path language
  view_of_language-eq before after path none h = refl
  view_of_language-eq before after path (some language) h = rw h refl

module _ {V : Type 0} where
  abbrev pub view : CodeIndex V → FileView
  view row = record {
    language = row.language;
    content = row.content;
    line_count = row.line_count;
    structure = row.structure;
  }

  abbrev pub view_found : Option (CodeIndex V) → Option FileView
  view_found none = none
  view_found (some row) = some (view row)

  -- The table's rows of the repository say what the index of the tree should say.
  abbrev pub Reflects :
      (String → String → String → Structure)
      → Bool
      → (String → Option String)
      → String
      → List (CodeIndex V)
      → Type 0
  Reflects parse_file include_tests read repo_id table =
      (path : String)
      → view_found (row_at repo_id path table) ≡ expected parse_file include_tests read path

abbrev pub Distinct : List String → Type 0
Distinct [] = Unit
Distinct (p ∷ ps) = (any (λ q. q == p) ps ≡ false) × Distinct ps

abbrev pub change_paths : List FileChange → List String
change_paths [] = []
change_paths (c ∷ changes) = c.relative_path ∷ change_paths changes

unfoldable pub status_at : String → List FileChange → Option String
status_at path [] = none
status_at path (c ∷ changes) =
    if c.relative_path == path then some c.status else status_at path changes

-- What a status says of a path's content before and after
abbrev pub Explains : Option String → Option String → Option String → Type 0
Explains before after none = after ≡ before
Explains before after (some status) =
    (status ≡ "added") × (before ≡ none)
    ⊎ (status ≡ "deleted") × (after ≡ none)
    ⊎ (status ≡ "modified")

-- The changes lead from the one tree's contents to the other's.
pub record IsDiff (before after : String → Option String) (changes : List FileChange) : Type 0 where
  pub distinct : Distinct (change_paths changes)
  pub explains : (path : String) → Explains (before path) (after path) (status_at path changes)

abbrev pub entry_paths : List Entry → List String
entry_paths [] = []
entry_paths (e ∷ entries) = e.relative ∷ entry_paths entries

abbrev pub Fits : Option ℕ → Type 0
Fits none = ⊥
Fits (some n) = leb n max_file_size ≡ true

-- A path with forward slashes, which is a file within the size limit or cannot be read
abbrev pub IsPlain : (String → Option String) → Entry → Type 0
IsPlain read e =
    (slashes e.relative ≡ e.relative)
    × ((e.is_file ≡ true) × Fits e.size ⊎ (read e.relative ≡ none))

-- The entries list the readable files.
pub record IsListing (read : String → Option String) (entries : List Entry) : Type 0 where
  pub distinct : Distinct (entry_paths entries)
  pub plain : All (IsPlain read) entries
  pub complete :
      (path : String) → (any (λ q. q == path) (entry_paths entries) ≡ true) ⊎ (read path ≡ none)
