-- ===== src/Indexer/Walker.antt =====
-- indexer/walker.py: which files of a repository are source files. A path is its text below the root,
-- as `Path` prints it; what the file system says of the paths below the root is a list of entries.
use Prim.Native.Char.{code}
use gita.Base.{
  ℕ, String, Bool, not, ◌&&◌, ◌||◌, Option, none, some, List, [], ◌∷◌, ◌==◌, eqb, leb, any,
  if◌then◌else◌, ◌≡◌, refl, true, false,
}
use gita.Base.Text.{split_on, ends_with}
use gita.Indexer.Changes.{slashes}

abbrev pub language_by_ext : List (String × String)
language_by_ext =
    (".py", "python")
    ∷ (".ts", "typescript")
    ∷ (".js", "javascript")
    ∷ (".mjs", "javascript")
    ∷ (".cjs", "javascript")
    ∷ (".jsx", "javascript")
    ∷ []

abbrev pub skip_dirs : List String
skip_dirs =
    "node_modules" ∷ ".venv" ∷ "venv" ∷ "env" ∷ "__pycache__" ∷ ".git" ∷ ".hg" ∷ ".svn" ∷ "dist"
    ∷ "build" ∷ "out" ∷ "target" ∷ ".next" ∷ ".nuxt" ∷ ".cache" ∷ "coverage" ∷ ".coverage"
    ∷ ".pytest_cache" ∷ ".mypy_cache" ∷ ".ruff_cache" ∷ ".tox" ∷ "vendor" ∷ ".idea" ∷ ".vscode" ∷ []

abbrev pub test_dirs : List String
test_dirs = "tests" ∷ "test" ∷ "spec" ∷ "__tests__" ∷ []

abbrev pub skip_suffixes : List String
skip_suffixes =
    ".min.js" ∷ ".min.css" ∷ ".d.ts" ∷ ".pyi" ∷ "_pb2.py" ∷ "_pb2_grpc.py" ∷ ".lock" ∷ []

abbrev pub max_file_size : ℕ
max_file_size = 200000

-- `s in names`
abbrev pub member : String → List String → Bool
member s = any (λ name. name == s)

plain_parts : List String → List String
plain_parts [] = []
plain_parts (part ∷ rest) =
    let kept = plain_parts rest in if part == "" || part == "." then kept else part ∷ kept

-- `Path(s).parts` of a relative path
unfoldable pub path_parts : String → List String
unfolding plain_parts
path_parts s = plain_parts (split_on b'/' s)

last_or : String → List String → String
last_or name [] = name
last_or name (part ∷ rest) = last_or part rest

-- `Path(s).name`
unfoldable pub path_name : String → String
unfolding last_or
path_name s = last_or "" (path_parts s)

from_last_dot : String → Option String
from_last_dot String.[] = none
from_last_dot (String.◌∷◌ c s) = elim (from_last_dot s) [
  | some found ↦ some found
  | none ↦ if eqb (code c) b'.' then some (String.◌∷◌ c s) else none
]

-- The extension of a file name: a dot that the name starts or ends with opens none.
name_suffix : String → String
unfolding from_last_dot
name_suffix String.[] = ""
name_suffix (String.◌∷◌ c s) = elim (from_last_dot s) [
  | none ↦ ""
  | some found ↦ if found == "." then "" else found
]

-- `Path(s).suffix`
unfoldable pub path_suffix : String → String
unfolding name_suffix
path_suffix s = name_suffix (path_name s)

ext_language : List (String × String) → String → Option String
ext_language [] suffix = none
ext_language ((ext, language) ∷ rest) suffix =
    if ext == suffix then some language else ext_language rest suffix

-- `LANGUAGE_BY_EXT.get(path.suffix)`
unfoldable pub language_of : String → Option String
unfolding ext_language
language_of path = ext_language language_by_ext (path_suffix path)

unfoldable pub is_skipped : String → Bool → Bool
is_skipped path include_tests =
    any (λ part. member part skip_dirs || not include_tests && member part test_dirs)
      (path_parts path)
    || any (λ suffix. ends_with (path_name path) suffix) skip_suffixes

-- One path that `root.rglob("*")` yields. `size` is none where `stat` raises.
pub record Entry : Type 0 where
  pub relative : String
  pub is_file : Bool
  pub size : Option ℕ

pub record DiscoveredFile : Type 0 where
  pub relative_path : String
  pub language : String
  pub size : ℕ

abbrev pub sized : ℕ → String → String → Option ℕ → Option DiscoveredFile
sized limit relative language none = none
sized limit relative language (some n) =
    if leb n limit
    then some (record { relative_path = slashes relative; language = language; size = n })
    else none

abbrev pub of_language : Bool → ℕ → Entry → Option String → Option DiscoveredFile
of_language include_tests limit e none = none
of_language include_tests limit e (some language) =
    if is_skipped e.relative include_tests then none else sized limit e.relative language e.size

-- The body of the loop
unfoldable pub discover : Bool → ℕ → Entry → Option DiscoveredFile
discover include_tests limit e =
    if e.is_file then of_language include_tests limit e (language_of e.relative) else none

abbrev pub yielded : Option DiscoveredFile → List DiscoveredFile → List DiscoveredFile
yielded none files = files
yielded (some file) files = file ∷ files

unfoldable pub iter_files : List Entry → Bool → ℕ → List DiscoveredFile
iter_files [] include_tests limit = []
iter_files (e ∷ entries) include_tests limit =
    yielded (discover include_tests limit e) (iter_files entries include_tests limit)

-- `_is_indexable` of indexer/ingest.py
unfoldable pub is_indexable : String → Bool → Option String
is_indexable path include_tests = if is_skipped path include_tests then none else language_of path

walker_tests :
    (path_parts "./a//b.py" ≡ "a" ∷ "b.py" ∷ [])
    × (path_suffix "src/.env" ≡ "")
    × (is_indexable "src/app.test.ts" false ≡ some "typescript")
    × (is_indexable "tests/app.py" false ≡ none)
    × (is_indexable "tests/app.py" true ≡ some "python")
    × (is_indexable "lib/x_pb2.py" true ≡ none)
unfolding path_parts path_suffix is_indexable is_skipped language_of path_name split_on ends_with
walker_tests = (refl, refl, refl, refl, refl, refl)
