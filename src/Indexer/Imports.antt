-- ===== src/Indexer/Imports.antt =====
-- indexer/imports.py: which file an import statement names. A path is absolute, and stands as its parts.
pub mod Found
use Prim.Native.Char.{Char, code}
use gita.Base.{
  ℕ, zero, suc, ◌+◌, ◌-◌, String, ◌<>◌, Bool, true, false, not, ◌&&◌, ◌||◌, Option, none, some,
  List, [], ◌∷◌, ◌++◌, ◌==◌, eqb, if◌then◌else◌,
}
use gita.Base.Text.{skip, split_on, starts_with, strip, text_size}

-- The file system, as pathlib asks it: `resolve` follows links and `..`.
pub record FileSystem : Type 0 where
  pub is_file : List String → Bool
  pub is_dir : List String → Bool
  pub resolve : List String → List String

-- The parts of a text that pathlib keeps
abbrev proper_parts : List String → List String
proper_parts [] = []
proper_parts (s ∷ rest) =
    let kept = proper_parts rest in if s == "" || s == "." then kept else s ∷ kept

-- `path / text`
unfoldable pub descend : List String → String → List String
descend path text =
    let parts = proper_parts (split_on b'/' text) in
    if starts_with "/" text then parts else path ++ parts

-- `path.parent`
abbrev pub parent : List String → List String
parent [] = []
parent (s ∷ []) = []
parent (s ∷ t ∷ rest) = s ∷ parent (t ∷ rest)

abbrev ascend : ℕ → List String → List String
ascend zero path = path
ascend (suc n) path = ascend n (parent path)

-- `Path(str(path) + ext)`
abbrev pub extended : String → List String → List String
extended ext [] = ext ∷ []
extended ext (s ∷ []) = (s <> ext) ∷ []
extended ext (s ∷ t ∷ rest) = s ∷ extended ext (t ∷ rest)

abbrev prefixed : Char → Option String → Option String
prefixed c none = none
prefixed c (some t) = some (String.◌∷◌ c t)

-- `s.split(sep, 1)[0]` if `sep` occurs in `s`
unfoldable pub before : String → String → Option String
before sep String.[] = none
before sep (String.◌∷◌ c s) =
    let rest = prefixed c (before sep s) in
    if starts_with sep (String.◌∷◌ c s) then some "" else rest

abbrev before_or_all : String → String → String
before_or_all sep s = elim (before sep s) [ none ↦ s | some t ↦ t ]

-- `s.rstrip(";")`
unfoldable pub rstrip_semicolons : String → String
rstrip_semicolons String.[] = ""
rstrip_semicolons (String.◌∷◌ c s) =
    let rest = rstrip_semicolons s in
    if eqb (code c) b';' && rest == "" then "" else String.◌∷◌ c rest

-- The number of leading dots, and what follows them
unfoldable pub leading_dots : String → ℕ × String
leading_dots String.[] = (0, "")
leading_dots (String.◌∷◌ c s) =
    let (dots, remainder) = leading_dots s in
    if eqb (code c) b'.' then (suc dots, remainder) else (0, String.◌∷◌ c s)

abbrev is_quote : ℕ → Bool
is_quote n = eqb n b'"' || eqb n 39

-- The text up to the next quote, if there is one
unfoldable pub quoted : String → Option String
quoted String.[] = none
quoted (String.◌∷◌ c s) =
    let rest = prefixed c (quoted s) in if is_quote (code c) then some "" else rest

-- `_TSJS_SPEC_RE.search(raw)`
unfoldable pub specifier : String → Option String
specifier String.[] = none
specifier (String.◌∷◌ c s) =
    let later = specifier s in
    if is_quote (code c)
    then elim (quoted s) [ none ↦ later | some t ↦ (if t == "" then later else some t) ]
    else later

abbrev pub tsjs_ext_candidates : List String
tsjs_ext_candidates = ".ts" ∷ ".tsx" ∷ ".js" ∷ ".jsx" ∷ ".mjs" ∷ ".cjs" ∷ []

abbrev pub tsjs_index_names : List String
tsjs_index_names =
    "index.ts" ∷ "index.tsx" ∷ "index.js" ∷ "index.jsx" ∷ "index.mjs" ∷ "index.cjs" ∷ []

-- `path.relative_to(root)` does not raise.
unfoldable pub is_below : List String → List String → Bool
is_below [] path = true
is_below (s ∷ root) [] = false
is_below (s ∷ root) (t ∷ path) = s == t && is_below root path

abbrev pub roots_or : List String → Option (List (List String)) → List (List String)
roots_or repo_root none = repo_root ∷ []
roots_or repo_root (some package_roots) = package_roots

module _ (fs : FileSystem) where
  open fs use {is_file, is_dir, resolve}

  unfoldable pub first_of : Option (List String) → Option (List String) → Option (List String)
  first_of none next = next
  first_of (some path) next = some path

  abbrev pub if_file : List String → Option (List String)
  if_file path = if is_file path then some path else none

  -- The dotted parts of a module, below a directory
  unfoldable pub find_parts : List String → List String → Option (List String)
  find_parts [] target = none
  find_parts (last ∷ []) target =
      first_of (if_file (descend target (last <> ".py")))
        (if_file (descend (descend target last) "__init__.py"))
  find_parts (part ∷ next ∷ parts) target = find_parts (next ∷ parts) (descend target part)

  unfoldable pub find_python_module_under : String → List String → Option (List String)
  find_python_module_under mod_name base =
      if mod_name == ""
      then if_file (descend base "__init__.py")
      else find_parts (split_on b'.' mod_name) base

  unfoldable pub find_python_module_in_roots : String → List (List String) → Option (List String)
  find_python_module_in_roots mod_name [] = none
  find_python_module_in_roots mod_name (root ∷ roots) =
      first_of (find_python_module_under mod_name root) (find_python_module_in_roots mod_name roots)

  unfoldable pub resolve_module : String → List String → List (List String) → Option (List String)
  resolve_module module_part source_file package_roots =
      let (dots, remainder) = leading_dots module_part in
      if starts_with "." module_part
      then find_python_module_under remainder (ascend (dots - 1) (parent source_file))
      else find_python_module_in_roots module_part package_roots

  unfoldable pub resolve_part :
      Option String → List String → List (List String) → Option (List String)
  resolve_part none source_file package_roots = none
  resolve_part (some module_part) source_file package_roots =
      resolve_module (strip module_part) source_file package_roots

  unfoldable pub resolve_python_from_import :
      String → List String → List (List String) → Option (List String)
  resolve_python_from_import text source_file package_roots =
      resolve_part (before " import " (skip (text_size "from ") text)) source_file package_roots

  unfoldable pub resolve_python_plain_import : String → List (List String) → Option (List String)
  resolve_python_plain_import text package_roots =
      let body = strip (skip (text_size "import ") text) in
      let first = strip (before_or_all " as " (strip (before_or_all "," body))) in
      if first == "" then none else find_python_module_in_roots first package_roots

  unfoldable pub resolve_python_import :
      String → List String → List String → Option (List (List String)) → Option (List String)
  resolve_python_import raw source_file repo_root package_roots =
      let roots = roots_or repo_root package_roots in
      let text = rstrip_semicolons (strip raw) in
      if starts_with "from " text
      then resolve_python_from_import text source_file roots
      else if starts_with "import " text
      then resolve_python_plain_import text roots
      else none

  unfoldable pub first_extended : List String → List String → Option (List String)
  first_extended [] target = none
  first_extended (ext ∷ exts) target =
      first_of (if_file (extended ext target)) (first_extended exts target)

  unfoldable pub first_index : List String → List String → Option (List String)
  first_index [] target = none
  first_index (name ∷ names) target =
      first_of (if_file (descend target name)) (first_index names target)

  -- The three tries for a target inside the repository
  unfoldable pub resolve_target : List String → Option (List String)
  resolve_target target = first_of (if_file target) (
      first_of (first_extended tsjs_ext_candidates target)
        (if is_dir target then first_index tsjs_index_names target else none))

  unfoldable pub resolve_specifier :
      List String → List String → Option String → Option (List String)
  resolve_specifier source_file repo_root none = none
  resolve_specifier source_file repo_root (some spec) =
      let target = resolve (descend (parent source_file) spec) in
      if not (starts_with "." spec) && not (starts_with "/" spec)
      then none
      else if is_below (resolve repo_root) target
      then resolve_target target
      else none

  unfoldable pub resolve_ts_js_import : String → List String → List String → Option (List String)
  resolve_ts_js_import raw source_file repo_root =
      resolve_specifier source_file repo_root (specifier raw)

  unfoldable pub resolve_import :
      String
      → List String
      → List String
      → String
      → Option (List (List String))
      → Option (List String)
  resolve_import raw source_file repo_root language package_roots =
      if language == "python"
      then resolve_python_import raw source_file repo_root package_roots
      else if language == "typescript" || language == "javascript"
      then resolve_ts_js_import raw source_file repo_root
      else none
