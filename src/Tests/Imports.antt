-- ===== src/Tests/Imports.antt =====
-- Import statements against a small tree.
use gita.Base.{String, ◌≡◌, refl, Bool, true, false, ◌||◌, Option, none, some, List, [], ◌∷◌, ◌==◌}
use gita.Base.Text.{join, skip, split_on, starts_with, strip, text_size, first}
use gita.Indexer.Imports.{
  FileSystem, descend, before, rstrip_semicolons, leading_dots, quoted, specifier, is_below,
  first_of, find_parts, find_python_module_under, find_python_module_in_roots, resolve_module,
  resolve_part, resolve_python_from_import, resolve_python_plain_import, resolve_python_import,
  first_extended, first_index, resolve_target, resolve_specifier, resolve_ts_js_import,
  resolve_import,
}
use gita.Indexer.Imports.Found.{resolve_import-is_file}

abbrev is_one_of : String → List String → Bool
is_one_of path [] = false
is_one_of path (file ∷ files) = path == file || is_one_of path files

abbrev tree : FileSystem
tree = record {
  is_file = λ path. is_one_of (join "/" path) (
      "r/app/models.py" ∷ "r/src/app/models.py" ∷ "r/app/sub/__init__.py" ∷ "r/web/foo/index.ts"
      ∷ "r/web/bar.js" ∷ "r.ts" ∷ []);
  is_dir = λ path. join "/" path == "r/web/foo";
  resolve = λ path. path;
}

resolves : String → List String → String → Option (List String)
unfolding resolve_import resolve_python_import resolve_python_from_import
    resolve_python_plain_import resolve_part resolve_module find_python_module_in_roots
    find_python_module_under find_parts first_of descend before rstrip_semicolons leading_dots
    resolve_ts_js_import resolve_specifier specifier quoted is_below resolve_target first_extended
    first_index join skip split_on starts_with strip text_size first
resolves raw source language =
    resolve_import tree raw source ("r" ∷ []) language (some (("r" ∷ "src" ∷ []) ∷ ("r" ∷ []) ∷ []))

import_tests :
    (resolves "from app.models import User" ("r" ∷ "x.py" ∷ []) "python"
      ≡ some ("r" ∷ "src" ∷ "app" ∷ "models.py" ∷ []))
    × (resolves "import app.sub as s, os;" ("r" ∷ "x.py" ∷ []) "python"
        ≡ some ("r" ∷ "app" ∷ "sub" ∷ "__init__.py" ∷ []))
    × (resolves "from ..models import x" ("r" ∷ "app" ∷ "sub" ∷ "y.py" ∷ []) "python"
        ≡ some ("r" ∷ "app" ∷ "models.py" ∷ []))
    × (resolves "import os" ("r" ∷ "x.py" ∷ []) "python" ≡ none)
    × (resolves "import x from './foo'" ("r" ∷ "web" ∷ "m.ts" ∷ []) "typescript"
        ≡ some ("r" ∷ "web" ∷ "foo" ∷ "index.ts" ∷ []))
    × (resolves "import y from './bar'" ("r" ∷ "web" ∷ "m.ts" ∷ []) "javascript"
        ≡ some ("r" ∷ "web" ∷ "bar.js" ∷ []))
    × (resolves "import z from 'react'" ("r" ∷ "web" ∷ "m.ts" ∷ []) "javascript" ≡ none)
    × (resolves "import q from '/r'" ("r" ∷ "web" ∷ "m.ts" ∷ []) "typescript" ≡ some ("r.ts" ∷ []))
unfolding resolves
import_tests = (refl, refl, refl, refl, refl, refl, refl, refl)

resolve_import-is_file_example : tree.is_file ("r" ∷ "web" ∷ "bar.js" ∷ []) ≡ true
resolve_import-is_file_example =
    resolve_import-is_file tree "import y from './bar'" ("r" ∷ "web" ∷ "m.ts" ∷ []) ("r" ∷ [])
      "javascript" (some (("r" ∷ "src" ∷ []) ∷ ("r" ∷ []) ∷ [])) ("r" ∷ "web" ∷ "bar.js" ∷ [])
      (unfold resolves in refl)
