-- ===== src/Indexer/Imports/Found.antt =====
-- What an import resolves to.
use gita.Base.{
  String, ◌<>◌, ◌≡◌, subst, Bool, true, false, Bool-cases, inl, inr, Option, none, some, List, [],
  ◌∷◌, ◌==◌, if◌then◌else◌,
}
use gita.Base.Text.{split_on, strip, starts_with}
use gita.Indexer.Imports.{
  FileSystem, descend, extended, first_of, if_file, find_parts, find_python_module_under,
  find_python_module_in_roots, resolve_module, resolve_part, resolve_python_from_import,
  resolve_python_plain_import, resolve_python_import, first_extended, first_index, resolve_target,
  resolve_specifier, resolve_ts_js_import, resolve_import, tsjs_ext_candidates, tsjs_index_names,
  specifier,
}

module _ (fs : FileSystem) where
  open fs use {is_file, is_dir, resolve}

  -- What is found, if anything, is a file.
  unfoldable IsFound : Option (List String) → Type 0
  IsFound none = Unit
  IsFound (some path) = is_file path ≡ true

  IsFound-none : IsFound none
  unfolding IsFound
  IsFound-none = tt

  first_of-IsFound :
      (o o' : Option (List String)) → IsFound o → IsFound o' → IsFound (first_of fs o o')
  unfolding first_of IsFound
  first_of-IsFound none o' h h' = h'
  first_of-IsFound (some path) o' h h' = h

  if_file-IsFound : (path : List String) → IsFound (if_file fs path)
  unfolding IsFound
  if_file-IsFound path = elim (Bool-cases (is_file path)) [
    | inl there ↦ rw there there
    | inr absent ↦ rw absent tt
  ]

  IsFound-if :
      (b : Bool) (o o' : Option (List String))
      → IsFound o
      → IsFound o'
      → IsFound (if b then o else o')
  IsFound-if true o o' h h' = h
  IsFound-if false o o' h h' = h'

  find_parts-IsFound : (parts target : List String) → IsFound (find_parts fs parts target)
  unfolding find_parts
  find_parts-IsFound [] target = IsFound-none
  find_parts-IsFound (last ∷ []) target =
      first_of-IsFound _ _ (if_file-IsFound (descend target (last <> ".py")))
        (if_file-IsFound (descend (descend target last) "__init__.py"))
  find_parts-IsFound (part ∷ next ∷ parts) target =
      find_parts-IsFound (next ∷ parts) (descend target part)

  under-IsFound : (m : String) (base : List String) → IsFound (find_python_module_under fs m base)
  unfolding find_python_module_under
  under-IsFound m base =
      IsFound-if (m == "") _ _ (if_file-IsFound (descend base "__init__.py"))
        (find_parts-IsFound (split_on b'.' m) base)

  in_roots-IsFound :
      (m : String) (roots : List (List String)) → IsFound (find_python_module_in_roots fs m roots)
  unfolding find_python_module_in_roots
  in_roots-IsFound m [] = IsFound-none
  in_roots-IsFound m (root ∷ roots) =
      first_of-IsFound _ _ (under-IsFound m root) (in_roots-IsFound m roots)

  resolve_module-IsFound :
      (m : String) (source : List String) (roots : List (List String))
      → IsFound (resolve_module fs m source roots)
  unfolding resolve_module
  resolve_module-IsFound m source roots =
      IsFound-if (starts_with "." m) _ _ (under-IsFound _ _) (in_roots-IsFound m roots)

  resolve_part-IsFound :
      (part : Option String) (source : List String) (roots : List (List String))
      → IsFound (resolve_part fs part source roots)
  unfolding resolve_part
  resolve_part-IsFound none source roots = IsFound-none
  resolve_part-IsFound (some m) source roots = resolve_module-IsFound (strip m) source roots

  from_import-IsFound :
      (text : String) (source : List String) (roots : List (List String))
      → IsFound (resolve_python_from_import fs text source roots)
  unfolding resolve_python_from_import
  from_import-IsFound text source roots = resolve_part-IsFound _ source roots

  plain_import-IsFound :
      (text : String) (roots : List (List String))
      → IsFound (resolve_python_plain_import fs text roots)
  unfolding resolve_python_plain_import
  plain_import-IsFound text roots = IsFound-if _ _ _ IsFound-none (in_roots-IsFound _ roots)

  resolve_python_import-IsFound :
      (raw : String) (source root : List String) (roots : Option (List (List String)))
      → IsFound (resolve_python_import fs raw source root roots)
  unfolding resolve_python_import
  resolve_python_import-IsFound raw source root roots =
      IsFound-if _ _ _ (from_import-IsFound _ source _)
        (IsFound-if _ _ _ (plain_import-IsFound _ _) IsFound-none)

  first_extended-IsFound : (exts target : List String) → IsFound (first_extended fs exts target)
  unfolding first_extended
  first_extended-IsFound [] target = IsFound-none
  first_extended-IsFound (ext ∷ exts) target =
      first_of-IsFound _ _ (if_file-IsFound (extended ext target))
        (first_extended-IsFound exts target)

  first_index-IsFound : (names target : List String) → IsFound (first_index fs names target)
  unfolding first_index
  first_index-IsFound [] target = IsFound-none
  first_index-IsFound (name ∷ names) target =
      first_of-IsFound _ _ (if_file-IsFound (descend target name))
        (first_index-IsFound names target)

  resolve_target-IsFound : (target : List String) → IsFound (resolve_target fs target)
  unfolding resolve_target
  resolve_target-IsFound target = first_of-IsFound _ _ (if_file-IsFound target) (
      first_of-IsFound _ _ (first_extended-IsFound tsjs_ext_candidates target)
        (IsFound-if (is_dir target) _ _ (first_index-IsFound tsjs_index_names target) IsFound-none))

  resolve_specifier-IsFound :
      (source root : List String) (spec : Option String)
      → IsFound (resolve_specifier fs source root spec)
  unfolding resolve_specifier
  resolve_specifier-IsFound source root none = IsFound-none
  resolve_specifier-IsFound source root (some spec) =
      IsFound-if _ _ _ IsFound-none (IsFound-if _ _ _ (resolve_target-IsFound _) IsFound-none)

  resolve_import-IsFound :
      (raw : String) (source root : List String) (language : String)
      (roots : Option (List (List String)))
      → IsFound (resolve_import fs raw source root language roots)
  unfolding resolve_import resolve_ts_js_import
  resolve_import-IsFound raw source root language roots =
      IsFound-if (language == "python") _ _ (resolve_python_import-IsFound raw source root roots)
        (IsFound-if _ _ _ (resolve_specifier-IsFound source root (specifier raw)) IsFound-none)

  -- Whatever the language and the statement, an import that resolves to a path names a file that exists.
  pub resolve_import-is_file :
      (raw : String) (source root : List String) (language : String)
      (roots : Option (List (List String))) (path : List String)
      → resolve_import fs raw source root language roots ≡ some path
      → is_file path ≡ true
  unfolding IsFound
  resolve_import-is_file raw source root language roots path h =
      subst IsFound h (resolve_import-IsFound raw source root language roots)
