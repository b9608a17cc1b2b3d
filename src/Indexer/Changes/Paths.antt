-- ===== src/Indexer/Changes/Paths.antt =====
-- What every parsed change is like.
use Prim.Native.Char.{code}
use gita.Base.{
  String, ◌≡◌, refl, Bool, false, ◌||◌, Bool-cases, inl, inr, Option, none, some, List, [], ◌∷◌,
  ◌==◌, eqb, All, All-append,
}
use gita.Base.Text.{strip, splitlines, split_on, first}
use gita.Indexer.Changes.{
  FileChange, status_of, slashes, clean_path, plain_change, changes_of, known_changes,
  split_changes, line_changes, all_changes, parse_name_status,
}

-- `"\\" in s`
unfoldable pub has_backslash : String → Bool
has_backslash String.[] = false
has_backslash (String.◌∷◌ c s) = eqb (code c) 92 || has_backslash s

slashes_lem : (s : String) → has_backslash (slashes s) ≡ false
unfolding slashes has_backslash
slashes_lem String.[] = refl
slashes_lem (String.◌∷◌ c s) = elim (Bool-cases (eqb (code c) 92)) [
  | inl back ↦ rw back (slashes_lem s)
  | inr other ↦ rw (other, other) (slashes_lem s)
]

-- The paths of a change are written with forward slashes.
pub record IsNormal (change : FileChange) : Type 0 where
  pub path : has_backslash change.relative_path ≡ false
  pub previous : (old : String) → change.previous_path ≡ some old → has_backslash old ≡ false

plain_change-IsNormal : (status path : String) → IsNormal (plain_change status path)
plain_change-IsNormal status path = record {
  path = slashes_lem (strip path);
  previous = λ old h. cc;
}

added-IsNormal :
    (old new : String)
    → IsNormal (record {
      relative_path = clean_path new;
      status = "added";
      previous_path = some (clean_path old);
    })
added-IsNormal old new = record {
  path = slashes_lem (strip new);
  previous = λ o h. cc (slashes_lem (strip old));
}

changes_of-IsNormal :
    (letter status path : String) (rest : List String)
    → All IsNormal (changes_of letter status path rest)
changes_of-IsNormal letter status path [] = (plain_change-IsNormal status path, tt)
changes_of-IsNormal letter status path (new ∷ rest) = elim (Bool-cases (status == "renamed")) [
  | inl renamed ↦ rw renamed (plain_change-IsNormal "deleted" path, (added-IsNormal path new, tt))
  | inr other ↦ elim (Bool-cases (letter == "C")) [
    | inl copied ↦ rw (other, copied) (plain_change-IsNormal "added" new, tt)
    | inr plain ↦ rw (other, plain) (plain_change-IsNormal status path, tt)
  ]
]

known_changes-IsNormal :
    (found : Option String) (letter path : String) (rest : List String)
    → All IsNormal (known_changes found letter path rest)
known_changes-IsNormal none letter path rest = tt
known_changes-IsNormal (some status) letter path rest = changes_of-IsNormal letter status path rest

split_changes-IsNormal : (parts : List String) → All IsNormal (split_changes parts)
split_changes-IsNormal [] = tt
split_changes-IsNormal (raw ∷ []) = tt
split_changes-IsNormal (raw ∷ path ∷ rest) =
    known_changes-IsNormal (status_of (first 1 (strip raw))) (first 1 (strip raw)) path rest

line_changes-IsNormal : (line : String) → All IsNormal (line_changes line)
unfolding line_changes
line_changes-IsNormal line = elim (Bool-cases (strip line == "")) [
  | inl blank ↦ rw blank tt
  | inr written ↦ rw written (split_changes-IsNormal (split_on b'\t' line))
]

all_changes-IsNormal : (lines : List String) → All IsNormal (all_changes lines)
unfolding all_changes
all_changes-IsNormal [] = tt
all_changes-IsNormal (line ∷ rest) =
    All-append IsNormal (line_changes line) (all_changes rest) (line_changes-IsNormal line)
      (all_changes-IsNormal rest)

-- Whatever git prints, each path of each parsed change, the old one of a rename included, is written
-- with forward slashes only.
pub parse_name_status-IsNormal : (output : String) → All IsNormal (parse_name_status output)
unfolding parse_name_status
parse_name_status-IsNormal output = all_changes-IsNormal (splitlines (strip output))
