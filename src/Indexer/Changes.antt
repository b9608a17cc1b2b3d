-- ===== src/Indexer/Changes.antt =====
-- `parse_name_status` of indexer/diff.py: what `git diff --name-status` says of the changed files.
pub mod Paths
use Prim.Native.Char.{code}
use gita.Base.{String, ◌≡◌, refl, Option, none, some, List, [], ◌∷◌, ◌++◌, ◌==◌, eqb, if◌then◌else◌}
use gita.Base.Text.{strip, splitlines, split_on, first}

pub record FileChange : Type 0 where
  pub relative_path : String
  pub status : String
  pub previous_path : Option String

-- `_STATUS_MAP.get(letter)`
unfoldable pub status_of : String → Option String
status_of letter =
    if letter == "A"
    then some "added"
    else if letter == "M"
    then some "modified"
    else if letter == "D"
    then some "deleted"
    else if letter == "R"
    then some "renamed"
    else if letter == "T"
    then some "modified"
    else if letter == "C"
    then some "added"
    else none

-- `path.replace("\\", "/")`
unfoldable pub slashes : String → String
slashes String.[] = ""
slashes (String.◌∷◌ c s) =
    let rest = slashes s in if eqb (code c) 92 then String.◌∷◌ "/" rest else String.◌∷◌ c rest

abbrev pub clean_path : String → String
clean_path s = slashes (strip s)

abbrev pub plain_change : String → String → FileChange
plain_change status path = record {
  relative_path = clean_path path;
  status = status;
  previous_path = none;
}

-- A rename is the deletion of the old path and the addition of the new one.
abbrev pub rename_changes : String → String → List FileChange
rename_changes old new =
    plain_change "deleted" old
    ∷ record {
      relative_path = clean_path new;
      status = "added";
      previous_path = some (clean_path old);
    }
    ∷ []

-- What the letter and the paths behind it say; the line has at least one path.
abbrev pub changes_of : String → String → String → List String → List FileChange
changes_of letter status path [] = plain_change status path ∷ []
changes_of letter status path (new ∷ rest) =
    if status == "renamed"
    then rename_changes path new
    else if letter == "C"
    then plain_change "added" new ∷ []
    else plain_change status path ∷ []

abbrev pub known_changes : Option String → String → String → List String → List FileChange
known_changes none letter path rest = []
known_changes (some status) letter path rest = changes_of letter status path rest

abbrev pub split_changes : List String → List FileChange
split_changes [] = []
split_changes (raw ∷ []) = []
split_changes (raw ∷ path ∷ rest) =
    let letter = first 1 (strip raw) in known_changes (status_of letter) letter path rest

unfoldable pub line_changes : String → List FileChange
line_changes line = if strip line == "" then [] else split_changes (split_on b'\t' line)

all_changes : List String → List FileChange
all_changes [] = []
all_changes (line ∷ rest) = line_changes line ++ all_changes rest

unfoldable pub parse_name_status : String → List FileChange
unfolding all_changes
parse_name_status output = all_changes (splitlines (strip output))

change_tests :
    parse_name_status "M\ta.py\nR100\told\\b.py\tnew/b.py\nX\tc.py\nC75\ta.py\td.py\n"
    ≡ plain_change "modified" "a.py"
      ∷ (rename_changes "old/b.py" "new/b.py" ++ plain_change "added" "d.py" ∷ [])
unfolding parse_name_status line_changes status_of slashes strip splitlines split_on first
change_tests = refl
