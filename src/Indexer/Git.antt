-- ===== src/Indexer/Git.antt =====
-- `detect_changes`, `read_head_sha` and `discover_default_branch` of indexer/diff.py. `git args` is
-- what the command prints when it ends with exit code 0 in time, and none where it fails.
use gita.Base.{String, not, ◌&&◌, Option, none, some, List, [], ◌∷◌, ◌==◌, if◌then◌else◌, ◌≡◌, refl}
use gita.Base.Text.{strip, splitlines, starts_with, skip}
use gita.Indexer.Changes.{FileChange, parse_name_status}
use Prim.Native.Char.{code}
use gita.Base.{eqb}

abbrev pub Git : Type 0
Git = List String → Option String

abbrev pub changes_printed : Option String → Option (List FileChange)
changes_printed none = none
changes_printed (some stdout) = some (parse_name_status stdout)

unfoldable pub detect_changes : Git → String → Option (List FileChange)
detect_changes git old_sha =
    changes_printed (git ("diff" ∷ "--name-status" ∷ old_sha ∷ "HEAD" ∷ []))

-- `value or None` of a text that a command printed
abbrev pub stripped : Option String → Option String
stripped none = none
stripped (some stdout) = if strip stdout == "" then none else some (strip stdout)

unfoldable pub read_head_sha : Git → Option String
read_head_sha git = stripped (git ("rev-parse" ∷ "HEAD" ∷ []))

-- What follows the first slash of a text, if it has one
behind_slash : String → Option String
behind_slash String.[] = none
behind_slash (String.◌∷◌ c s) =
    let rest = behind_slash s in if eqb (code c) b'/' then some s else rest

-- `value.split("/", 1)[1] if "/" in value else value`
unfoldable pub branch_name : String → String
unfolding behind_slash
branch_name value = elim (behind_slash value) [ none ↦ value | some name ↦ name ]

-- The branch that a line `HEAD branch: <name>` names
unfoldable pub branch_line : String → Option String
branch_line line =
    let candidate = strip (skip 12 (strip line)) in
    if starts_with "HEAD branch:" (strip line)
      && (not (candidate == "") && not (candidate == "(unknown)"))
    then some candidate
    else none

unfoldable pub named_branch : List String → String
named_branch [] = "main"
named_branch (line ∷ rest) = elim (branch_line line) [
  | some candidate ↦ candidate
  | none ↦ named_branch rest
]

abbrev pub shown_branch : Option String → String
shown_branch none = "main"
shown_branch (some stdout) = named_branch (splitlines stdout)

abbrev pub symbolic_branch : Git → Option String → String
symbolic_branch git (some value) = branch_name value
symbolic_branch git none = shown_branch (git ("remote" ∷ "show" ∷ "origin" ∷ []))

unfoldable pub discover_default_branch : Git → String
discover_default_branch git =
    symbolic_branch git
      (stripped (git ("symbolic-ref" ∷ "--short" ∷ "refs/remotes/origin/HEAD" ∷ [])))

abbrev remote_only : Git
remote_only args = elim args [
  | [] ↦ none
  | arg ∷ _ ↦
      if arg == "remote"
      then some "* remote origin\n  HEAD branch: trunk\n"
      else if arg == "rev-parse"
      then some "4f2\n"
      else none
]

git_tests :
    (discover_default_branch remote_only ≡ "trunk")
    × (branch_name "origin/release/2" ≡ "release/2")
    × (read_head_sha remote_only ≡ some "4f2")
    × (detect_changes remote_only "0" ≡ none)
unfolding discover_default_branch branch_name named_branch branch_line read_head_sha detect_changes
    strip splitlines starts_with skip
git_tests = (refl, refl, refl, refl)
