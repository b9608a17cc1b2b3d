-- ===== src/Agents/Guardrails/Diff.antt =====
-- The changed line ranges of a diff: agents/pr_reviewer/diff_parser.py. The digits of a hunk header
-- are ASCII.
use Prim.Native.Char.{Char, code}
use gita.Base.{
  ℕ, ◌+◌, ◌-◌, ◌*◌, String, refl, ◌≡◌, Bool, ◌&&◌, Option, none, some, List, [], ◌∷◌, leb,
  if◌then◌else◌,
}
use gita.Base.Text.{starts_with, skip, text_size, first, split_on}

pub record ChangedLineRange : Type 0 where
  pub start : ℕ
  pub count : ℕ

-- `ChangedLineRange.end`: the last line, or the first one if there is none
abbrev pub range_end : ChangedLineRange → ℕ
range_end r = r.start + (r.count - 1)

pub record DiffHunk : Type 0 where
  pub file_path : String
  pub status : String
  pub additions : ℕ
  pub deletions : ℕ
  pub patch : Option String
  pub changed_ranges : List ChangedLineRange
  pub previous_filename : Option String

abbrev is_digit : Char → Bool
is_digit c = leb 48 (code c) && leb (code c) 57

-- `\d+`, read after `n`: the number and the rest of the text
more_digits : ℕ → String → ℕ × String
more_digits n String.[] = (n, "")
more_digits n (String.◌∷◌ c s) =
    let longer = more_digits (n * 10 + (code c - 48)) s in
    if is_digit c then longer else (n, String.◌∷◌ c s)

digits : String → Option (ℕ × String)
unfolding more_digits
digits String.[] = none
digits (String.◌∷◌ c s) = if is_digit c then some (more_digits 0 (String.◌∷◌ c s)) else none

-- A literal part of the pattern
literal : String → String → Option String
literal t s = if starts_with t s then some (skip (text_size t) s) else none

-- `(?:,(\d+))?`
count_from : Option (ℕ × String) → String → Option ℕ × String
count_from (some (n, rest)) s = (some n, rest)
count_from none s = (none, s)

then_digits : Option String → Option (ℕ × String)
unfolding digits
then_digits none = none
then_digits (some s) = digits s

comma_count : String → Option ℕ × String
unfolding literal then_digits count_from
comma_count s = count_from (then_digits (literal "," s)) s

then_literal : String → Option String → Option String
then_literal t none = none
then_literal t (some s) = literal t s

after_count : Option (ℕ × String) → Option String
unfolding comma_count
after_count none = none
after_count (some (n, s)) = some (comma_count s).1

default_one : Option ℕ → ℕ
default_one none = 1
default_one (some n) = n

closed : ℕ → Option ℕ → Option String → Option ChangedLineRange
closed n count none = none
closed n count (some rest) = some (record { start = n; count = default_one count })

new_side : Option (ℕ × String) → Option ChangedLineRange
unfolding comma_count literal default_one closed
new_side none = none
new_side (some (n, s)) = let (count, rest) = comma_count s in closed n count (literal " @@" rest)

-- One line against `^@@ -\d+(?:,\d+)? \+(\d+)(?:,(\d+))? @@`
unfoldable pub hunk_header : String → Option ChangedLineRange
unfolding literal then_digits after_count then_literal new_side
hunk_header line =
    new_side (then_digits (then_literal " +" (after_count (then_digits (literal "@@ -" line)))))

-- The matches on the lines of a patch, in order
headers : List String → List ChangedLineRange
headers [] = []
headers (line ∷ rest) = elim (hunk_header line) [
  | none ↦ headers rest
  | some range ↦ range ∷ headers rest
]

unfoldable pub extract_changed_ranges : Option String → List ChangedLineRange
unfolding headers
extract_changed_ranges none = []
extract_changed_ranges (some patch) = headers (split_on b'\n' patch)

diff_tests :
    extract_changed_ranges (some "@@ -1,4 +12,3 @@ def f\n+x\n@@ -30 +40 @@\n+@@ -1 +2 @@")
    ≡ record { start = 12; count = 3 } ∷ record { start = 40; count = 1 } ∷ []
unfolding extract_changed_ranges hunk_header starts_with skip text_size first split_on
diff_tests = refl
