-- ===== src/Agents/Guardrails/Touched.antt =====
-- Which lines a diff touches.
use mathlib.Core.List.{Memᴰ}
use gita.Base.{
  ℕ, ◌≤◌, String, ◌≡◌, refl, true, ◌&&◌, Bool-cases, inl, inr, List, [], ◌∷◌, ◌==◌, eq_iff, arith,
  leb,
}
use gita.Base.Integers.{ℤ, pos, negsuc}
use gita.Agents.Guardrails.Diff.{ChangedLineRange, range_end, DiffHunk}
use gita.Agents.Guardrails.{in_ranges, line_in_diff_ranges}

-- A changed range of the diff of the file holds the line.
pub record IsTouched (hunks : List DiffHunk) (file : String) (line : ℤ) : Type 0 where
  pub number : ℕ
  pub natural : line ≡ pos number
  pub hunk : DiffHunk
  pub range : ChangedLineRange
  pub listed : Memᴰ hunk hunks
  pub of_file : hunk.file_path ≡ file
  pub changed : Memᴰ range hunk.changed_ranges
  pub from : range.start ≤ number
  pub upto : number ≤ range_end range

in_ranges-IsIn :
    (line : ℤ) (ranges : List ChangedLineRange)
    → in_ranges line ranges ≡ true
    → (n : ℕ) × (r : ChangedLineRange) × (line ≡ pos n)
      × Memᴰ r ranges
      × (r.start ≤ n)
      × (n ≤ range_end r)
unfolding in_ranges
in_ranges-IsIn line [] h = cc
in_ranges-IsIn (pos n) (r ∷ rest) h = elim (Bool-cases (leb r.start n && leb n (range_end r))) [
  | inl inside ↦ (n, r, refl, Memᴰ.head refl, ground arith, ground arith)
  | inr outside ↦
      let (k, q, e, m, low, high) = in_ranges-IsIn (pos n) rest (ground arith) in
      (k, q, e, Memᴰ.tail m, low, high)
]
in_ranges-IsIn (negsuc n) (r ∷ rest) h =
    let (k, q, e, m, low, high) = in_ranges-IsIn (negsuc n) rest h in
    (k, q, e, Memᴰ.tail m, low, high)

pub line_in_diff_ranges-IsTouched :
    (file : String) (line : ℤ) (hunks : List DiffHunk)
    → line_in_diff_ranges file line hunks ≡ true
    → IsTouched hunks file line
unfolding line_in_diff_ranges
line_in_diff_ranges-IsTouched file line [] h = cc
line_in_diff_ranges-IsTouched file line (hunk ∷ rest) h =
    elim (Bool-cases (hunk.file_path == file && in_ranges line hunk.changed_ranges)) [
      | inl inside ↦
          let (n, r, e, m, low, high) = in_ranges-IsIn line hunk.changed_ranges (ground arith) in
          record {
            number = n;
            natural = e;
            hunk = hunk;
            range = r;
            listed = Memᴰ.head refl;
            of_file = (eq_iff _ _).0 (ground arith);
            changed = m;
            from = low;
            upto = high;
          }
      | inr outside ↦
          let t = line_in_diff_ranges-IsTouched file line rest (ground arith) in
          record {
            number = t.number;
            natural = t.natural;
            hunk = t.hunk;
            range = t.range;
            listed = Memᴰ.tail t.listed;
            of_file = t.of_file;
            changed = t.changed;
            from = t.from;
            upto = t.upto;
          }
    ]
