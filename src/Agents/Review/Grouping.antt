-- ===== src/Agents/Review/Grouping.antt =====
-- The findings of a review by the file they are in.
use mathlib.Core.List.{Memᴰ}
use gita.Base.Text.{join}
use gita.Base.{
  map, is_empty, eq_refl, ap, ap₂, subst, refl, sym, ◌≡◌, eq_iff, String, All, ◌∙◌, Bool-cases, inl,
  inr, false, List, [], ◌∷◌, ◌++◌, append-nil, append_assoc, ◌==◌, arith, if◌then◌else◌,
}
use gita.Agents.Guardrails.{Finding}
use gita.Platform.{Platform}
use gita.Agents.Review.{
  review_cards, file_head, findings_block, findings_section, framed, PrReviewResult, review_head,
  review_foot, render_review_body, Groups, add_finding, add_findings, by_file,
}

-- The group of a file; no findings where it has none
abbrev pub group_of : String → Groups → List Finding
group_of file [] = []
group_of file ((path, findings) ∷ groups) = if path == file then findings else group_of file groups

-- The findings in one file, in their order
abbrev pub only_in : String → List Finding → List Finding
only_in file [] = []
only_in file (f ∷ findings) =
    let rest = only_in file findings in if f.file == file then f ∷ rest else rest

-- Each file has one group.
abbrev pub IsOnce : Groups → Type 0
IsOnce [] = Unit
IsOnce ((path, findings) ∷ groups) =
    All (λ (group : String × List Finding). (path == group.0) ≡ false) groups × IsOnce groups

group_of-add_finding :
    (file : String) (f : Finding) (groups : Groups)
    → group_of file (add_finding f groups)
      ≡ (if f.file == file then group_of file groups ++ f ∷ [] else group_of file groups)
unfolding add_finding
group_of-add_finding file f [] = refl
group_of-add_finding file f ((path, findings) ∷ groups) = ground (
  arith,
  group_of-add_finding file f groups,
  eq_iff path f.file,
  eq_iff path file,
  eq_iff f.file file,
)

group_of-add_findings :
    (file : String) (groups : Groups) (findings : List Finding)
    → group_of file (add_findings groups findings) ≡ group_of file groups ++ only_in file findings
unfolding add_findings
group_of-add_findings file groups [] = sym (append-nil (group_of file groups))
group_of-add_findings file groups (f ∷ findings) =
    let rest = group_of-add_findings file (add_finding f groups) findings in
    let step = group_of-add_finding file f groups in
    elim (Bool-cases (f.file == file)) [
      | inl here ↦
          (rest
            ∙ (rw (step, here)
                (append_assoc (group_of file groups) (f ∷ []) (only_in file findings))))
      | inr elsewhere ↦ rest ∙ (rw (step, elsewhere) refl)
    ]

add_finding-Apart :
    (path : String) (f : Finding) (groups : Groups)
    → (path == f.file) ≡ false
    → All (λ (group : String × List Finding). (path == group.0) ≡ false) groups
    → All (λ (group : String × List Finding). (path == group.0) ≡ false) (add_finding f groups)
unfolding add_finding
add_finding-Apart path f [] h apart = (h, tt)
add_finding-Apart path f ((other, findings) ∷ groups) h (k, apart) =
    elim (Bool-cases (other == f.file)) [
      | inl here ↦ rw here (k, apart)
      | inr elsewhere ↦ rw elsewhere (k, add_finding-Apart path f groups h apart)
    ]

add_finding-IsOnce : (f : Finding) (groups : Groups) → IsOnce groups → IsOnce (add_finding f groups)
unfolding add_finding
add_finding-IsOnce f [] once = (tt, tt)
add_finding-IsOnce f ((path, findings) ∷ groups) (apart, once) =
    elim (Bool-cases (path == f.file)) [
      | inl here ↦ rw here (apart, once)
      | inr elsewhere ↦
          rw elsewhere
            (add_finding-Apart path f groups elsewhere apart, add_finding-IsOnce f groups once)
    ]

add_findings-IsOnce :
    (groups : Groups) (findings : List Finding)
    → IsOnce groups
    → IsOnce (add_findings groups findings)
unfolding add_findings
add_findings-IsOnce groups [] once = once
add_findings-IsOnce groups (f ∷ findings) once =
    add_findings-IsOnce (add_finding f groups) findings (add_finding-IsOnce f groups once)

-- No name twice
abbrev pub IsDistinct : List String → Type 0
IsDistinct [] = Unit
IsDistinct (name ∷ names) = All (λ other. (name == other) ≡ false) names × IsDistinct names

-- The part of each file: its heading, and the cards of the findings in it
abbrev pub parts : List String → List Finding → List String
parts [] findings = []
parts (file ∷ files) findings =
    file_head file ++ (review_cards (only_in file findings) ++ parts files findings)

abbrev paths : Groups → List String
paths = map (λ group. group.0)

All-paths :
    (P : String → Type 0) (groups : Groups)
    → All (λ (group : String × List Finding). P group.0) groups
    → All P (paths groups)
All-paths P [] h = tt
All-paths P (group ∷ groups) (h, hs) = (h, All-paths P groups hs)

IsOnce-IsDistinct : (groups : Groups) → IsOnce groups → IsDistinct (paths groups)
IsOnce-IsDistinct [] once = tt
IsOnce-IsDistinct ((path, findings) ∷ groups) (apart, once) =
    (All-paths (λ other. (path == other) ≡ false) groups apart, IsOnce-IsDistinct groups once)

All-listed :
    (P : String → Type 0) (names : List String) (name : String)
    → All P names
    → Memᴰ name names
    → P name
All-listed P [] name h m = elim m [ ]
All-listed P (other ∷ names) name (h, hs) (Memᴰ.head e) = subst P (sym e) h
All-listed P (other ∷ names) name (h, hs) (Memᴰ.tail m) = All-listed P names name hs m

findings_block-parts :
    (groups : Groups) (findings : List Finding)
    → IsDistinct (paths groups)
    → ((file : String) → Memᴰ file (paths groups) → group_of file groups ≡ only_in file findings)
    → findings_block groups ≡ parts (paths groups) findings
findings_block-parts [] findings distinct same = refl
findings_block-parts ((path, found) ∷ groups) findings (apart, distinct) same =
    let first = same path (Memᴰ.head refl) in
    let own : found ≡ only_in path findings = rw (eq_refl path) at first in
    let rest : findings_block groups ≡ parts (paths groups) findings =
      findings_block-parts groups findings distinct (λ file m.
        let other = All-listed (λ name. (path == name) ≡ false) (paths groups) file apart m in
        let found_in = same file (Memᴰ.tail m) in rw other at found_in) in
    ap₂ (λ cards lines. file_head path ++ (review_cards cards ++ lines)) own rest

only_in_listed :
    (f : Finding) (findings : List Finding)
    → Memᴰ f findings
    → is_empty (only_in f.file findings) ≡ false
only_in_listed f [] m = elim m [ ]
only_in_listed f (g ∷ findings) (Memᴰ.head e) = rw (← e) (rw (eq_refl f.file) refl)
only_in_listed f (g ∷ findings) (Memᴰ.tail m) = elim (Bool-cases (g.file == f.file)) [
  | inl here ↦ rw here refl
  | inr elsewhere ↦ rw elsewhere (only_in_listed f findings m)
]

listed_path :
    (file : String) (groups : Groups)
    → is_empty (group_of file groups) ≡ false
    → Memᴰ file (paths groups)
listed_path file [] h = cc
listed_path file ((path, found) ∷ groups) h = elim (Bool-cases (path == file)) [
  | inl here ↦ Memᴰ.head (sym ((eq_iff path file).0 here))
  | inr elsewhere ↦ Memᴰ.tail (listed_path file groups (rw elsewhere at h))
]

section_parts :
    (findings : List Finding)
    → is_empty findings ≡ false
    → findings_section findings ≡ framed findings (parts (paths (by_file findings)) findings)
unfolding by_file
section_parts [] h = cc
section_parts (f ∷ fs) h = ap (framed (f ∷ fs)) (
    findings_block-parts (by_file (f ∷ fs)) (f ∷ fs)
      (IsOnce-IsDistinct (by_file (f ∷ fs)) (add_findings-IsOnce [] (f ∷ fs) tt))
      (λ file m. group_of-add_findings file [] (f ∷ fs)))

-- The comment on a pull request with findings has, between its head and its foot, a part for each file
-- that a finding is in, for none of them twice, and in it a card for each finding in that file, in
-- the order of the findings.
pub render_review_body-parts :
    (p : Platform) (r : PrReviewResult p)
    → is_empty r.findings ≡ false
    → (files : List String) × IsDistinct files
      × ((f : Finding) → Memᴰ f r.findings → Memᴰ f.file files)
      × (render_review_body p r
          ≡ join "\n"
              (review_head p r ++ (framed r.findings (parts files r.findings) ++ review_foot p r)))
unfolding render_review_body by_file
render_review_body-parts p r h = (
  paths (by_file r.findings),
  IsOnce-IsDistinct (by_file r.findings) (add_findings-IsOnce [] r.findings tt),
  λ f m.
      listed_path f.file (by_file r.findings)
        (ap is_empty (group_of-add_findings f.file [] r.findings) ∙ only_in_listed f r.findings m),
  rw (section_parts r.findings h) refl,
)
