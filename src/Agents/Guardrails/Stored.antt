-- ===== src/Agents/Guardrails/Stored.antt =====
-- Which rows the query finds.
use mathlib.Core.List.{Memᴰ}
use gita.Base.{
  String, ◌≡◌, sym, ap, ◌∙◌, true, ◌&&◌, Bool-cases, inl, inr, some, List, [], ◌∷◌, ◌==◌, eq_iff,
  arith, any, any-false, none,
}
use gita.Base.Tables.{lookup, insert, lookup-insert, lookup-insert_other}
use gita.Agents.Guardrails.{Finding, CodeIndex, rows_by_path}

-- A row of the table, of the repository and the path.
pub record IsStored (table : List CodeIndex) (repo_id path : String) (row : CodeIndex)
    : Type 0 where
  pub listed : Memᴰ row table
  pub of_repo : row.repo_id ≡ repo_id
  pub of_path : row.file_path ≡ path

tail-IsStored :
    (table : List CodeIndex) (repo_id path : String) (row top : CodeIndex)
    → IsStored table repo_id path row
    → IsStored (top ∷ table) repo_id path row
tail-IsStored table repo_id path row top h = record {
  listed = Memᴰ.tail h.listed;
  of_repo = h.of_repo;
  of_path = h.of_path;
}

top-IsStored :
    (table : List CodeIndex) (rest : List (String × CodeIndex)) (repo_id path : String)
    (row top : CodeIndex)
    → (top.repo_id == repo_id) ≡ true
    → (top.file_path == path) ≡ true
    → lookup path (insert top.file_path top rest) ≡ some row
    → IsStored (top ∷ table) repo_id path row
top-IsStored table rest repo_id path row top of_repo of_path found =
    let named = (eq_iff _ _).0 of_path in
    let first : some row ≡ some top =
      sym found ∙ (rw (← named) (lookup-insert top.file_path top rest)) in
    let same : row ≡ top = cc in
    record {
      listed = Memᴰ.head same;
      of_repo = ap (λ r. r.repo_id) same ∙ (eq_iff _ _).0 of_repo;
      of_path = ap (λ r. r.file_path) same ∙ named;
    }

pub rows_by_path-IsStored :
    (repo_id path : String) (findings : List Finding) (table : List CodeIndex) (row : CodeIndex)
    → lookup path (rows_by_path repo_id findings table) ≡ some row
    → IsStored table repo_id path row
unfolding rows_by_path lookup
rows_by_path-IsStored repo_id path findings [] row h = cc
rows_by_path-IsStored repo_id path findings (top ∷ table) row h =
    elim (Bool-cases (top.repo_id == repo_id && any (λ f. f.file == top.file_path) findings)) [
      | inl selected ↦
          let rest = rows_by_path repo_id findings table in
          let found : lookup path (insert top.file_path top rest) ≡ some row = rw selected at h in
          elim (Bool-cases (top.file_path == path)) [
            | inl same ↦ top-IsStored table rest repo_id path row top (ground arith) same found
            | inr differs ↦ tail-IsStored table repo_id path row top (
                rows_by_path-IsStored repo_id path findings table row
                  (sym (lookup-insert_other top.file_path path top rest differs) ∙ found))
          ]
      | inr other ↦
          tail-IsStored table repo_id path row top
            (rows_by_path-IsStored repo_id path findings table row (rw other at h))
    ]

in_rest :
    {table : List CodeIndex} {row top : CodeIndex}
    → Memᴰ row (top ∷ table)
    → (row ≡ top → ⊥)
    → Memᴰ row table
in_rest (Memᴰ.head e) differs = absurd (differs e)
in_rest (Memᴰ.tail m) differs = m

rest-IsStored :
    {table : List CodeIndex} {repo_id path : String} {row top : CodeIndex}
    → (row ≡ top → ⊥)
    → IsStored (top ∷ table) repo_id path row
    → IsStored table repo_id path row
rest-IsStored {table} {repo_id} {path} {row} {top} differs stored = record {
  listed = in_rest stored.listed differs;
  of_repo = stored.of_repo;
  of_path = stored.of_path;
}

listed_file :
    (findings : List Finding) (f : Finding) (path : String)
    → Memᴰ f findings
    → path ≡ f.file
    → any (λ g. g.file == path) findings ≡ true
listed_file findings f path m e = elim (Bool-cases (any (λ g. g.file == path) findings)) [
  | inl found ↦ found
  | inr absent ↦
      cc (any-false (λ g. g.file == path) findings absent f m, (eq_iff f.file path).1 (sym e))
]

-- The query misses no row of a path that a finding names.
pub IsStored-rows_by_path :
    (repo_id : String) (findings : List Finding) (f : Finding) (table : List CodeIndex)
    (row : CodeIndex)
    → Memᴰ f findings
    → IsStored table repo_id f.file row
    → lookup f.file (rows_by_path repo_id findings table) ≡ none
    → ⊥
unfolding rows_by_path lookup
IsStored-rows_by_path repo_id findings f [] row m stored h = elim stored.listed [ ]
IsStored-rows_by_path repo_id findings f (top ∷ table) row m stored h =
    elim (Bool-cases (top.repo_id == repo_id && any (λ g. g.file == top.file_path) findings)) [
      | inl selected ↦ elim (Bool-cases (top.file_path == f.file)) [
        | inl same ↦
            let named = (eq_iff _ _).0 same in
            let found : lookup f.file
                  (insert top.file_path top (rows_by_path repo_id findings table))
                ≡ some top =
              rw (← named)
                (lookup-insert top.file_path top (rows_by_path repo_id findings table)) in
            let gone : lookup f.file
                  (insert top.file_path top (rows_by_path repo_id findings table))
                ≡ none =
              rw selected at h in
            cc (found, gone)
        | inr differs ↦
            IsStored-rows_by_path repo_id findings f table row m
              (rest-IsStored
                (λ e. cc (
                  differs,
                  (eq_iff top.file_path f.file).1
                      (ap (λ (r : CodeIndex). r.file_path) (sym e) ∙ stored.of_path),
                ))
                stored)
              (sym (
                  lookup-insert_other top.file_path f.file top (rows_by_path repo_id findings table)
                    differs)
                ∙ (rw selected at h))
      ]
      | inr other ↦
          IsStored-rows_by_path repo_id findings f table row m
            (rest-IsStored
              (λ e. cc (
                other,
                (eq_iff top.repo_id repo_id).1
                    (ap (λ (r : CodeIndex). r.repo_id) (sym e) ∙ stored.of_repo),
                listed_file findings f top.file_path m
                    (ap (λ (r : CodeIndex). r.file_path) (sym e) ∙ stored.of_path),
              ))
              stored)
            (rw other at h)
    ]
