-- ===== src/Indexer/Rows/Laws.antt =====
-- What a query for the row of a file finds after the statements of the indexer.
use gita.Base.{
  String, ◌≡◌, refl, ap, ◌∙◌, Bool-cases, inl, inr, Option, none, some, List, [], ◌∷◌, ◌++◌, ◌==◌,
  eq_iff, append_assoc, append-nil, arith, any, is_some, if◌then◌else◌, ok, err, integrity_error,
}
use gita.Indexer.Rows.{CodeIndex, delete, of_repo, of_file, insert_rows, row_at}

-- `a` where it is there, and `b` otherwise
abbrev pub or_else {ℓ} : {A : Type ℓ} → Option A → Option A → Option A
or_else none b = b
or_else (some a) b = some a

module _ {V : Type 0} where
  pub row_at-append :
      (r path : String) (xs ys : List (CodeIndex V))
      → row_at r path (xs ++ ys) ≡ or_else (row_at r path xs) (row_at r path ys)
  row_at-append r path [] ys = refl
  row_at-append r path (x ∷ xs) ys = elim (Bool-cases (of_file r path x)) [
    | inl here ↦ rw here refl
    | inr other ↦ rw other (row_at-append r path xs ys)
  ]

  pub row_at-delete_repo :
      (r path : String) (table : List (CodeIndex V))
      → row_at r path (delete (of_repo r) table) ≡ none
  unfolding delete
  row_at-delete_repo r path [] = refl
  row_at-delete_repo r path (row ∷ table) = ground (arith, row_at-delete_repo r path table)

  pub row_at-delete_file :
      (r p path : String) (table : List (CodeIndex V))
      → row_at r path (delete (of_file r p) table)
        ≡ (if p == path then none else row_at r path table)
  unfolding delete
  row_at-delete_file r p path [] = ground arith
  row_at-delete_file r p path (row ∷ table) = ground (
    arith,
    row_at-delete_file r p path table,
    eq_iff p path,
    eq_iff row.file_path p,
    eq_iff row.file_path path,
  )

  any-row_at :
      (r path : String) (table : List (CodeIndex V))
      → any (of_file r path) table ≡ is_some (row_at r path table)
  any-row_at r path [] = refl
  any-row_at r path (row ∷ table) = ground (arith, any-row_at r path table)

  -- The rows can be inserted: none is in the table, and no two are of one file.
  abbrev pub IsFresh : List (CodeIndex V) → List (CodeIndex V) → Type 0
  IsFresh [] table = Unit
  IsFresh (row ∷ rows) table =
      (row_at row.repo_id row.file_path table ≡ none)
      × (row_at row.repo_id row.file_path rows ≡ none)
      × IsFresh rows table

  row_at_one :
      (a b : CodeIndex V) (rows : List (CodeIndex V))
      → row_at a.repo_id a.file_path (b ∷ rows) ≡ none
      → row_at b.repo_id b.file_path (a ∷ []) ≡ none
  row_at_one a b rows h = ground (
    arith,
    eq_iff a.repo_id b.repo_id,
    eq_iff b.repo_id a.repo_id,
    eq_iff a.file_path b.file_path,
    eq_iff b.file_path a.file_path,
  )

  row_at_rest :
      (a b : CodeIndex V) (rows : List (CodeIndex V))
      → row_at a.repo_id a.file_path (b ∷ rows) ≡ none
      → row_at a.repo_id a.file_path rows ≡ none
  row_at_rest a b rows h = ground arith

  IsFresh-snoc :
      (rows table : List (CodeIndex V)) (a : CodeIndex V)
      → row_at a.repo_id a.file_path rows ≡ none
      → IsFresh rows table
      → IsFresh rows (table ++ a ∷ [])
  IsFresh-snoc [] table a apart h = tt
  IsFresh-snoc (b ∷ rows) table a apart (h, k, hs) = (
    row_at-append b.repo_id b.file_path table (a ∷ []) ∙ (rw h (row_at_one a b rows apart)),
    k,
    IsFresh-snoc rows table a (row_at_rest a b rows apart) hs,
  )

  pub insert_rows-fresh :
      (rows table : List (CodeIndex V))
      → IsFresh rows table
      → insert_rows rows table ≡ ok (table ++ rows)
  unfolding insert_rows
  insert_rows-fresh [] table h = rw (append-nil table) refl
  insert_rows-fresh (row ∷ rows) table (h, k, hs) =
      rw (any-row_at row.repo_id row.file_path table ∙ ap is_some h) (
        insert_rows-fresh rows (table ++ row ∷ []) (IsFresh-snoc rows table row k hs)
        ∙ ap ok (append_assoc table (row ∷ []) rows))

  -- The rows that an insertion without an error leaves
  pub insert_rows-ok :
      (rows table out : List (CodeIndex V)) → insert_rows rows table ≡ ok out → out ≡ table ++ rows
  unfolding insert_rows
  insert_rows-ok [] table out h = ground (arith, append-nil table)
  insert_rows-ok (row ∷ rows) table out h =
      elim (Bool-cases (any (of_file row.repo_id row.file_path) table)) [
        | inl taken ↦ ground (arith, h)
        | inr free ↦
            insert_rows-ok rows (table ++ row ∷ []) out (rw free at h)
            ∙ append_assoc table (row ∷ []) rows
      ]

  -- A row of a file that the table has refuses the insertion.
  pub insert_rows-taken :
      (r path : String) (rows table : List (CodeIndex V)) (a b : CodeIndex V)
      → row_at r path rows ≡ some a
      → row_at r path table ≡ some b
      → insert_rows rows table ≡ err integrity_error
  unfolding insert_rows
  insert_rows-taken r path [] table a b h k = cc
  insert_rows-taken r path (row ∷ rows) table a b h k =
      elim (Bool-cases (any (of_file row.repo_id row.file_path) table)) [
        | inl taken ↦ rw taken refl
        | inr free ↦ elim (Bool-cases (of_file r path row)) [
          | inl here ↦
              ground
                (arith, any-row_at r path table, eq_iff row.repo_id r, eq_iff row.file_path path)
          | inr away ↦ rw free (
              insert_rows-taken r path rows (table ++ row ∷ []) a b (rw away at h)
                (row_at-append r path table (row ∷ []) ∙ (rw k refl)))
        ]
      ]
