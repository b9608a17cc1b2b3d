-- ===== src/Indexer/Ingest/Embedded.antt =====
-- What attaching embeddings and writing them leaves alone: the keys of the rows.
use gita.Base.{
  ℕ, Result, ok, err, String, ◌≡◌, refl, Option, none, some, List, [], ◌∷◌, Bool-cases, inl, inr,
  arith, any, ◌==◌, is_empty, eqb, length,
}
use gita.Indexer.Rows.{CodeIndex, of_file}
use gita.Indexer.Embeddings.{
  prepare_embedding_input, assign_embeddings, attach_vectors, attach_embeddings, embedding_inputs,
}
use gita.Indexer.Ingest.Keys.{OfRepo}
use gita.Indexer.Ingest.{Run, embedded_row, find_row, write_embeddings}

module _ {V : Type 0} where
  any-assign_embeddings :
      (r p : String) (rows : List (CodeIndex V)) (vectors : List V)
      → any (of_file r p) rows ≡ any (of_file r p) (assign_embeddings rows vectors)
  unfolding assign_embeddings
  any-assign_embeddings r p [] vectors = refl
  any-assign_embeddings r p (row ∷ rows) [] = refl
  any-assign_embeddings r p (row ∷ rows) (v ∷ vectors) =
      ground (
        arith,
        any-assign_embeddings r p rows (v ∷ vectors),
        any-assign_embeddings r p rows vectors,
      )

  OfRepo-assign_embeddings :
      (r : String) (rows : List (CodeIndex V)) (vectors : List V)
      → OfRepo r rows
      → OfRepo r (assign_embeddings rows vectors)
  unfolding assign_embeddings
  OfRepo-assign_embeddings r [] vectors h = tt
  OfRepo-assign_embeddings r (row ∷ rows) [] h = h
  OfRepo-assign_embeddings r (row ∷ rows) (v ∷ vectors) (h, hs) =
      elim (Bool-cases (prepare_embedding_input row.content == "")) [
        | inl blank ↦ rw blank (h, OfRepo-assign_embeddings r rows (v ∷ vectors) hs)
        | inr text ↦ rw text (h, OfRepo-assign_embeddings r rows vectors hs)
      ]

  -- What holds of the rows with embeddings, where the client has not raised
  abbrev pub Attached : (List (CodeIndex V) → Type 0) → Result (List (CodeIndex V) × ℕ) → Type 0
  Attached P (err e) = Unit
  Attached P (ok (rows, embedded)) = P rows

  -- Attaching embeddings raises, or gives the rows back, or the rows with vectors assigned.
  attach_vectors-cases :
      (P : List (CodeIndex V) → Type 0) (rows : List (CodeIndex V))
      → P rows
      → ((vectors : List V) → P (assign_embeddings rows vectors))
      → (answer : Result (List V)) → Attached P (attach_vectors rows (embedding_inputs rows) answer)
  attach_vectors-cases P rows h k (err e) = tt
  attach_vectors-cases P rows h k (ok vectors) =
      elim (Bool-cases (eqb (length vectors) (length (embedding_inputs rows)))) [
        | inl even ↦ rw even (k vectors)
        | inr odd ↦ rw odd h
      ]

  -- A client that never raises
  abbrev pub Answers : Option (List String → Result (List V)) → Type 0
  Answers none = Unit
  Answers (some embed) = (inputs : List String) → (vectors : List V) × (embed inputs ≡ ok vectors)

  pub attach_embeddings-ok :
      (rows : List (CodeIndex V)) (client : Option (List String → Result (List V)))
      → Answers client
      → (out : List (CodeIndex V) × ℕ) × (attach_embeddings rows client ≡ ok out)
  unfolding attach_embeddings
  attach_embeddings-ok rows none h = ((rows, 0), refl)
  attach_embeddings-ok rows (some embed) h =
      let (vectors, answered) = h (embedding_inputs rows) in
      elim (Bool-cases (is_empty (embedding_inputs rows))) [
        | inl blank ↦ ((rows, 0), rw blank refl)
        | inr texts ↦ elim (Bool-cases (eqb (length vectors) (length (embedding_inputs rows)))) [
          | inl even ↦ (
            (assign_embeddings rows vectors, length (embedding_inputs rows)),
            rw (texts, answered, even) refl,
          )
          | inr odd ↦ ((rows, 0), rw (texts, answered, odd) refl)
        ]
      ]

  pub attach_embeddings-cases :
      (P : List (CodeIndex V) → Type 0) (rows : List (CodeIndex V))
      (client : Option (List String → Result (List V)))
      → P rows
      → ((vectors : List V) → P (assign_embeddings rows vectors))
      → Attached P (attach_embeddings rows client)
  unfolding attach_embeddings
  attach_embeddings-cases P rows none h k = h
  attach_embeddings-cases P rows (some embed) h k =
      elim (Bool-cases (is_empty (embedding_inputs rows))) [
        | inl blank ↦ rw blank h
        | inr texts ↦ rw texts (attach_vectors-cases P rows h k (embed (embedding_inputs rows)))
      ]

  pub any-attach_embeddings :
      (rows : List (CodeIndex V)) (client : Option (List String → Result (List V)))
      → Attached
          (λ out. (r p : String) → any (of_file r p) rows ≡ any (of_file r p) out)
          (attach_embeddings rows client)
  any-attach_embeddings rows client =
      attach_embeddings-cases
        (λ out. (r p : String) → any (of_file r p) rows ≡ any (of_file r p) out) rows client
        (λ r p. refl) (λ vectors r p. any-assign_embeddings r p rows vectors)

  pub OfRepo-attach_embeddings :
      (r : String) (rows : List (CodeIndex V)) (client : Option (List String → Result (List V)))
      → OfRepo r rows
      → Attached (OfRepo r) (attach_embeddings rows client)
  OfRepo-attach_embeddings r rows client h =
      attach_embeddings-cases (OfRepo r) rows client h
        (λ vectors. OfRepo-assign_embeddings r rows vectors h)

  key-embedded_row :
      (run : Run V) (r p : String) (row : CodeIndex V) (found : Option (CodeIndex V))
      → of_file r p (embedded_row run row found) ≡ of_file r p row
  key-embedded_row run r p row none = refl
  key-embedded_row run r p row (some found) = refl

  pub any-write_embeddings :
      (run : Run V) (r p : String) (rows table : List (CodeIndex V))
      → any (of_file r p) table ≡ any (of_file r p) (write_embeddings run rows table)
  unfolding write_embeddings
  any-write_embeddings run r p rows [] = refl
  any-write_embeddings run r p rows (row ∷ table) = ground (
    arith,
    any-write_embeddings run r p rows table,
    key-embedded_row run r p row (find_row run row.file_path rows),
  )
