-- ===== src/Indexer/Embeddings.antt =====
-- `_attach_embeddings` of indexer/ingest.py, and `prepare_embedding_input` of indexer/embeddings.py.
-- The client is a function from texts to vectors, or to the error that `embed` raises.
use gita.Base.{
  ℕ, String, Option, none, some, List, [], ◌∷◌, ◌==◌, eqb, leb, length, is_empty, if◌then◌else◌,
  Result, ok, err,
}
use gita.Base.Text.{text_size, first}
use gita.Indexer.Rows.{CodeIndex}

-- `prepare_embedding_input` of indexer/embeddings.py
unfoldable pub prepare_embedding_input : Option String → String
prepare_embedding_input none = ""
prepare_embedding_input (some content) =
    if leb (text_size content) 8000 then content else first 8000 content

module _ {V : Type 0} where
  unfoldable pub embedding_inputs : List (CodeIndex V) → List String
  embedding_inputs [] = []
  embedding_inputs (row ∷ rows) =
      let text = prepare_embedding_input row.content in
      let rest = embedding_inputs rows in if text == "" then rest else text ∷ rest

  -- `zip(indexed_rows, vectors)`, over all rows
  unfoldable pub assign_embeddings : List (CodeIndex V) → List V → List (CodeIndex V)
  assign_embeddings [] vectors = []
  assign_embeddings (row ∷ rows) [] = row ∷ rows
  assign_embeddings (row ∷ rows) (vec ∷ vectors) =
      let skipped = row ∷ assign_embeddings rows (vec ∷ vectors) in
      let embedded = record row { embedding = some vec } ∷ assign_embeddings rows vectors in
      if prepare_embedding_input row.content == "" then skipped else embedded

  abbrev pub attach_vectors :
      List (CodeIndex V) → List String → Result (List V) → Result (List (CodeIndex V) × ℕ)
  attach_vectors rows inputs (err e) = err e
  attach_vectors rows inputs (ok vectors) =
      if eqb (length vectors) (length inputs)
      then ok (assign_embeddings rows vectors, length inputs)
      else ok (rows, 0)

  -- The client is not called for no inputs.
  unfoldable pub attach_embeddings :
      List (CodeIndex V) → Option (List String → Result (List V)) → Result (List (CodeIndex V) × ℕ)
  attach_embeddings rows none = ok (rows, 0)
  attach_embeddings rows (some embed) =
      let inputs = embedding_inputs rows in
      if is_empty inputs then ok (rows, 0) else attach_vectors rows inputs (embed inputs)
