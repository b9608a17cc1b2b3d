-- ===== src/Indexer/Snapshot/Incremental.antt =====
-- An incremental run: where the index reflected the old tree, it then reflects the new one.
use gita.Base.{
  String, ◌≡◌, refl, sym, ◌∙◌, Bool, true, false, Option-cases, inl, inr, Option, none, some, List,
  ◌==◌, arith, any, if◌then◌else◌, ok,
}
use gita.Indexer.Walker.{is_indexable}
use gita.Indexer.Changes.{FileChange}
use gita.Indexer.Rows.{Store, CodeIndex, row_at}
use gita.Indexer.Rows.Laws.{or_else}
use gita.Indexer.Ingest.{Run, IngestResult, index_changes, incremental_index}
use gita.Indexer.Snapshot.{
  FileView, view_of_language-none, view_of_language-eq, expected, view_found, Reflects, status_at,
  Explains, IsDiff,
}
use gita.Indexer.Snapshot.Statuses.{
  kept_paths, is_kept, is_dropped, rows-index_changes, row_at-index_changes, kept-status,
  dropped-status, kept_paths-Distinct,
}
use gita.Indexer.Ingest.Embedded.{Answers}
use gita.Indexer.Snapshot.Gathered.{store_pass-view}

module _ {V : Type 0} (run : Run V) where
  open run use {parse_file, tree, include_tests, repo_id}

  or_else-none : (o : Option FileView) → or_else o none ≡ o
  or_else-none none = refl
  or_else-none (some v) = refl

  view_found-if :
      (b : Bool) (found : Option (CodeIndex V))
      → view_found (if b then none else found) ≡ (if b then none else view_found found)
  view_found-if true found = refl
  view_found-if false found = refl

  view_found-none : (found : Option (CodeIndex V)) → view_found found ≡ none → found ≡ none
  view_found-none none h = refl
  view_found-none (some row) h = cc

  module _ (before : String → Option String) (s : Store V) (changes : List FileChange)
      (diff : IsDiff before tree.read changes)
      (known : Reflects parse_file include_tests before repo_id s.code_index) where
    -- What the table reflects once the changed files are gone, and what the loop adds
    abbrev Merged : String → Option String → Type 0
    Merged path status =
        or_else
          (if is_dropped run path status
            then none
            else view_found (row_at repo_id path s.code_index))
          (if is_kept run status then expected parse_file include_tests tree.read path else none)
        ≡ expected parse_file include_tests tree.read path

    unknown : (path : String) → before path ≡ none → row_at repo_id path s.code_index ≡ none
    unknown path h = view_found-none (row_at repo_id path s.code_index) (
        known path
        ∙ view_of_language-none parse_file before path (is_indexable path include_tests) h)

    unlisted :
        (path : String)
        → is_indexable path include_tests ≡ none
        → row_at repo_id path s.code_index ≡ none
    unlisted path h = view_found-none (row_at repo_id path s.code_index) (known path ∙ (rw h refl))

    merge :
        (path : String) (status : Option String)
        → Explains (before path) (tree.read path) status
        → Merged path status
    merge path none same =
        rw
          (
            known path,
            view_of_language-eq parse_file before tree.read path (is_indexable path include_tests)
                same,
          )
          (or_else-none (expected parse_file include_tests tree.read path))
    merge path (some status) (inl (added, new)) = rw (added, unknown path new) (ground arith)
    merge path (some status) (inr (inl (deleted, gone))) = rw deleted (
        sym
          (view_of_language-none parse_file tree.read path (is_indexable path include_tests) gone))
    merge path (some status) (inr (inr modified)) =
        elim (Option-cases (is_indexable path include_tests)) [
          | inl other ↦ rw (modified, unlisted path other, other) refl
          | inr (language, source) ↦ rw (modified, source) refl
        ]

    lacking :
        (path : String) (status : Option String)
        → Explains (before path) (tree.read path) status
        → is_kept run status ≡ true
        → (if is_dropped run path status then none else row_at repo_id path s.code_index) ≡ none
    lacking path none same kept = cc
    lacking path (some status) (inl (added, new)) kept = rw (added, unknown path new) (ground arith)
    lacking path (some status) (inr (inl (deleted, gone))) kept = rw deleted refl
    lacking path (some status) (inr (inr modified)) kept =
        elim (Option-cases (is_indexable path include_tests)) [
          | inl other ↦ rw (modified, unlisted path other, other) refl
          | inr (language, source) ↦ rw (modified, source) refl
        ]

    remaining :
        (path : String)
        → row_at repo_id path (index_changes run changes s).1.code_index ≡ (
            if is_dropped run path (status_at path changes)
            then none
            else row_at repo_id path s.code_index)
    remaining path =
        row_at-index_changes run path changes s
        ∙ (rw (dropped-status run path changes diff.distinct) refl)

    fresh :
        (path : String)
        → any (λ p. p == path) (kept_paths run changes) ≡ true
        → row_at repo_id path (index_changes run changes s).1.code_index ≡ none
    fresh path kept =
        remaining path
        ∙ lacking path (status_at path changes) (diff.explains path)
            (sym (kept-status run path changes diff.distinct) ∙ kept)

    over :
        (path : String)
        → or_else (view_found (row_at repo_id path (index_changes run changes s).1.code_index)) (
            if any (λ p. p == path) (kept_paths run changes)
            then expected parse_file include_tests tree.read path
            else none)
          ≡ expected parse_file include_tests tree.read path
    over path =
        rw (remaining path, (kept-status run path changes diff.distinct))
          (rw
            (view_found-if (is_dropped run path (status_at path changes))
              (row_at repo_id path s.code_index))
            (merge path (status_at path changes) (diff.explains path)))

    -- An incremental run ends without an error.
    pub incremental_index-Reflects :
        Answers run.embedding_client
        → (result : IngestResult) × (s' : Store V) × (incremental_index run changes s
            ≡ (ok result, s'))
          × Reflects parse_file include_tests tree.read repo_id s'.code_index
    unfolding incremental_index
    incremental_index-Reflects answers =
        let (result, s', runs, views) =
          store_pass-view run "incremental" (index_changes run changes s).0
            (index_changes run changes s).1 (kept_paths run changes)
            (rows-index_changes run changes s) (kept_paths-Distinct run changes diff.distinct) fresh
            answers in
        (result, s', runs, λ path. views path ∙ over path)
