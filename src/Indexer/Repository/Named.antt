-- ===== src/Indexer/Repository/Named.antt =====
-- Which row of `repos` has a name, and what the statements of a run do to the table.
use gita.Base.{
  ℕ, String, ◌≡◌, refl, sym, ap, ◌∙◌, true, Bool-cases, inl, inr, none, some, List, [], ◌∷◌, ◌++◌,
  ◌==◌, eq_refl, arith, Result, ok, err,
}
use gita.Indexer.Changes.{FileChange}
use gita.Indexer.Rows.{Repo, Store, CodeIndex, delete_file, repo_named, update_repo}
use gita.Indexer.Ingest.{
  Run, Pass, IngestResult, index_changes, drop_stale, stamp, finish, complete_pass,
}
use gita.Indexer.Embeddings.{attach_embeddings}
use gita.Indexer.Repository.{flush_repo, is_claimed}

pub repo_named-name :
    (name : String) (repos : List Repo) (repo : Repo)
    → repo_named name repos ≡ some repo
    → (repo.name == name) ≡ true
unfolding repo_named
repo_named-name name [] repo h = cc
repo_named-name name (r ∷ repos) repo h = elim (Bool-cases (r.name == name)) [
  | inl same ↦
      let here : some r ≡ some repo = rw same at h in
      let e : r ≡ repo = cc in ap (λ x. x.name == name) (sym e) ∙ same
  | inr other ↦ repo_named-name name repos repo (rw other at h)
]

pub repo_named-replace :
    (name : String) (repos : List Repo) (old new : Repo)
    → (new.name == name) ≡ true
    → repo_named name repos ≡ some old
    → repo_named name (update_repo old.id (λ _. new) repos) ≡ some new
unfolding repo_named update_repo
repo_named-replace name [] old new named h = cc
repo_named-replace name (r ∷ repos) old new named h = elim (Bool-cases (r.id == old.id)) [
  | inl same ↦ rw same (rw named refl)
  | inr other ↦ elim (Bool-cases (r.name == name)) [
    | inl here ↦
        let found : some r ≡ some old = rw here at h in
        let e : r ≡ old = cc in ground (arith, eq_refl old.id, ap (λ x. x.id == old.id) e)
    | inr away ↦ rw (other, away) (repo_named-replace name repos old new named (rw away at h))
  ]
]

-- Assignments that leave the name alone do not change which row is found.
pub repo_named-update_repo :
    (name : String) (change : Repo → Repo) (repos : List Repo) (repo : Repo)
    → ((r : Repo) → (change r).name ≡ r.name)
    → repo_named name repos ≡ some repo
    → repo_named name (update_repo repo.id change repos) ≡ some (change repo)
unfolding repo_named update_repo
repo_named-update_repo name change [] repo keep h = cc
repo_named-update_repo name change (r ∷ repos) repo keep h = elim (Bool-cases (r.name == name)) [
  | inl here ↦
      let found : some r ≡ some repo = rw here at h in
      let e : r ≡ repo = cc in
      let same : (r.id == repo.id) ≡ true = ap (λ x. x.id == repo.id) e ∙ eq_refl repo.id in
      rw same (rw (ap (λ x. x == name) (keep r) ∙ here) (ap (λ x. some (change x)) e))
  | inr away ↦ elim (Bool-cases (r.id == repo.id)) [
    | inl same ↦ rw same (
        rw (ap (λ x. x == name) (keep r) ∙ away)
          (repo_named-update_repo name change repos repo keep (rw away at h)))
    | inr other ↦
        rw (other, away) (repo_named-update_repo name change repos repo keep (rw away at h))
  ]
]

pub repo_named_snoc :
    (name : String) (repos : List Repo) (repo : Repo)
    → repo_named name repos ≡ none
    → (repo.name == name) ≡ true
    → repo_named name (repos ++ repo ∷ []) ≡ some repo
unfolding repo_named
repo_named_snoc name [] repo h named = rw named refl
repo_named_snoc name (r ∷ repos) repo h named = ground (arith, repo_named_snoc name repos repo)

module _ {V : Type 0} where
  complete_pass-repos :
      (run : Run V) (mode : String) (pass : Pass V) (s s' : Store V) (result : IngestResult)
      (table : List (CodeIndex V)) (out : Result (List (CodeIndex V) × ℕ))
      → complete_pass run mode pass s table out ≡ (ok result, s')
      → s'.repos ≡ update_repo run.repo_id (stamp run) s.repos
  complete_pass-repos run mode pass s s' result table (err e) h = ground (arith, h)
  complete_pass-repos run mode pass s s' result table (ok (rows, embedded)) h =
      sym (ap (λ o. o.1.repos) h)

  pub finish-repos :
      (run : Run V) (mode : String) (pass : Pass V) (s s' : Store V) (result : IngestResult)
      (out : Result (List (CodeIndex V)))
      → finish run mode pass s out ≡ (ok result, s')
      → s'.repos ≡ update_repo run.repo_id (stamp run) s.repos
  finish-repos run mode pass s s' result (err e) h = ground (arith, h)
  finish-repos run mode pass s s' result (ok table) h =
      complete_pass-repos run mode pass s s' result table
        (attach_embeddings pass.rows run.embedding_client) h

  pub repos-index_changes :
      (run : Run V) (changes : List FileChange) (s : Store V)
      → (index_changes run changes s).1.repos ≡ s.repos
  unfolding index_changes drop_stale delete_file
  repos-index_changes run [] s = refl
  repos-index_changes run (c ∷ changes) s =
      repos-index_changes run changes (drop_stale run c s) ∙ ground arith

  pub flush_repo-ok :
      (repo repo' : Repo) (changed s s1 : Store V)
      → flush_repo repo changed s ≡ (ok repo', s1)
      → (repo' ≡ repo) × (s1 ≡ changed)
  flush_repo-ok repo repo' changed s s1 h = elim (Bool-cases (is_claimed repo s.repos)) [
    | inl claimed ↦ ground (arith, h)
    | inr free ↦
        let out : (let r : Result Repo × Store V = (ok repo, changed) in r) ≡ (ok repo', s1) =
          rw free at h in
        let got : ok repo ≡ ok repo' = ap (λ o. o.0) out in (cc, sym (ap (λ o. o.1) out))
  ]
