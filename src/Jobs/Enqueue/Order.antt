-- ===== src/Jobs/Enqueue/Order.antt =====
-- The order in which the added files are listed does not matter.
use mathlib.Core.Logic.{∥∥₁_map, ∥∥₁_elim}
use mathlib.Core.List.{Perm, Permᴰ}
use mathlib.Core.List.Permᴰ
use gita.Base.{
  String, ◌≡◌, refl, sym, subst, ◌∙◌, Bool, Bool-cases, inl, inr, Option, none, some, List, ◌∷◌,
  if◌then◌else◌, is_empty,
}
use gita.Base.Order.{sorted-perm}
use gita.Jobs.Enqueue.Selection.{reaches, enqueue_on-reaches}
use gita.Jobs.Enqueue.{
  IngestResult, TestGenJob, Enqueued, Setting, passing, enqueue_candidates, enqueue_on,
  maybe_enqueue_test_gen_jobs,
}

module _ (stage : String → Bool) where
  put : String → List String → List String
  put x rest = if stage x then x ∷ rest else rest

  put-permᴰ : (x : String) {xs ys : List String} → Permᴰ xs ys → Permᴰ (put x xs) (put x ys)
  unfolding put
  put-permᴰ x {xs} {ys} h = elim (Bool-cases (stage x)) [
    | inl passed ↦ rw passed (Permᴰ.cons refl h)
    | inr stuck ↦ rw stuck h
  ]

  put-swapᴰ : (x y : String) (l : List String) → Permᴰ (put x (put y l)) (put y (put x l))
  unfolding put
  put-swapᴰ x y l = elim (Bool-cases (stage x)) [
    | inl passed ↦ elim (Bool-cases (stage y)) [
      | inl also ↦ rw (passed, also) (Permᴰ.swap refl refl)
      | inr stuck ↦ rw (passed, stuck) (Permᴰ.refl (x ∷ l))
    ]
    | inr stuck ↦ rw stuck (Permᴰ.refl (put y l))
  ]

  passing-permᴰ : {xs ys : List String} → Permᴰ xs ys → Permᴰ (passing stage xs) (passing stage ys)
  unfolding passing put
  passing-permᴰ Permᴰ.nil = Permᴰ.nil
  passing-permᴰ (Permᴰ.cons {a = a} {b = b} {l₁ = l} {l₂ = m} e h) =
      subst (λ x. Permᴰ (put a (passing stage l)) (put x (passing stage m))) e
        (put-permᴰ a (passing-permᴰ h))
  passing-permᴰ (Permᴰ.swap {a = a} {b = b} {b' = b'} {l = l} e f) =
      subst (λ x. Permᴰ (put a (put b (passing stage l))) (put x (put b' (passing stage l)))) f
        (subst (λ x. Permᴰ (put a (put b (passing stage l))) (put b (put x (passing stage l)))) e
          (put-swapᴰ a b (passing stage l)))
  passing-permᴰ (Permᴰ.trans h k) = Permᴰ.trans (passing-permᴰ h) (passing-permᴰ k)

  passing-perm : {xs ys : List String} → Perm xs ys → Perm (passing stage xs) (passing stage ys)
  passing-perm h = ∥∥₁_map h passing-permᴰ

is_empty-permᴰ : {xs ys : List String} → Permᴰ xs ys → is_empty xs ≡ is_empty ys
is_empty-permᴰ Permᴰ.nil = refl
is_empty-permᴰ (Permᴰ.cons e h) = refl
is_empty-permᴰ (Permᴰ.swap e f) = refl
is_empty-permᴰ (Permᴰ.trans h k) = is_empty-permᴰ h ∙ is_empty-permᴰ k

is_empty-perm : {xs ys : List String} → Perm xs ys → is_empty xs ≡ is_empty ys
is_empty-perm {xs} {ys} h =
    let flags : IsSet Bool = hlevel in ∥∥₁_elim h (flags (is_empty xs) (is_empty ys)) is_empty-permᴰ

module _ (repo_full_name repo_default_branch : String) where
  enqueue_candidates-perm :
      (setting : Setting) (redis : TestGenJob → Enqueued) (r r' : IngestResult)
      → r.head_sha ≡ r'.head_sha
      → Perm r.added_files r'.added_files
      → (enqueue_candidates repo_full_name repo_default_branch setting redis r).0
        ≡ (enqueue_candidates repo_full_name repo_default_branch setting redis r').0
  unfolding enqueue_candidates
  enqueue_candidates-perm setting redis r r' sha same =
      let left = passing-perm setting.stage_b (passing-perm setting.stage_a same) in
      elim (Bool-cases
        (is_empty (passing setting.stage_b (passing setting.stage_a r.added_files)))) [
          | inl gone ↦ rw (gone, sym (is_empty-perm left) ∙ gone) refl
          | inr some_left ↦
              rw (some_left, sym (is_empty-perm left) ∙ some_left, sorted-perm left, sha) refl
        ]

  enqueue_on-perm :
      (setting : Setting) (redis : Option (TestGenJob → Enqueued)) (opt_in : Bool)
      (r r' : IngestResult)
      → r.mode ≡ r'.mode
      → r.head_sha ≡ r'.head_sha
      → Perm r.added_files r'.added_files
      → (enqueue_on repo_full_name repo_default_branch setting redis opt_in r).0
        ≡ (enqueue_on repo_full_name repo_default_branch setting redis opt_in r').0
  unfolding reaches enqueue_candidates
  enqueue_on-perm setting none opt_in r r' mode sha same = refl
  enqueue_on-perm setting (some redis) opt_in r r' mode sha same =
      rw
        (
          enqueue_on-reaches repo_full_name repo_default_branch setting redis opt_in r,
          enqueue_on-reaches repo_full_name repo_default_branch setting redis opt_in r',
          mode,
          is_empty-perm same,
          enqueue_candidates-perm setting redis r r' sha same,
        )
        refl

  -- The requested jobs depend on the set of the added files, not on the order in which git lists them:
  -- a retried push asks for the same jobs in the same order.
  pub maybe_enqueue_test_gen_jobs-perm :
      (setting : Setting) (opt_in : Bool) (r r' : IngestResult)
      → r.mode ≡ r'.mode
      → r.head_sha ≡ r'.head_sha
      → Perm r.added_files r'.added_files
      → (maybe_enqueue_test_gen_jobs repo_full_name repo_default_branch setting opt_in r).0
        ≡ (maybe_enqueue_test_gen_jobs repo_full_name repo_default_branch setting opt_in r').0
  unfolding maybe_enqueue_test_gen_jobs
  maybe_enqueue_test_gen_jobs-perm setting opt_in r r' mode sha same =
      enqueue_on-perm setting setting.redis opt_in r r' mode sha same
