-- ===== src/Jobs/Enqueue/Selection.antt =====
-- Which files get a job.
use gita.Base.{
  ℕ, ◌≤◌, zero, suc, String, ◌≡◌, ◌≢◌, refl, ap, Bool, true, not, Bool-cases, inl, inr, Option,
  none, some, List, [], ◌∷◌, ◌==◌, eq_refl, eq_iff, arith, if◌then◌else◌, length, take, is_empty,
  ◌&&◌, any, All,
}
use gita.Base.Order.{sorted, sorted-All}
use gita.Jobs.Enqueue.{
  IngestResult, TestGenJob, Enqueued, Setting, passing, base_sha, enqueue_all, enqueue_candidates,
  enqueue_on, maybe_enqueue_test_gen_jobs,
}

module _ (stage : String → Bool) where
  passing-All {κ} :
      (P : String → Type κ) (l : List String)
      → All P l
      → All (λ x. P x × (stage x ≡ true)) (passing stage l)
  unfolding passing
  passing-All P [] _ = tt
  passing-All P (x ∷ l) (h, hs) = elim (Bool-cases (stage x)) [
    | inl passed ↦ rw passed ((h, passed), passing-All P l hs)
    | inr stuck ↦ rw stuck (passing-All P l hs)
  ]

take-All {κ} : (P : String → Type κ) (n : ℕ) (l : List String) → All P l → All P (take n l)
take-All P zero l h = tt
take-All P (suc n) [] h = tt
take-All P (suc n) (x ∷ l) (h, hs) = (h, take-All P n l hs)

length-take : (n : ℕ) (l : List String) → length (take n l) ≤ n
length-take zero l = omega arith
length-take (suc n) [] = omega arith
length-take (suc n) (x ∷ l) = omega (arith, length-take n l)

All-map {κ μ} :
    {P : String → Type κ} {Q : String → Type μ} (f : (x : String) → P x → Q x) (l : List String)
    → All P l
    → All Q l
All-map f [] _ = tt
All-map f (x ∷ l) (h, hs) = (f x h, All-map f l hs)

-- `path in paths`
abbrev pub is_in : String → List String → Bool
is_in path = any (λ x. x == path)

All-is_in : (l : List String) → All (λ x. is_in x l ≡ true) l
All-is_in [] = tt
All-is_in (x ∷ l) = (ground (arith, eq_refl x), All-map (λ y h. ground (arith, h)) l (All-is_in l))

-- What a file must be for a job of its own.
pub record IsCandidate (setting : Setting) (r : IngestResult) (path : String) : Type 0 where
  pub added : is_in path r.added_files ≡ true
  pub untested : setting.stage_a path ≡ true
  pub feasible : setting.stage_b path ≡ true

-- The switches that must be on for any job.
pub record IsOn (setting : Setting) (opt_in : Bool) (r : IngestResult) : Type 0 where
  pub enabled : setting.auto_test_gen_enabled ≡ true
  pub opted : opt_in ≡ true
  pub incremental : r.mode ≡ "incremental"

-- The jobs of a call: at most the cap, each for a candidate, and none with a switch off.
pub record IsSelection (setting : Setting) (opt_in : Bool) (r : IngestResult)
    (jobs : List TestGenJob) : Type 0 where
  pub few : length jobs ≤ setting.auto_test_gen_max_per_reindex
  pub candidates : All (λ j. IsCandidate setting r j.target_file) jobs
  pub switched : jobs ≢ [] → IsOn setting opt_in r

module _ (repo_full_name repo_default_branch : String) where
  length-enqueue_all :
      (redis : TestGenJob → Enqueued) (sha : String) (l : List String)
      → length (enqueue_all repo_full_name repo_default_branch redis sha l).0 ≡ length l
  unfolding enqueue_all
  length-enqueue_all redis sha [] = refl
  length-enqueue_all redis sha (x ∷ l) = ap suc (length-enqueue_all redis sha l)

  enqueue_all-All {κ} :
      (P : String → Type κ) (redis : TestGenJob → Enqueued) (sha : String) (l : List String)
      → All P l
      → All (λ j. P j.target_file) (enqueue_all repo_full_name repo_default_branch redis sha l).0
  unfolding enqueue_all
  enqueue_all-All P redis sha [] h = tt
  enqueue_all-All P redis sha (x ∷ l) (h, hs) = (h, enqueue_all-All P redis sha l hs)

  empty-IsSelection :
      (setting : Setting) (opt_in : Bool) (r : IngestResult) → IsSelection setting opt_in r []
  empty-IsSelection setting opt_in r = record {
    few = omega arith;
    candidates = tt;
    switched = λ h. absurd (h refl);
  }

  chosen-All :
      (setting : Setting) (r : IngestResult) (n : ℕ)
      → All
          (IsCandidate setting r)
          (take n (sorted (passing setting.stage_b (passing setting.stage_a r.added_files))))
  chosen-All setting r n = take-All _ n _ (
      sorted-All _ _ (
        All-map
          (λ x ((added, untested), feasible). record {
            added = added;
            untested = untested;
            feasible = feasible;
          })
          _
          (passing-All setting.stage_b _ _
            (passing-All setting.stage_a _ _ (All-is_in r.added_files)))))

  enqueue_candidates-IsSelection :
      (setting : Setting) (redis : TestGenJob → Enqueued) (opt_in : Bool) (r : IngestResult)
      → IsOn setting opt_in r
      → IsSelection setting opt_in r
          (enqueue_candidates repo_full_name repo_default_branch setting redis r).0
  unfolding enqueue_candidates
  enqueue_candidates-IsSelection setting redis opt_in r on =
      elim (Bool-cases
        (is_empty (passing setting.stage_b (passing setting.stage_a r.added_files)))) [
          | inl none_left ↦ rw none_left (empty-IsSelection setting opt_in r)
          | inr some_left ↦ rw some_left (record {
            few = omega (
              arith,
              length-enqueue_all redis (base_sha r) (
                  take setting.auto_test_gen_max_per_reindex
                    (sorted (passing setting.stage_b (passing setting.stage_a r.added_files)))),
              length-take setting.auto_test_gen_max_per_reindex
                  (sorted (passing setting.stage_b (passing setting.stage_a r.added_files))),
            );
            candidates = enqueue_all-All _ redis _ _ (chosen-All setting r _);
            switched = λ h. on;
          })
        ]

  -- Whether a call with a queue comes to the candidates.
  unfoldable pub reaches : Setting → Bool → IngestResult → Bool
  reaches setting opt_in r =
      setting.auto_test_gen_enabled
      && (opt_in && (r.mode == "incremental" && not (is_empty r.added_files)))

  pub enqueue_on-reaches :
      (setting : Setting) (redis : TestGenJob → Enqueued) (opt_in : Bool) (r : IngestResult)
      → (enqueue_on repo_full_name repo_default_branch setting (some redis) opt_in r).0 ≡ (
          if reaches setting opt_in r
          then (enqueue_candidates repo_full_name repo_default_branch setting redis r).0
          else [])
  unfolding reaches
  enqueue_on-reaches setting redis opt_in r = ground arith

  reaches-IsOn :
      (setting : Setting) (opt_in : Bool) (r : IngestResult)
      → reaches setting opt_in r ≡ true
      → IsOn setting opt_in r
  unfolding reaches
  reaches-IsOn setting opt_in r h = record {
    enabled = ground arith;
    opted = ground arith;
    incremental = (eq_iff r.mode "incremental").0 (ground arith);
  }

  enqueue_on-IsSelection :
      (setting : Setting) (redis : Option (TestGenJob → Enqueued)) (opt_in : Bool)
      (r : IngestResult)
      → IsSelection setting opt_in r
          (enqueue_on repo_full_name repo_default_branch setting redis opt_in r).0
  enqueue_on-IsSelection setting none opt_in r = empty-IsSelection setting opt_in r
  enqueue_on-IsSelection setting (some redis) opt_in r =
      elim (Bool-cases (reaches setting opt_in r)) [
        | inl opened ↦
            rw (enqueue_on-reaches setting redis opt_in r, opened)
              (enqueue_candidates-IsSelection setting redis opt_in r
                (reaches-IsOn setting opt_in r opened))
        | inr shut ↦
            rw (enqueue_on-reaches setting redis opt_in r, shut)
              (empty-IsSelection setting opt_in r)
      ]

  -- Whatever is pushed: no more jobs are requested than the cap allows, each of them for an added file
  -- that passed both stages, and none unless the global switch and the repository's are on and the index
  -- was updated incrementally.
  pub maybe_enqueue_test_gen_jobs-IsSelection :
      (setting : Setting) (opt_in : Bool) (r : IngestResult)
      → IsSelection setting opt_in r
          (maybe_enqueue_test_gen_jobs repo_full_name repo_default_branch setting opt_in r).0
  unfolding maybe_enqueue_test_gen_jobs
  maybe_enqueue_test_gen_jobs-IsSelection setting opt_in r =
      enqueue_on-IsSelection setting setting.redis opt_in r
