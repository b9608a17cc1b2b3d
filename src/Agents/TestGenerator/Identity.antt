-- ===== src/Agents/TestGenerator/Identity.antt =====
-- Which parts of an artifact its decisions are identified by.
use gita.Base.{
  ℕ, String, ◌≡◌, refl, false, Option, none, some, List, [], ◌∷◌, map, ◌==◌, Result, ok,
}
use gita.Base.Text.{strip, lower}
use gita.Value.{str, get, get_or, to_str}
use gita.Platform.{Platform}
use gita.Agents.Decision.{Decision, post_init, IsRated}
use gita.Agents.Signature.{compute_signature, repo_for_signature, signature_material}
use gita.Agents.TestGenerator.{
  TestGenerationArtifact, create_branch, update_file, open_pr, target_base,
  build_test_generation_decisions,
}

repo_of_target : (repo : String) (issue : Option ℕ) → get "repo" (target_base repo issue) ≡ str repo
unfolding get get_or
repo_of_target repo none = refl
repo_of_target repo (some n) = refl

module _ (p : Platform) where
  -- The parts that identify the three decisions.
  pub record IsAlike (a b : TestGenerationArtifact p) : Type 0 where
    pub named : (a.repo == "") ≡ false
    pub named' : (b.repo == "") ≡ false
    pub repo : lower (strip a.repo) ≡ lower (strip b.repo)
    pub base_branch : a.base_branch ≡ b.base_branch
    pub base_sha : a.base_sha ≡ b.base_sha
    pub target_file : a.target_file ≡ b.target_file
    pub test_file_path : a.test_file_path ≡ b.test_file_path
    pub test_content : a.test_content ≡ b.test_content

  -- Both give decisions, with the same signatures one by one.
  abbrev pub Agree : Result (List (Decision p)) → Result (List (Decision p)) → Type 0
  Agree ds ds' =
      (l : List (Decision p)) × (l' : List (Decision p)) × (ds ≡ ok l)
      × (ds' ≡ ok l')
      × (map (compute_signature p) l ≡ map (compute_signature p) l')

  build_test_generation_decisions-ok :
      (a : TestGenerationArtifact p)
      → IsRated p a.confidence
      → build_test_generation_decisions p a
        ≡ ok (create_branch p a ∷ update_file p a ∷ open_pr p a ∷ [])
  unfolding build_test_generation_decisions post_init
  build_test_generation_decisions-ok a rated = rw rated refl

  same_signatures :
      (a b : TestGenerationArtifact p)
      → IsAlike a b
      → map (compute_signature p) (create_branch p a ∷ update_file p a ∷ open_pr p a ∷ [])
        ≡ map (compute_signature p) (create_branch p b ∷ update_file p b ∷ open_pr p b ∷ [])
  unfolding compute_signature repo_for_signature signature_material get_or to_str
  same_signatures a b h =
      rw
        (
          repo_of_target a.repo a.fallback_issue,
          repo_of_target b.repo b.fallback_issue,
          h.named,
          h.named',
          h.repo,
          h.base_branch,
          h.base_sha,
          h.target_file,
          h.test_file_path,
          h.test_content,
        )
        refl

  -- The decisions of two artifacts whose confidences lie between 0 and 1 have the same signatures, one
  -- by one, if the artifacts agree on the repository up to case and outer space, on both branch points,
  -- on the two paths and on the content: title, body, landing issue, confidence and the blob that is
  -- replaced do not count.
  pub build_test_generation_decisions-signatures :
      (a b : TestGenerationArtifact p)
      → IsRated p a.confidence
      → IsRated p b.confidence
      → IsAlike a b
      → Agree (build_test_generation_decisions p a) (build_test_generation_decisions p b)
  build_test_generation_decisions-signatures a b rated rated' h = (
    create_branch p a ∷ update_file p a ∷ open_pr p a ∷ [],
    create_branch p b ∷ update_file p b ∷ open_pr p b ∷ [],
    build_test_generation_decisions-ok a rated,
    build_test_generation_decisions-ok b rated',
    same_signatures a b h,
  )
