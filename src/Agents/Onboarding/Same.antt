-- ===== src/Agents/Onboarding/Same.antt =====
-- Two reviews that found the same.
use mathlib.Core.List.{Perm}
use mathlib.Core.List.Perm
use gita.Base.{
  ℕ, String, ◌≡◌, refl, ap, sym, ◌∙◌, ◌≢◌, true, false, Bool-cases, inl, inr, Option, none, some,
  List, [], ◌∷◌, map, ◌==◌, is_empty, All, Result, ok,
}
use gita.Base.Text.{lower, strip}
use gita.Base.Order.{sorted-perm, is_empty-sorted}
use gita.Value.{str, strs, get, get_or}
use gita.Platform.{Platform}
use gita.Agents.Decision.{Decision, constructed, constructed-ok, IsRated}
use gita.Agents.Signature.{compute_signature, repo_for_signature}
use gita.Agents.Signature.Laws.{compute_signature-perm}
use gita.Agents.Findings.{citation}
use gita.Agents.Milestones.{Milestone, OnboardingResult, cited}
use gita.Agents.Onboarding.{
  issue_target, signature_keys, issue_decision, issue_decisions, build_onboarding_issue_decisions,
}

is_empty-map : {A B : Type 0} (f : A → B) (xs : List A) → is_empty (map f xs) ≡ is_empty xs
is_empty-map f [] = refl
is_empty-map f (x ∷ xs) = refl

repo_of_target : (repo : String) (n : Option ℕ) → get "repo" (issue_target repo n) ≡ str repo
unfolding get get_or
repo_of_target repo none = refl
repo_of_target repo (some n) = refl

some_of : {A : Type 0} (xs : List A) → is_empty xs ≡ false → xs ≢ []
some_of [] h = cc
some_of (x ∷ xs) h = λ e. cc

module _ (p : Platform) where
  -- The citations of a milestone
  abbrev pub citations : OnboardingResult p → Milestone p → List String
  citations r m = map citation (cited r.findings m.finding_indices)

  abbrev pub IsWeighted : Milestone p → Type 0
  IsWeighted m = IsRated p m.confidence

  -- The milestones cite the same places, one by one, in any order.
  abbrev pub IsSame :
      OnboardingResult p → OnboardingResult p → List (Milestone p) → List (Milestone p) → Type 0
  IsSame r r' [] [] = Unit
  IsSame r r' [] (m' ∷ ms') = ⊥
  IsSame r r' (m ∷ ms) [] = ⊥
  IsSame r r' (m ∷ ms) (m' ∷ ms') = Perm (citations r m) (citations r' m') × IsSame r r' ms ms'

  -- Both give decisions, with the same signatures.
  abbrev pub Agree : Result (List (Decision p)) → Result (List (Decision p)) → Type 0
  Agree ds ds' =
      (l : List (Decision p)) × (l' : List (Decision p)) × (ds ≡ ok l)
      × (ds' ≡ ok l')
      × (map (compute_signature p) l ≡ map (compute_signature p) l')

  is_empty-signature_keys :
      (r : OnboardingResult p) (m : Milestone p)
      → is_empty (signature_keys p r m) ≡ is_empty (cited r.findings m.finding_indices)
  unfolding signature_keys
  is_empty-signature_keys r m =
      is_empty-sorted (citations r m) ∙ is_empty-map citation (cited r.findings m.finding_indices)

  constructed-issue_decision :
      (r : OnboardingResult p) (repo : String) (n : Option ℕ) (labels : List String)
      (m : Milestone p)
      → IsWeighted m
      → constructed p (issue_decision p r repo n labels m) ≡ ok (issue_decision p r repo n labels m)
  constructed-issue_decision r repo n labels m h =
      constructed-ok p (issue_decision p r repo n labels m) refl h

  issue_decisions-skip :
      (r : OnboardingResult p) (repo : String) (n : Option ℕ) (labels : List String)
      (m : Milestone p) (ms : List (Milestone p))
      → is_empty (cited r.findings m.finding_indices) ≡ true
      → issue_decisions p r repo n labels (m ∷ ms) ≡ issue_decisions p r repo n labels ms
  unfolding issue_decisions
  issue_decisions-skip r repo n labels m ms h = rw h refl

  issue_decisions-cons :
      (r : OnboardingResult p) (repo : String) (n : Option ℕ) (labels : List String)
      (m : Milestone p) (ms : List (Milestone p)) (l : List (Decision p))
      → IsWeighted m
      → is_empty (cited r.findings m.finding_indices) ≡ false
      → issue_decisions p r repo n labels ms ≡ ok l
      → issue_decisions p r repo n labels (m ∷ ms) ≡ ok (issue_decision p r repo n labels m ∷ l)
  unfolding issue_decisions
  issue_decisions-cons r repo n labels m ms l rated h e =
      rw (h, constructed-issue_decision r repo n labels m rated, e) refl

  module _ (r r' : OnboardingResult p) (repo repo' : String) (n n' : Option ℕ)
      (labels labels' : List String) (named : (repo == "") ≡ false) (named' : (repo' == "") ≡ false)
      (same_repo : lower (strip repo) ≡ lower (strip repo')) where
    same_place :
        (m m' : Milestone p)
        → repo_for_signature p (issue_decision p r repo n labels m)
          ≡ repo_for_signature p (issue_decision p r' repo' n' labels' m')
    unfolding repo_for_signature
    same_place m m' =
        rw (repo_of_target repo n, repo_of_target repo' n', named, named', same_repo) refl

    same_signature :
        (m m' : Milestone p)
        → signature_keys p r m ≡ signature_keys p r' m'
        → is_empty (signature_keys p r m) ≡ false
        → compute_signature p (issue_decision p r repo n labels m)
          ≡ compute_signature p (issue_decision p r' repo' n' labels' m')
    unfolding get get_or
    same_signature m m' e h =
        compute_signature-perm p (issue_decision p r repo n labels m)
          (issue_decision p r' repo' n' labels' m') (signature_keys p r m) (signature_keys p r m)
          refl refl (same_place m m') refl (ap strs (sym e)) (some_of (signature_keys p r m) h)
          (some_of (signature_keys p r m) h) (Perm.refl (signature_keys p r m))

    issue_decisions-Agree :
        (ms ms' : List (Milestone p))
        → All IsWeighted ms
        → All IsWeighted ms'
        → IsSame r r' ms ms'
        → Agree (issue_decisions p r repo n labels ms) (issue_decisions p r' repo' n' labels' ms')
    unfolding issue_decisions
    issue_decisions-Agree [] [] rated rated' same = ([], [], refl, refl, refl)
    issue_decisions-Agree [] (m' ∷ ms') rated rated' same = absurd same
    issue_decisions-Agree (m ∷ ms) [] rated rated' same = absurd same
    issue_decisions-Agree (m ∷ ms) (m' ∷ ms') (h, rated) (h', rated') (perm, same) =
        let (l, l', e, e', sigs) = issue_decisions-Agree ms ms' rated rated' same in
        let keys : signature_keys p r m ≡ signature_keys p r' m' =
          unfold signature_keys in sorted-perm perm in
        let cites = is_empty-signature_keys r m in
        let cites' = is_empty-signature_keys r' m' in
        let both : is_empty (cited r.findings m.finding_indices)
            ≡ is_empty (cited r'.findings m'.finding_indices) =
          sym cites ∙ (ap is_empty keys ∙ cites') in
        elim (Bool-cases (is_empty (cited r.findings m.finding_indices))) [
          | inl none_cited ↦ (
            l,
            l',
            issue_decisions-skip r repo n labels m ms none_cited ∙ e,
            issue_decisions-skip r' repo' n' labels' m' ms' (sym both ∙ none_cited) ∙ e',
            sigs,
          )
          | inr some_cited ↦ (
            issue_decision p r repo n labels m ∷ l,
            issue_decision p r' repo' n' labels' m' ∷ l',
            issue_decisions-cons r repo n labels m ms l h some_cited e,
            issue_decisions-cons r' repo' n' labels' m' ms' l' h' (sym both ∙ some_cited) e',
            rw (same_signature m m' keys (cites ∙ some_cited), sigs) refl,
          )
        ]

  -- If two reviews of one repository cite the same places milestone by milestone, in any order, and every
  -- confidence lies between 0 and 1, then both give decisions, and those have the same signatures one by
  -- one, whatever titles, summaries, findings, labels and landing issues say.
  pub build_onboarding_issue_decisions-signatures :
      (r r' : OnboardingResult p) (repo repo' : String) (n n' : Option ℕ)
      (labels labels' : List String)
      → (repo == "") ≡ false
      → (repo' == "") ≡ false
      → lower (strip repo) ≡ lower (strip repo')
      → All IsWeighted r.milestones
      → All IsWeighted r'.milestones
      → IsSame r r' r.milestones r'.milestones
      → Agree
          (build_onboarding_issue_decisions p r repo n labels)
          (build_onboarding_issue_decisions p r' repo' n' labels')
  unfolding build_onboarding_issue_decisions
  build_onboarding_issue_decisions-signatures r r' repo repo' n n' labels labels' named named'
        same_repo rated rated' same =
      issue_decisions-Agree r r' repo repo' n n' labels labels' named named' same_repo r.milestones
        r'.milestones rated rated' same
