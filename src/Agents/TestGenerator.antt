-- ===== src/Agents/TestGenerator.antt =====
-- agents/test_generator/bridge.py: a generated test as three decisions that build on each other.
pub mod Identity
use Prim.Native.Char.{Char, code}
use gita.Base.{
  ℕ, ◌-◌, String, ◌<>◌, ◌≡◌, refl, Bool, true, false, ◌&&◌, ◌||◌, not, Option, none, some, List, [],
  ◌∷◌, ◌++◌, ◌==◌, leb, eqb, is_some, if◌then◌else◌, Result, ok, err, ◌>>=◌,
}
use gita.Base.Text.{decimal, first, lower, ends_with, split_on, text_size}
use gita.Value.{Value, num, str, Dict}
use gita.Platform.{Platform}
use gita.Agents.Decision.{Decision, constructed}

abbrev is_alphanumeric : Char → Bool
is_alphanumeric c =
    let n = code c in leb 48 n && leb n 57 || leb 65 n && leb n 90 || leb 97 n && leb n 122

-- `_BRANCH_SLUG_RE.sub("-", stem)`; the flag says that the characters of a run were read last.
hyphenate : Bool → String → String
hyphenate in_run String.[] = ""
hyphenate in_run (String.◌∷◌ c s) =
    let kept = String.◌∷◌ c (hyphenate false s) in
    let run = hyphenate true s in
    if is_alphanumeric c then kept else if in_run then run else "-" <> run

-- `s.lstrip("-")` and `s.rstrip("-")`
lstrip_hyphen : String → String
lstrip_hyphen String.[] = ""
lstrip_hyphen (String.◌∷◌ c s) = elim (eqb (code c) 45) [
  | true ↦ lstrip_hyphen s
  | false ↦ String.◌∷◌ c s
]

rstrip_hyphen : String → String
rstrip_hyphen String.[] = ""
rstrip_hyphen (String.◌∷◌ c s) =
    let rest = rstrip_hyphen s in if eqb (code c) 45 && rest == "" then "" else String.◌∷◌ c rest

unfoldable pub slug : String → String
unfolding hyphenate lstrip_hyphen rstrip_hyphen
slug stem = lower (rstrip_hyphen (lstrip_hyphen (hyphenate false stem)))

abbrev or_unknown : String → String
or_unknown s = if s == "" then "unknown" else s

unfoldable pub compute_branch_name : String → String → String
compute_branch_name target_file base_sha =
    let stem =
      if ends_with target_file ".py"
      then first (text_size target_file - 3) target_file
      else target_file in
    "gita/tests/" <> (slug stem <> ("-" <> or_unknown (first 7 (or_unknown base_sha))))

last_part : List String → String
last_part [] = ""
last_part (s ∷ []) = s
last_part (s ∷ t ∷ rest) = last_part (t ∷ rest)

unfoldable pub default_pr_title : String → String
unfolding last_part
default_pr_title target_file = "tests: add coverage for " <> last_part (split_on b'/' target_file)

unfoldable pub default_pr_body : String → String → String → String
default_pr_body target_file test_file_path content_hash_prefix =
    "Auto-generated tests for `"
    <> (target_file
        <> ("`.\n\n- New file: `"
            <> (test_file_path
                <> ("`\n- Content hash: `"
                    <> (content_hash_prefix
                        <> "…`\n- Generated by GITA (test-generator agent).\n\nReview the generated assertions carefully — AI-produced tests can be syntactically valid but behaviourally wrong.")))))

-- `text or default`
abbrev pub given_or : Option String → String → String
given_or none default = default
given_or (some s) default = if s == "" then default else s

abbrev given : Option String → Bool
given none = false
given (some s) = not (s == "")

abbrev pub target_base : String → Option ℕ → Dict
target_base repo none = ("repo", str repo) ∷ []
target_base repo (some issue) = ("repo", str repo) ∷ ("fallback_issue", num issue) ∷ []

abbrev sha_field : Option String → Dict
sha_field none = []
sha_field (some sha) = if sha == "" then [] else ("sha", str sha) ∷ []

module _ (p : Platform) where
  open p use {Float, sha256}

  pub record TestGenerationArtifact : Type 0 where
    pub repo : String
    pub base_branch : String
    pub base_sha : String
    pub target_file : String
    pub test_file_path : String
    pub test_content : String
    pub existing_test_sha : Option String
    pub pr_title : Option String
    pub pr_body : Option String
    pub fallback_issue : Option ℕ
    pub confidence : Float

  module _ (a : TestGenerationArtifact) where
    open a use {
      repo, base_branch, base_sha, target_file, test_file_path, test_content, existing_test_sha,
      pr_title, pr_body, fallback_issue, confidence,
    }

    abbrev pub branch_name : String
    branch_name = compute_branch_name target_file base_sha

    abbrev content_hash_prefix : String
    content_hash_prefix = first 12 (sha256 test_content)

    abbrev title : String
    title = given_or pr_title (default_pr_title target_file)

    abbrev body : String
    body = given_or pr_body (default_pr_body target_file test_file_path content_hash_prefix)

    abbrev pub create_branch : Decision p
    create_branch = record {
      action = "create_branch";
      target = target_base repo fallback_issue;
      payload = ("ref", str ("refs/heads/" <> branch_name)) ∷ ("base_sha", str base_sha) ∷ [];
      evidence =
          ("would create branch `"
            <> (branch_name
                <> ("` from base SHA `"
                    <> (first 7 base_sha <> ("` on `" <> (base_branch <> "`"))))))
          ∷ ("purpose: add tests for `" <> (target_file <> "`"))
          ∷ [];
      confidence = confidence;
    }

    abbrev pub update_file : Decision p
    update_file = record {
      action = "update_file";
      target = target_base repo fallback_issue;
      payload =
          ("path", str test_file_path)
          ∷ ("content", str test_content)
          ∷ ("message", str ("gita: add generated tests for " <> target_file))
          ∷ ("branch", str branch_name)
          ∷ sha_field existing_test_sha;
      evidence =
          ("would write `"
            <> (test_file_path
                <> ("` ("
                    <> (decimal (text_size test_content)
                        <> (" bytes, sha256 `"
                            <> (content_hash_prefix <> ("…`) onto `" <> (branch_name <> "`"))))))))
          ∷ ("mode: " <> (if given existing_test_sha then "update existing" else "create new"))
          ∷ [];
      confidence = confidence;
    }

    abbrev pub open_pr : Decision p
    open_pr = record {
      action = "open_pr";
      target = target_base repo fallback_issue;
      payload =
          ("title", str title)
          ∷ ("body", str body)
          ∷ ("head", str branch_name)
          ∷ ("base", str base_branch)
          ∷ [];
      evidence =
          ("would open PR `"
            <> (title <> ("` from `" <> (branch_name <> ("` into `" <> (base_branch <> "`"))))))
          ∷ ("purpose: ship generated tests for `" <> (target_file <> "`"))
          ∷ [];
      confidence = confidence;
    }

    -- The three constructor calls in order, each of which may raise
    unfoldable pub build_test_generation_decisions : Result (List (Decision p))
    build_test_generation_decisions = do
      branch ← constructed p create_branch
      file ← constructed p update_file
      pull ← constructed p open_pr
      ok (branch ∷ file ∷ pull ∷ [])

bridge_tests :
    (compute_branch_name "src/My_App/core.py" "0123456789" ≡ "gita/tests/src-my-app-core-0123456")
    × (compute_branch_name "/a--b/" "" ≡ "gita/tests/a-b-unknown")
    × (default_pr_title "a/b.py" ≡ "tests: add coverage for b.py")
unfolding compute_branch_name slug default_pr_title lower first ends_with split_on text_size
bridge_tests = (refl, refl, refl)
