-- ===== src/Agents/Signature.antt =====
-- The signature of a decision: `compute_signature` and `_repo_for_signature` of agents/dedupe.py.
pub mod Laws
use gita.Base.{
  ℕ, String, List, [], ◌∷◌, ◌==◌, if◌then◌else◌, value_error, type_error, Result, ok, err, ◌>>=◌,
}
use gita.Base.Text.{strip, lower, first, join}
use gita.Base.Order.{sorted}
use gita.Value.{Value, str, strs, Dict, get, get_or, truthy, to_str}
use gita.Platform.{Platform}
use gita.Agents.Decision.{Decision}

abbrev pub body_cap_chars : ℕ
body_cap_chars = 200

-- `for label in v`, where `v` is `payload.get("labels") or []`: a text yields its characters, a
-- number or a flag cannot be iterated.
characters : String → List String
characters String.[] = []
characters (String.◌∷◌ c s) = String.◌∷◌ c "" ∷ characters s

unfoldable pub items : Value → Result (List String)
unfolding characters
items (strs xs) = ok xs
items (str s) = ok (characters s)
items v = if truthy v then err type_error else ok []

-- `[str(label) for label in labels if label]`, on texts
nonempty : List String → List String
nonempty [] = []
nonempty (s ∷ rest) = if s == "" then nonempty rest else s ∷ nonempty rest

-- The keys or the title that identify a new issue.
issue_identity : Value → Dict → String
issue_identity (strs (k ∷ ks)) payload = join "\n" (sorted (k ∷ ks))
issue_identity keys payload = lower (strip (to_str (get_or "title" (str "") payload)))

body_identity : Dict → String
body_identity payload = first body_cap_chars (strip (to_str (get_or "body" (str "") payload)))

abbrev text_of : String → Dict → String
text_of key payload = to_str (get_or key (str "") payload)

module _ (p : Platform) where
  open p use {sha256}

  unfoldable pub repo_for_signature : Decision p → Result String
  unfolding get to_str
  repo_for_signature d =
      let repo = get "repo" d.target in
      if truthy repo then ok (lower (strip (to_str repo))) else err value_error

  -- `payload.get("content", "") or ""`
  content_or_empty : Dict → Value
  content_or_empty payload =
      let raw = get_or "content" (str "") payload in if truthy raw then raw else str ""

  -- The text that is hashed, one line for each part of the identity.
  unfoldable pub signature_material : String → Decision p → Result String
  unfolding get to_str items nonempty issue_identity body_identity content_or_empty
  signature_material repo d =
      let issue = to_str (get "issue" d.target) in
      if d.action == "create_issue"
      then ok (
          join "\n" (
            repo
            ∷ "create_issue"
            ∷ issue_identity (get "_signature_keys" d.payload) d.payload
            ∷ []))
      else if d.action == "comment"
      then ok (join "\n" (repo ∷ "comment" ∷ issue ∷ body_identity d.payload ∷ []))
      else if d.action == "close_issue"
      then ok (join "\n" (repo ∷ "close_issue" ∷ issue ∷ []))
      else if d.action == "edit_issue"
      then ok (
          join "\n" (
            repo
            ∷ "edit_issue"
            ∷ issue
            ∷ strip (text_of "title" d.payload)
            ∷ body_identity d.payload
            ∷ []))
      else if d.action == "add_label"
      then (do
        labels ← items (get "labels" d.payload)
        ok (join "\n" (repo ∷ "add_label" ∷ issue ∷ join "," (sorted (nonempty labels)) ∷ [])))
      else if d.action == "remove_label"
      then ok (join "\n" (repo ∷ "remove_label" ∷ issue ∷ text_of "label" d.payload ∷ []))
      else if d.action == "create_branch"
      then ok (
          join "\n"
            (repo ∷ "create_branch" ∷ text_of "ref" d.payload ∷ text_of "base_sha" d.payload ∷ []))
      else if d.action == "update_file"
      then ok (
          join "\n" (
            repo
            ∷ "update_file"
            ∷ text_of "branch" d.payload
            ∷ text_of "path" d.payload
            ∷ sha256 (to_str (content_or_empty d.payload))
            ∷ []))
      else if d.action == "open_pr"
      then ok
          (join "\n" (repo ∷ "open_pr" ∷ text_of "head" d.payload ∷ text_of "base" d.payload ∷ []))
      else err value_error

  unfoldable pub compute_signature : Decision p → Result String
  compute_signature d = do
    repo ← repo_for_signature d
    material ← signature_material repo d
    ok (sha256 material)
