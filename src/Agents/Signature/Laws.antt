-- ===== src/Agents/Signature/Laws.antt =====
-- Which decisions share a signature.
use mathlib.Core.List.{Perm}
use mathlib.Core.Path.{fun_ext}
use gita.Base.{◌≡◌, ◌≢◌, refl, ap, String, List, [], ◌∷◌, Result, ok, ◌>>=◌}
use gita.Base.Text.{join}
use gita.Base.Order.{sorted-perm}
use gita.Value.{strs, Dict, get}
use gita.Platform.{Platform}
use gita.Agents.Decision.{Decision}
use gita.Agents.Signature.{
  issue_identity, repo_for_signature, signature_material, compute_signature,
}

issue_identity-perm :
    (ks ks' : List String) (payload payload' : Dict)
    → ks ≢ []
    → ks' ≢ []
    → Perm ks ks'
    → issue_identity (strs ks) payload ≡ issue_identity (strs ks') payload'
unfolding issue_identity
issue_identity-perm [] ks' payload payload' some some' h = absurd (some refl)
issue_identity-perm (k ∷ ks) [] payload payload' some some' h = absurd (some' refl)
issue_identity-perm (k ∷ ks) (k' ∷ ks') payload payload' some some' h =
    ap (join "\n") (sorted-perm h)

create_issue_material :
    (p : Platform) (repo : String) (d : Decision p)
    → d.action ≡ "create_issue"
    → signature_material p repo d
      ≡ ok (
          join "\n" (
            repo
            ∷ "create_issue"
            ∷ issue_identity (get "_signature_keys" d.payload) d.payload
            ∷ []))
unfolding signature_material
create_issue_material p repo d h = rw h

-- Two `create_issue` decisions on one repository that list the same citations, at least one, have the
-- same signature, in whatever order they list them and whatever their titles and bodies say.
pub compute_signature-perm :
    (p : Platform) (d e : Decision p) (ks ks' : List String)
    → d.action ≡ "create_issue"
    → e.action ≡ "create_issue"
    → repo_for_signature p d ≡ repo_for_signature p e
    → get "_signature_keys" d.payload ≡ strs ks
    → get "_signature_keys" e.payload ≡ strs ks'
    → ks ≢ []
    → ks' ≢ []
    → Perm ks ks'
    → compute_signature p d ≡ compute_signature p e
unfolding compute_signature
compute_signature-perm p d e ks ks' hd he located keys keys' some some' same =
    let identity = issue_identity-perm ks ks' d.payload e.payload some some' same in
    let material : (repo : String) → signature_material p repo d ≡ signature_material p repo e =
      λ repo. rw (
        create_issue_material p repo d hd,
        create_issue_material p repo e he,
        keys,
        keys',
        identity,
      ) in
    rw located (
      ap
        (λ (m : String → Result String).
          repo_for_signature p e >>= λ repo. m repo >>= λ text. ok (p.sha256 text))
        (fun_ext material))
