-- ===== src/Web/Event/Laws.antt =====
-- Which signature headers `verify_signature` accepts.
use gita.Base.{
  String, ◌<>◌, ◌≡◌, refl, ap, sym, ◌∙◌, true, ◌&&◌, Bool-cases, inl, inr, eq_iff, eq_refl, arith,
  ok,
}
use gita.Base.Text.{
  starts_with, skip, text_size, is_ascii, starts_with_lem, skip-append, starts_with-append,
}
use gita.Web.Event.{compare_digest, verify_signature}

module _ (hmac : String → String → String) (body secret : String) where
  -- The header is the prefix before the digest, which is ASCII.
  pub record IsSigned (header : String) : Type 0 where
    pub text : header ≡ "sha256=" <> hmac secret body
    pub ascii : is_ascii (hmac secret body) ≡ true

  compare_digest_lem : (a b : String) → compare_digest a b ≡ ok true → (is_ascii a ≡ true) × (a ≡ b)
  unfolding compare_digest
  compare_digest_lem a b h = elim (Bool-cases (is_ascii a && is_ascii b)) [
    | inl both ↦ (ground arith, (eq_iff a b).0 (cc (rw both at h)))
    | inr either ↦ cc (rw either at h)
  ]

  pub verify_signature-IsSigned :
      (header : String) → verify_signature hmac body header secret ≡ ok true → IsSigned header
  unfolding verify_signature text_size
  verify_signature-IsSigned header h = elim (Bool-cases (starts_with "sha256=" header)) [
    | inl prefixed ↦
        let (ascii, same) =
          compare_digest_lem (hmac secret body) (skip 7 header) (rw prefixed at h) in
        record {
          text =
              sym (starts_with_lem "sha256=" header prefixed) ∙ ap (λ s. "sha256=" <> s) (sym same);
          ascii = ascii;
        }
    | inr other ↦ cc (rw other at h)
  ]

  pub IsSigned-verify_signature :
      (header : String) → IsSigned header → verify_signature hmac body header secret ≡ ok true
  unfolding verify_signature compare_digest text_size
  IsSigned-verify_signature header h =
      rw
        (
          h.text,
          starts_with-append "sha256=" (hmac secret body),
          skip-append "sha256=" (hmac secret body),
          h.ascii,
          eq_refl (hmac secret body),
        )
        refl
