-- ===== src/Web/Webhook/Failures.antt =====
-- A delivery whose signature header cannot be compared.
use gita.Base.{String, ◌<>◌, ◌≡◌, refl, Bool-cases, inl, inr, false, ◌==◌, type_error, err}
use gita.Base.Text.{is_ascii, text_size, starts_with-append, skip-append}
use gita.Web.Event.{verify_signature, compare_digest}
use gita.Web.Cooldown.{State}
use gita.Web.Webhook.{Request, Server, header, receive_webhook}

unverifiable :
    (hmac : String → String → String) (body secret given digest : String)
    → given ≡ "sha256=" <> digest
    → is_ascii digest ≡ false
    → verify_signature hmac body given secret ≡ err type_error
unfolding verify_signature compare_digest text_size
unverifiable hmac body secret given digest e foreign =
    elim (Bool-cases (is_ascii (hmac secret body))) [
      | inl plain ↦
          rw (e, starts_with-append "sha256=" digest, skip-append "sha256=" digest, foreign, plain)
            refl
      | inr strange ↦
          rw
            (e, starts_with-append "sha256=" digest, skip-append "sha256=" digest, foreign, strange)
            refl
    ]

module _ (server : Server) where
  open server use {hmac_sha256, github_webhook_secret}

  -- A signature header with the right prefix and a character behind it that is not ASCII makes the
  -- endpoint raise a `TypeError` where it should answer with status 401. Anyone can send it: no
  -- knowledge of the secret is needed.
  pub receive_webhook-unverifiable :
      (r : Request) (digest : String) (s : State)
      → (github_webhook_secret == "") ≡ false
      → (header r.x_hub_signature_256 == "") ≡ false
      → header r.x_hub_signature_256 ≡ "sha256=" <> digest
      → is_ascii digest ≡ false
      → receive_webhook server r s ≡ (err type_error, s)
  receive_webhook-unverifiable r digest s configured present prefixed foreign =
      unfold receive_webhook in
      rw (configured, present, unverifiable hmac_sha256 _ _ _ digest prefixed foreign) refl
