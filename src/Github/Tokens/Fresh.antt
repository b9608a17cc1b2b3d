-- ===== src/Github/Tokens/Fresh.antt =====
-- The token that a request carries is fresh.
use gita.Base.{
  ℕ, ◌+◌, ◌<◌, String, ◌<>◌, ◌≡◌, ap, ◌∙◌, Bool-cases, Option-cases, Result-cases, inl, inr, some,
  [], ◌∷◌, ◌++◌, ltb, leb, ◌&&◌, arith, ok,
}
use gita.Base.Text.{decimal}
use gita.Base.Exec.{Exec, lift, ◌>>=◌}
use gita.Web.Json.{Json, to_str}
use gita.Github.Http.{
  Request, Response, CachedToken, Api, State, index, json_of, send, read_clock, generate_jwt,
  jwt_at,
}
use gita.Github.Tokens.{
  token_refresh_skew, is_fresh, find_token, expiry, app_request, remember_token, fetch_token,
  get_installation_token,
}

module _ (api : Api) where
  open api use {http, clock, repr}

  abbrev pub token_request : ℕ → String → Request
  token_request id jwt =
      app_request api "POST" ("/app/installations/" <> (decimal id <> "/access_tokens")) jwt

  -- Where a token comes from: the cache holds it and it is good for five minutes yet, and nothing is
  -- sent; or the one request that was sent asked for it, GitHub's answer names it, and the cache holds it.
  pub data IsGranted (id : ℕ) (token : String) (s s' : State) : Type 0 where
    kept :
        (cached : CachedToken)
        → find_token id s.installation_tokens ≡ some cached
        → cached.token ≡ token
        → clock s.reads + token_refresh_skew < cached.expires_at
        → s'.sent ≡ s.sent
        → IsGranted id token s s'
    fetched :
        (jwt : String) (response : Response) (payload raw : Json) (expires : ℕ)
        → http s.sent (token_request id jwt) ≡ some response
        → response.body ≡ some payload
        → index "token" payload ≡ ok raw
        → to_str repr raw ≡ token
        → s'.sent ≡ s.sent ++ token_request id jwt ∷ []
        → find_token id s'.installation_tokens
          ≡ some (record { token = token; expires_at = expires })
        → IsGranted id token s s'

  abbrev sign_now : State → String
  sign_now s = jwt_at api (clock s.reads)

  abbrev after_clock : State → State
  after_clock s = record s { reads = s.reads + 1 }

  -- What follows the answer
  abbrev on_answer : ℕ → Response → Exec State String
  on_answer id response = do
    payload ← lift (json_of response.body)
    raw ← lift (index "expires_at" payload)
    expires ← lift (expiry api raw)
    token ← lift (index "token" payload)
    remember_token api id (to_str repr token) expires

  granted_by_answer :
      (id : ℕ) (token : String) (t s' : State) (response : Response)
      → on_answer id response t ≡ (ok token, s')
      → (payload : Json) × (raw : Json) × (expires : ℕ) × (response.body ≡ some payload)
        × (index "token" payload ≡ ok raw)
        × (to_str repr raw ≡ token)
        × (s' ≡ (remember_token api id (to_str repr raw) expires t).1)
  granted_by_answer id token t s' response h = elim (Option-cases response.body) [
    | inl missing ↦ ground arith
    | inr (payload, read) ↦ elim (Result-cases (index "expires_at" payload)) [
      | inl (e, absent) ↦ ground arith
      | inr (raw_time, found) ↦ elim (Result-cases (expiry api raw_time)) [
        | inl (e, unread) ↦ ground arith
        | inr (expires, parsed) ↦ elim (Result-cases (index "token" payload)) [
          | inl (e, absent) ↦ ground arith
          | inr (raw, named) ↦ (payload, raw, expires, read, named, ground arith, ground arith)
        ]
      ]
    ]
  ]

  asked : ℕ → State → State
  asked id s = record (after_clock s) { sent = s.sent ++ token_request id (sign_now s) ∷ [] }

  -- The request, and an answer that `raise_for_status` lets pass
  answered :
      (id : ℕ) (token : String) (s s' : State)
      → fetch_token api id s ≡ (ok token, s')
      → (response : Response) × (http s.sent (token_request id (sign_now s)) ≡ some response)
        × (on_answer id response (asked id s) ≡ (ok token, s'))
  unfolding fetch_token send generate_jwt asked
  answered id token s s' h = elim (Option-cases (http s.sent (token_request id (sign_now s)))) [
    | inl silent ↦ ground arith
    | inr (response, got) ↦ elim (Bool-cases (leb 200 response.status && ltb response.status 300)) [
      | inl good ↦ (response, got, rw (got, good) at h)
      | inr bad ↦ ground arith
    ]
  ]

  -- A fetch after the clock was read
  fetch_token-IsGranted :
      (id : ℕ) (token : String) (s s' : State)
      → fetch_token api id (after_clock s) ≡ (ok token, s')
      → IsGranted id token s s'
  unfolding asked find_token
  fetch_token-IsGranted id token s s' h =
      let t = after_clock s in
      let (response, got, rest) = answered id token t s' h in
      let (payload, raw, expires, read, named, printed, state) =
        granted_by_answer id token (asked id t) s' response rest in
      fetched (sign_now t) response payload raw expires got read named printed
        (ap (λ u. u.sent) state)
        (ap (λ u. find_token id u.installation_tokens) state ∙ (rw printed (ground arith)))

  -- If a token is given out, then it is good for more than five minutes by the clock that was read, or
  -- GitHub has just issued it for the installation.
  pub get_installation_token-IsGranted :
      (id : ℕ) (token : String) (s s' : State)
      → get_installation_token api id s ≡ (ok token, s')
      → IsGranted id token s s'
  unfolding get_installation_token read_clock is_fresh
  get_installation_token-IsGranted id token s s' h =
      elim (Option-cases (find_token id s.installation_tokens)) [
        | inl unknown ↦ fetch_token-IsGranted id token s s' (rw unknown at h)
        | inr (cached, found) ↦
            elim (Bool-cases (ltb (clock s.reads + token_refresh_skew) cached.expires_at)) [
              | inl fresh ↦ kept cached found (ground arith) (ground arith) (ground arith)
              | inr stale ↦ fetch_token-IsGranted id token s s' (rw (found, stale) at h)
            ]
      ]
