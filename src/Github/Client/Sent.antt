-- ===== src/Github/Client/Sent.antt =====
-- What a call of the client sends.
use gita.Base.{
  ℕ, ◌+◌, String, ◌<>◌, ◌≡◌, refl, sym, ◌∙◌, Bool-cases, Option-cases, Result-cases, inl, inr,
  Option, List, [], ◌∷◌, ◌++◌, append-nil, append_assoc, All, All-append, arith,
}
use gita.Base.Text.{decimal}
use gita.Web.Json.{Json}
use gita.Github.Http.{Request, Api, State, send, jwt_at, generate_jwt, read_clock}
use gita.Github.Tokens.{
  find_id, find_token, is_fresh, app_request, fetch_installation_id, get_installation_id,
  fetch_token, get_installation_token, installation_token_for_repo,
}
use gita.Github.Writes.{issue_path, contents_path, repo_request, call_repo}

-- The method and the path below a repository that an action calls
pub data IsRoute (api : Api) (action : String) : String → String → Type 0 where
  comments : action ≡ "comment" → (n : ℕ) → IsRoute api action "POST" (issue_path n "/comments")
  issues : action ≡ "create_issue" → IsRoute api action "POST" "/issues"
  closes : action ≡ "close_issue" → (n : ℕ) → IsRoute api action "PATCH" (issue_path n "")
  edits : action ≡ "edit_issue" → (n : ℕ) → IsRoute api action "PATCH" (issue_path n "")
  labels : action ≡ "add_label" → (n : ℕ) → IsRoute api action "POST" (issue_path n "/labels")
  unlabels :
      action ≡ "remove_label"
      → (n : ℕ) (label : String)
      → IsRoute api action "DELETE" (issue_path n ("/labels/" <> api.quote "" label))
  refs : action ≡ "create_branch" → IsRoute api action "POST" "/git/refs"
  files :
      action ≡ "update_file" → (path : String) → IsRoute api action "PUT" (contents_path api path)
  pulls : action ≡ "open_pr" → IsRoute api action "POST" "/pulls"

module _ (api : Api) where
  -- A request of the app itself, signed at a reading of the clock: for the installation of the
  -- repository, or for a token of an installation
  pub data IsCredential (owner repo : String) : Request → Type 0 where
    finds :
        (k : ℕ)
        → IsCredential owner repo (
            app_request api "GET"
              ("/repos/" <> (owner <> ("/" <> (repo <> "/installation"))))
              (jwt_at api (api.clock k)))
    issues_token :
        (k id : ℕ)
        → IsCredential owner repo (
            app_request api "POST"
              ("/app/installations/" <> (decimal id <> "/access_tokens"))
              (jwt_at api (api.clock k)))

  -- The call of an action on the repository, with a token of the installation
  abbrev IsCall : String → String → String → Request → Type 0
  IsCall owner repo action r =
      (method : String) × (path : String) × (body : Option Json) × (token : String) × IsRoute api
        action method path
      × (r ≡ repo_request api owner repo method path body token)

  abbrev AtMostOne : String → String → String → List Request → Type 0
  AtMostOne owner repo action [] = Unit
  AtMostOne owner repo action (r ∷ []) = IsCall owner repo action r
  AtMostOne owner repo action (r ∷ q ∷ rest) = ⊥

  -- What was sent from one state to the other: requests for credentials, and at most one call.
  pub record Traffic (owner repo action : String) (s s' : State) : Type 0 where
    pub credentials : List Request
    pub calls : List Request
    pub sent : s'.sent ≡ s.sent ++ (credentials ++ calls)
    pub of_app : All (IsCredential owner repo) credentials
    pub one_call : AtMostOne owner repo action calls

  pub quiet-Traffic : (owner repo action : String) (s : State) → Traffic owner repo action s s
  quiet-Traffic owner repo action s = record {
    credentials = [];
    calls = [];
    sent = sym (append-nil s.sent);
    of_app = tt;
    one_call = tt;
  }

  abbrev Asks : String → String → State → State → Type 0
  Asks owner repo s s' =
      (asked : List Request) × (s'.sent ≡ s.sent ++ asked) × All (IsCredential owner repo) asked

  fetch_installation_id-Asks :
      (owner repo : String) (s : State)
      → Asks owner repo s (fetch_installation_id api owner repo s).1
  unfolding fetch_installation_id send generate_jwt
  fetch_installation_id-Asks owner repo s =
      let path = "/repos/" <> (owner <> ("/" <> (repo <> "/installation"))) in
      let jwt = jwt_at api (api.clock s.reads) in
      (app_request api "GET" path jwt ∷ [], ground arith, (finds (s.reads), tt))

  get_installation_id-Asks :
      (owner repo : String) (s : State) → Asks owner repo s (get_installation_id api owner repo s).1
  unfolding get_installation_id
  get_installation_id-Asks owner repo s =
      elim (Option-cases (find_id owner repo s.installation_ids)) [
        | inl unknown ↦ rw unknown (fetch_installation_id-Asks owner repo s)
        | inr (id, known) ↦ rw known ([], sym (append-nil s.sent), tt)
      ]

  fetch_token-Asks :
      (owner repo : String) (id : ℕ) (s : State) → Asks owner repo s (fetch_token api id s).1
  unfolding fetch_token send generate_jwt
  fetch_token-Asks owner repo id s =
      let path = "/app/installations/" <> (decimal id <> "/access_tokens") in
      let jwt = jwt_at api (api.clock s.reads) in
      (app_request api "POST" path jwt ∷ [], ground arith, (issues_token (s.reads) id, tt))

  get_installation_token-Asks :
      (owner repo : String) (id : ℕ) (s : State)
      → Asks owner repo s (get_installation_token api id s).1
  unfolding get_installation_token read_clock
  get_installation_token-Asks owner repo id s =
      elim (Option-cases (find_token id s.installation_tokens)) [
        | inl unknown ↦
            rw unknown (fetch_token-Asks owner repo id (record s { reads = s.reads + 1 }))
        | inr (cached, known) ↦ elim (Bool-cases (is_fresh cached (api.clock s.reads))) [
          | inl fresh ↦ rw (known, fresh) ([], sym (append-nil s.sent), tt)
          | inr stale ↦
              rw (known, stale) (fetch_token-Asks owner repo id (record s { reads = s.reads + 1 }))
        ]
      ]

  Asks-trans :
      (owner repo : String) (s t u : State)
      → Asks owner repo s t
      → Asks owner repo t u
      → Asks owner repo s u
  Asks-trans owner repo s t u (xs, e, h) (ys, f, k) = (
    xs ++ ys,
    f ∙ (rw e (append_assoc s.sent xs ys)),
    All-append (IsCredential owner repo) xs ys h k,
  )

  installation_token_for_repo-Asks :
      (owner repo : String) (s : State)
      → Asks owner repo s (installation_token_for_repo api owner repo s).1
  unfolding installation_token_for_repo
  installation_token_for_repo-Asks owner repo s =
      let got = get_installation_id api owner repo s in
      let first = get_installation_id-Asks owner repo s in
      elim (Result-cases got.0) [
        | inl (e, failed) ↦ rw failed first
        | inr (id, known) ↦ rw known (
            Asks-trans owner repo s got.1 (get_installation_token api id got.1).1 first
              (get_installation_token-Asks owner repo id got.1))
      ]

  pub call_repo-Traffic :
      (owner repo action method path : String) (body : Option Json) (s : State)
      → IsRoute api action method path
      → Traffic owner repo action s (call_repo api owner repo method path body s).1
  unfolding call_repo send
  call_repo-Traffic owner repo action method path body s route =
      let got = installation_token_for_repo api owner repo s in
      let (asked, sent, of_app) = installation_token_for_repo-Asks owner repo s in
      elim (Result-cases got.0) [
        | inl (e, failed) ↦ rw failed (record {
          credentials = asked;
          calls = [];
          sent = rw (append-nil asked) sent;
          of_app = of_app;
          one_call = tt;
        })
        | inr (token, granted) ↦ rw granted (record {
          credentials = asked;
          calls = repo_request api owner repo method path body token ∷ [];
          sent =
              rw sent (
                append_assoc s.sent asked
                  (repo_request api owner repo method path body token ∷ []));
          of_app = of_app;
          one_call = (method, path, body, token, route, refl);
        })
      ]
