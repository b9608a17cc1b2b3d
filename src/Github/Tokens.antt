-- ===== src/Github/Tokens.antt =====
-- Which token a request carries: the two caches of github/client.py.
pub mod Fresh
use Prim.Native.Char.{code}
use gita.Base.{
  ℕ, ◌+◌, String, ◌<>◌, Bool, ◌&&◌, Option, none, some, List, [], ◌∷◌, ◌==◌, eqb, ltb,
  if◌then◌else◌, Result, ok, err, value_error, attribute_error,
}
use gita.Base.Text.{decimal}
use gita.Base.Exec.{Exec, pure, lift, ◌>>=◌}
use gita.Web.Json.{Json, str, to_str}
use gita.Github.Http.{
  Request, CachedToken, Api, State, index, json_of, int_json, send, read_clock, generate_jwt,
}

abbrev pub github_api : String
github_api = "https://api.github.com"

abbrev pub token_refresh_skew : ℕ
token_refresh_skew = 300000000

unfoldable pub is_fresh : CachedToken → ℕ → Bool
is_fresh cached now = ltb (now + token_refresh_skew) cached.expires_at

unfoldable pub find_id : String → String → List ((String × String) × ℕ) → Option ℕ
find_id owner repo [] = none
find_id owner repo (((o, r), id) ∷ ids) =
    if o == owner && r == repo then some id else find_id owner repo ids

unfoldable pub find_token : ℕ → List (ℕ × CachedToken) → Option CachedToken
find_token id [] = none
find_token id ((i, cached) ∷ tokens) = if eqb i id then some cached else find_token id tokens

-- `s.replace("Z", "+00:00")`
unfoldable pub replace_z : String → String
replace_z String.[] = ""
replace_z (String.◌∷◌ c s) =
    let rest = replace_z s in if eqb (code c) b'Z' then "+00:00" <> rest else String.◌∷◌ c rest

module _ (api : Api) where
  open api use {from_iso, repr}

  -- `datetime.fromisoformat(v.replace("Z", "+00:00"))`
  abbrev pub instant : Option ℕ → Result ℕ
  instant none = err value_error
  instant (some t) = ok t

  unfoldable pub expiry : Json → Result ℕ
  expiry (str s) = instant (from_iso (replace_z s))
  expiry _ = err attribute_error

  abbrev pub app_request : String → String → String → Request
  app_request method path jwt = record {
    method = method;
    url = github_api <> path;
    authorization = "Bearer " <> jwt;
    body = none;
  }

  abbrev pub remember_id : String → String → ℕ → Exec State ℕ
  remember_id owner repo id s =
      (ok id, record s { installation_ids = ((owner, repo), id) ∷ s.installation_ids })

  unfoldable pub fetch_installation_id : String → String → Exec State ℕ
  fetch_installation_id owner repo = do
    jwt ← generate_jwt api
    response ←
        send api
          (app_request "GET" ("/repos/" <> (owner <> ("/" <> (repo <> "/installation")))) jwt)
    payload ← lift (json_of response.body)
    raw ← lift (index "id" payload)
    id ← lift (int_json api raw)
    remember_id owner repo id

  abbrev pub id_or_fetch : String → String → Option ℕ → Exec State ℕ
  id_or_fetch owner repo none = fetch_installation_id owner repo
  id_or_fetch owner repo (some id) = pure id

  unfoldable pub get_installation_id : String → String → Exec State ℕ
  get_installation_id owner repo s =
      id_or_fetch owner repo (find_id owner repo s.installation_ids) s

  abbrev pub remember_token : ℕ → String → ℕ → Exec State String
  remember_token id token expires s = (
    ok token,
    record s {
      installation_tokens =
          (id, record { token = token; expires_at = expires }) ∷ s.installation_tokens;
    },
  )

  unfoldable pub fetch_token : ℕ → Exec State String
  fetch_token id = do
    jwt ← generate_jwt api
    response ←
        send api
          (app_request "POST" ("/app/installations/" <> (decimal id <> "/access_tokens")) jwt)
    payload ← lift (json_of response.body)
    raw ← lift (index "expires_at" payload)
    expires ← lift (expiry raw)
    token ← lift (index "token" payload)
    remember_token id (to_str repr token) expires

  abbrev pub token_or_fetch : ℕ → ℕ → Option CachedToken → Exec State String
  token_or_fetch id now none = fetch_token id
  token_or_fetch id now (some cached) =
      if is_fresh cached now then pure cached.token else fetch_token id

  abbrev pub cached_or_fetch : ℕ → ℕ → Exec State String
  cached_or_fetch id now s = token_or_fetch id now (find_token id s.installation_tokens) s

  unfoldable pub get_installation_token : ℕ → Exec State String
  get_installation_token id = read_clock api >>= cached_or_fetch id

  unfoldable pub installation_token_for_repo : String → String → Exec State String
  installation_token_for_repo owner repo = get_installation_id owner repo >>= get_installation_token
