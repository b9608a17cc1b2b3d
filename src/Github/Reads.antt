-- ===== src/Github/Reads.antt =====
-- The calls of github/client.py that read pull requests, with their files, and refs.
pub mod Pages
use gita.Base.{
  ℕ, zero, suc, ◌+◌, String, ◌<>◌, Option, none, some, List, [], ◌∷◌, ◌++◌, ltb, length,
  if◌then◌else◌, type_error, Result, ok, err,
}
use gita.Base.Text.{decimal}
use gita.Base.Exec.{Exec, pure, lift, ◌>>=◌}
use gita.Web.Json.{
  Json, num, str, arr, obj, Items, nil, item, Fields, end, field, get, get_or, truthy,
}
use gita.Github.Http.{Api, State, json_of, send, index}
use gita.Github.Tokens.{installation_token_for_repo}
use gita.Github.Writes.{call_repo, repo_request}

pub record PrInfo : Type 0 where
  pub number : Json
  pub title : Json
  pub body : Json
  pub author : Json
  pub state : Json
  pub base_ref : Json
  pub head_ref : Json
  pub head_sha : Json
  pub changed_files : Json
  pub additions : Json
  pub deletions : Json
  pub html_url : Json

pub record RefInfo : Type 0 where
  pub ref : Json
  pub sha : Json
  pub url : Json

-- What a loop over a JSON value yields
abbrev pub listed : Items → List Json
listed nil = []
listed (item v rest) = v ∷ listed rest

abbrev pub keys : Fields → List Json
keys end = []
keys (field k v rest) = str k ∷ keys rest

unfoldable pub characters : String → List Json
characters String.[] = []
characters (String.◌∷◌ c s) = str (String.◌∷◌ c "") ∷ characters s

abbrev pub iterated : Json → Result (List Json)
iterated (arr xs) = ok (listed xs)
iterated (obj fields) = ok (keys fields)
iterated (str s) = ok (characters s)
iterated _ = err type_error

abbrev pub page_path : ℕ → ℕ → String
page_path number page =
    "/pulls/" <> (decimal number <> ("/files?per_page=100&page=" <> decimal page))

module _ (api : Api) where
  open api use {quote}

  -- The JSON of a GET
  abbrev pub read_json : String → String → String → Exec State Json
  read_json owner repo path = do
    response ← call_repo api owner repo "GET" path none
    lift (json_of response.body)

  -- `data.get(key, {}).get(name, "")`
  abbrev pub nested : String → String → Json → Result Json
  nested k name payload = elim (get_or k (obj end) payload) [
    | err e ↦ err e
    | ok found ↦ get_or name (str "") found
  ]

  unfoldable pub get_pr : String → String → ℕ → Exec State PrInfo
  get_pr owner repo number = do
    payload ← read_json owner repo ("/pulls/" <> decimal number)
    id ← lift (index "number" payload)
    title ← lift (get_or "title" (str "") payload)
    body ← lift (get "body" payload)
    author ← lift (nested "user" "login" payload)
    state ← lift (get_or "state" (str "open") payload)
    base_ref ← lift (nested "base" "ref" payload)
    head_ref ← lift (nested "head" "ref" payload)
    head_sha ← lift (nested "head" "sha" payload)
    changed_files ← lift (get_or "changed_files" (num 0) payload)
    additions ← lift (get_or "additions" (num 0) payload)
    deletions ← lift (get_or "deletions" (num 0) payload)
    html_url ← lift (get_or "html_url" (str "") payload)
    pure (record {
      number = id;
      title = title;
      body = if truthy body then body else str "";
      author = author;
      state = state;
      base_ref = base_ref;
      head_ref = head_ref;
      head_sha = head_sha;
      changed_files = changed_files;
      additions = additions;
      deletions = deletions;
      html_url = html_url;
    })

  -- One page
  unfoldable pub get_page : String → String → ℕ → String → ℕ → Exec State Json
  get_page owner repo number token page = do
    response ← send api (repo_request api owner repo "GET" (page_path number page) none token)
    lift (json_of response.body)

  -- The loop, which has read the files `all_files`. Without fuel it has no result.
  unfoldable pub get_pages :
      ℕ → String → String → ℕ → String → ℕ → List Json → Exec State (Option (List Json))
  get_pages zero owner repo number token page all_files = pure none
  get_pages (suc fuel) owner repo number token page all_files =
      let next = λ (files : List Json). get_pages fuel owner repo number token (page + 1) files in
      let more = λ (batch : List Json).
        if ltb (length batch) 100
        then pure (some (all_files ++ batch))
        else next (all_files ++ batch) in
      let read : Json → Exec State (Option (List Json)) =
        λ batch. if truthy batch then lift (iterated batch) >>= more else pure (some all_files) in
      get_page owner repo number token page >>= read

  unfoldable pub get_pr_files : ℕ → String → String → ℕ → Exec State (Option (List Json))
  get_pr_files fuel owner repo number = do
    token ← installation_token_for_repo api owner repo
    get_pages fuel owner repo number token 1 []

  unfoldable pub get_ref : String → String → String → Exec State RefInfo
  get_ref owner repo ref = do
    payload ← read_json owner repo ("/git/ref/" <> quote "/" ref)
    name ← lift (get_or "ref" (str "") payload)
    sha ← lift (nested "object" "sha" payload)
    url ← lift (get_or "url" (str "") payload)
    pure (record { ref = name; sha = sha; url = url })
