-- ===== src/Github/Writes.antt =====
-- The calls of github/client.py that change a repository: one request each, with a token of the
-- installation, and the dict that tells what GitHub answered.
use gita.Base.{
  ℕ, String, ◌<>◌, Bool, true, false, Option, none, some, List, [], ◌∷◌, if◌then◌else◌, Result, ok,
  err,
}
use gita.Base.Text.{decimal}
use gita.Base.Exec.{Exec, pure, lift, ◌>>=◌}
use gita.Web.Json.{
  Json, flag, num, str, arr, obj, Items, nil, item, Fields, end, field, get, get_or, truthy,
}
use gita.Github.Http.{Request, Response, Api, State, json_of, send}
use gita.Github.Tokens.{github_api, installation_token_for_repo}

-- A dict that a handler returns
abbrev pub Effect : Type 0
Effect = List (String × Json)

abbrev pub repo_path : String → String → String → String
repo_path owner repo path = github_api <> ("/repos/" <> (owner <> ("/" <> (repo <> path))))

abbrev pub issue_path : ℕ → String → String
issue_path issue rest = "/issues/" <> (decimal issue <> rest)

abbrev pub full_name : String → String → Json
full_name owner repo = str (owner <> ("/" <> repo))

-- A list of texts
abbrev pub texts : List String → Items
texts [] = nil
texts (s ∷ rest) = item (str s) (texts rest)

-- `row.get("name")` of each row
unfoldable pub names : Items → Result Items
names nil = ok nil
names (item row rest) = elim (get "name" row) [
  | err e ↦ err e
  | ok name ↦ elim (names rest) [ err e ↦ err e | ok more ↦ ok (item name more) ]
]

-- `[row.get("name") for row in data] if isinstance(data, list) else []`
abbrev pub applied_labels : Json → Result Items
applied_labels (arr rows) = names rows
applied_labels _ = ok nil

abbrev pub with_labels : List String → Fields
with_labels [] = end
with_labels (l ∷ labels) = field "labels" (arr (texts (l ∷ labels))) end

abbrev pub text_field : String → Option String → Fields → Fields
text_field k none rest = rest
text_field k (some s) rest = field k (str s) rest

module _ (api : Api) where
  open api use {quote, b64encode}

  abbrev pub repo_request : String → String → String → String → Option Json → String → Request
  repo_request owner repo method path body token = record {
    method = method;
    url = repo_path owner repo path;
    authorization = "token " <> token;
    body = body;
  }

  -- A token, and a request that carries it
  unfoldable pub call_repo : String → String → String → String → Option Json → Exec State Response
  call_repo owner repo method path body = do
    token ← installation_token_for_repo api owner repo
    send api (repo_request owner repo method path body token)

  -- `response.json()` of such a call
  abbrev pub call_json : String → String → String → String → Json → Exec State Json
  call_json owner repo method path body = do
    response ← call_repo owner repo method path (some body)
    lift (json_of response.body)

  unfoldable pub post_comment : String → String → ℕ → String → Exec State Effect
  post_comment owner repo issue body = do
    payload ←
        call_json owner repo "POST" (issue_path issue "/comments")
          (obj (field "body" (str body) end))
    id ← lift (get "id" payload)
    html_url ← lift (get "html_url" payload)
    pure (
        ("kind", str "comment")
        ∷ ("id", id)
        ∷ ("html_url", html_url)
        ∷ ("issue", num issue)
        ∷ ("repo", full_name owner repo)
        ∷ [])

  unfoldable pub create_issue : String → String → String → String → List String → Exec State Effect
  create_issue owner repo title body labels = do
    payload ←
        call_json owner repo "POST" "/issues"
          (obj (field "title" (str title) (field "body" (str body) (with_labels labels))))
    number ← lift (get "number" payload)
    node_id ← lift (get "node_id" payload)
    html_url ← lift (get "html_url" payload)
    pure (
        ("kind", str "issue")
        ∷ ("id", number)
        ∷ ("node_id", node_id)
        ∷ ("html_url", html_url)
        ∷ ("repo", full_name owner repo)
        ∷ ("title", str title)
        ∷ [])

  unfoldable pub close_issue : String → String → ℕ → Exec State Effect
  close_issue owner repo issue = do
    payload ←
        call_json owner repo "PATCH" (issue_path issue "") (obj (field "state" (str "closed") end))
    number ← lift (get_or "number" (num issue) payload)
    html_url ← lift (get "html_url" payload)
    state ← lift (get "state" payload)
    pure (
        ("kind", str "close_issue")
        ∷ ("id", number)
        ∷ ("html_url", html_url)
        ∷ ("state", state)
        ∷ ("repo", full_name owner repo)
        ∷ [])

  unfoldable pub edit_issue :
      String → String → ℕ → Option String → Option String → Exec State Effect
  edit_issue owner repo issue title body = do
    payload ←
        call_json owner repo "PATCH" (issue_path issue "")
          (obj (text_field "title" title (text_field "body" body end)))
    number ← lift (get_or "number" (num issue) payload)
    html_url ← lift (get "html_url" payload)
    pure (
        ("kind", str "edit_issue")
        ∷ ("id", number)
        ∷ ("html_url", html_url)
        ∷ ("repo", full_name owner repo)
        ∷ [])

  unfoldable pub add_labels : String → String → ℕ → List String → Exec State Effect
  add_labels owner repo issue labels = do
    payload ←
        call_json owner repo "POST" (issue_path issue "/labels")
          (obj (field "labels" (arr (texts labels)) end))
    applied ← lift (applied_labels payload)
    pure (
        ("kind", str "add_label")
        ∷ ("id", num issue)
        ∷ ("repo", full_name owner repo)
        ∷ ("labels", arr applied)
        ∷ [])

  unfoldable pub remove_label : String → String → ℕ → String → Exec State Effect
  remove_label owner repo issue label = do
    response ← call_repo owner repo "DELETE" (issue_path issue ("/labels/" <> quote "" label)) none
    pure (
        ("kind", str "remove_label")
        ∷ ("id", num issue)
        ∷ ("repo", full_name owner repo)
        ∷ ("label", str label)
        ∷ [])

  unfoldable pub create_ref : String → String → String → String → Exec State Effect
  create_ref owner repo ref_name sha = do
    payload ←
        call_json owner repo "POST" "/git/refs"
          (obj (field "ref" (str ref_name) (field "sha" (str sha) end)))
    ref ← lift (get "ref" payload)
    object ← lift (get_or "object" (obj end) payload)
    stored ← lift (get "sha" object)
    url ← lift (get "url" payload)
    pure (
        ("kind", str "create_branch")
        ∷ ("ref", ref)
        ∷ ("sha", stored)
        ∷ ("url", url)
        ∷ ("repo", full_name owner repo)
        ∷ [])

  -- `data.get(key, {}) or {}`
  abbrev pub dict_field : String → Json → Result Json
  dict_field k payload = elim (get_or k (obj end) payload) [
    | err e ↦ err e
    | ok found ↦ ok (if truthy found then found else obj end)
  ]

  abbrev pub contents_path : String → String
  contents_path path = "/contents/" <> quote "/" path

  abbrev pub file_body : String → String → String → Option String → Json
  file_body message content branch sha = obj (
      field "message" (str message) (
        field "content" (str (b64encode content))
          (field "branch" (str branch) (text_field "sha" sha end))))

  abbrev pub file_kind : Option String → String
  file_kind none = "create_file"
  file_kind (some sha) = "update_file"

  unfoldable pub create_or_update_file :
      String → String → String → String → String → String → Option String → Exec State Effect
  create_or_update_file owner repo path message content branch sha = do
    payload ← call_json owner repo "PUT" (contents_path path) (file_body message content branch sha)
    content_data ← lift (dict_field "content" payload)
    commit_data ← lift (dict_field "commit" payload)
    commit_sha ← lift (get "sha" commit_data)
    stored_path ← lift (get_or "path" (str path) content_data)
    content_sha ← lift (get "sha" content_data)
    html_url ← lift (get "html_url" content_data)
    pure (
        ("kind", str (file_kind sha))
        ∷ ("path", stored_path)
        ∷ ("content_sha", content_sha)
        ∷ ("commit_sha", commit_sha)
        ∷ ("html_url", html_url)
        ∷ ("branch", str branch)
        ∷ ("repo", full_name owner repo)
        ∷ [])

  abbrev pub draft_field : Bool → Fields
  draft_field false = end
  draft_field true = field "draft" (flag true) end

  unfoldable pub create_pull :
      String → String → String → String → String → String → Bool → Exec State Effect
  create_pull owner repo title body head base draft = do
    payload ← call_json owner repo "POST" "/pulls" (
        obj (
          field "title" (str title) (
            field "body" (str body)
              (field "head" (str head) (field "base" (str base) (draft_field draft))))))
    number ← lift (get "number" payload)
    html_url ← lift (get "html_url" payload)
    state ← lift (get "state" payload)
    pure (
        ("kind", str "open_pr")
        ∷ ("number", number)
        ∷ ("html_url", html_url)
        ∷ ("head", str head)
        ∷ ("base", str base)
        ∷ ("state", state)
        ∷ ("repo", full_name owner repo)
        ∷ [])
