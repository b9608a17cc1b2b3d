-- ===== src/Tests/Github.antt =====
-- The client against a small server.
use gita.Base.{
  ℕ, ◌+◌, ◌≡◌, refl, Option, none, some, List, [], ◌∷◌, ◌*◌, take, map, arith, if◌then◌else◌,
  Result, ok,
}
use gita.Base.Text.{decimal, ends_with}
use gita.Value.{Value, get, to_str}
use gita.Platform.{cents}
use gita.Web.Json.{Json, arr, obj, field, end, str, num, item, nil, get_or, to_str as json_str}
use gita.Agents.Decision.{Decision}
use gita.Agents.Gate.{external_id_from_side_effect}
use gita.Github.Http.{
  index_field, Request, Response, Api, State, send, read_clock, generate_jwt, index, int_json,
}
use gita.Github.Tokens.{
  find_id, find_token, is_fresh, get_installation_id, get_installation_token,
  installation_token_for_repo, fetch_installation_id, fetch_token, expiry, replace_z,
}
use gita.Github.Writes.{
  file_body, repo_request, contents_path, create_or_update_file, Effect, call_repo, create_pull,
}
use gita.Github.Client.{owner_and_repo, branch_of, run_open_pr, execute}
use gita.Github.Tokens.Fresh.{IsGranted, get_installation_token-IsGranted}
use gita.Github.Client.Trace.{as_dict, external_id-execute}
use gita.Github.Reads.Pages.{page_requests, page_request, to_items, drop, get_pr_files_lem}
use gita.Github.Contents.{strip_newlines, get_contents}
use gita.Github.Contents.Roundtrip.{contents_request, get_contents-create_or_update_file}
use gita.Github.Reads.{get_pr_files}

abbrev answer : ℕ → Json → Option Response
answer status body = some (record { status = status; body = some body })

abbrev readme : Json
readme = obj (
    field "encoding" (str "base64") (
      field "content" (str "hel\nlo\n")
        (field "path" (str "README") (field "sha" (str "b1") (field "size" (num 5) end)))))

-- A server with one installation, a pull request of two files, and a file
abbrev serve : List Request → Request → Option Response
serve log r =
    if ends_with r.url "/installation"
    then answer 200 (obj (field "id" (num 7) end))
    else if ends_with r.url "/access_tokens"
    then answer 201 (obj (field "token" (str "t1") (field "expires_at" (str "later") end)))
    else if ends_with r.url "page=1"
    then answer 200 (arr (item (str "f1") (item (str "f2") nil)))
    else if ends_with r.url "?ref=main"
    then answer 200 readme
    else answer 201 (obj (field "number" (num 12) end))

abbrev api : Api
api = record {
  http = serve;
  clock = λ reads. 1000000000 + reads;
  sign = λ iat exp iss. "jwt";
  app_id = "42";
  from_iso = λ text. some 4600000000;
  quote = λ safe text. text;
  b64encode = λ text. text;
  b64decode = λ text. some text;
  parse_int = λ text. none;
  repr = λ v. "[]";
}

abbrev start : State
start = record { installation_ids = []; installation_tokens = []; sent = []; reads = 0 }

abbrev pull : Decision cents
pull = record {
  action = "open_pr";
  target = ("repo", Value.str "acme/app") ∷ [];
  payload =
      ("title", Value.str "Add tests")
      ∷ ("head", Value.str "gita/tests")
      ∷ ("base", Value.str "main")
      ∷ [];
  evidence = [];
  confidence = 90;
}

-- The run, from empty caches: two requests for credentials, and the pull request
opened : Result Effect × State
unfolding execute owner_and_repo get branch_of run_open_pr create_pull call_repo
    installation_token_for_repo get_installation_id find_id fetch_installation_id send read_clock
    generate_jwt index int_json get_installation_token find_token fetch_token expiry replace_z
    decimal ends_with to_str json_str get_or
opened = execute api cents pull start

opened_urls :
    map (λ (r : Request). r.url) opened.1.sent
    ≡ "https://api.github.com/repos/acme/app/installation"
      ∷ "https://api.github.com/app/installations/7/access_tokens"
      ∷ "https://api.github.com/repos/acme/app/pulls" ∷ []
unfolding opened
opened_urls = refl

effect : Effect
effect =
    ("kind", str "open_pr")
    ∷ ("number", num 12)
    ∷ ("html_url", Json.null)
    ∷ ("head", str "gita/tests")
    ∷ ("base", str "main")
    ∷ ("state", Json.null)
    ∷ ("repo", str "acme/app")
    ∷ []

opened_effect : opened.0 ≡ ok effect
unfolding opened effect
opened_effect = refl

external_id-execute_example : external_id_from_side_effect (some (as_dict api.repr effect)) ≡ none
external_id-execute_example =
    external_id-execute api cents pull start opened.1 effect refl
      (unfold opened in unfold effect in refl)

-- A token that has six minutes left
abbrev warm : State
warm = record start {
  installation_tokens = (7, record { token = "t0"; expires_at = 1360000000 }) ∷ [];
}

get_installation_token-IsGranted_example : IsGranted api 7 "t0" warm (record warm { reads = 1 })
get_installation_token-IsGranted_example =
    get_installation_token-IsGranted api 7 "t0" warm (record warm { reads = 1 })
      (unfold get_installation_token in
        unfold read_clock in unfold find_token in unfold is_fresh in refl)

-- The repository's installation and token are known.
abbrev known : State
known = record {
  installation_ids = (("acme", "app"), 7) ∷ [];
  installation_tokens = (7, record { token = "t1"; expires_at = 4600000000 }) ∷ [];
  sent = [];
  reads = 0;
}

granted : installation_token_for_repo api "acme" "app" known ≡ (ok "t1", record known { reads = 1 })
unfolding installation_token_for_repo get_installation_id find_id get_installation_token read_clock
    find_token is_fresh
granted = refl

two_files : List Json
two_files = str "f1" ∷ str "f2" ∷ []

paged :
    (log : List Request) (k : ℕ)
    → k ≡ 0
    → serve log (page_request api "acme" "app" 3 "t1" (1 + k))
      ≡ some (record {
        status = 200;
        body = some (arr (to_items (take 100 (drop (100 * k) two_files))));
      })
unfolding two_files ends_with decimal
paged log k e = rw e refl

get_pr_files_lem_example : get_pr_files api 1 "acme" "app" 3 known ≡ (
  ok (some two_files),
  record known { reads = 1; sent = page_requests api "acme" "app" 3 "t1" 1 1 },
)
unfolding two_files
get_pr_files_lem_example =
    get_pr_files_lem api "acme" "app" 3 1 "t1" two_files known (record known { reads = 1 })
      (omega arith) (λ log k below. paged log k (omega arith)) granted

abbrev put_body : Json
put_body = file_body api "Say hello" "hello" "main" none

abbrev put_readme : Request
put_readme = repo_request api "acme" "app" "PUT" (contents_path api "README") (some put_body) "t1"

-- After the write, which asked for the time once
abbrev saved : State
saved = record known { reads = 1; sent = put_readme ∷ [] }

written_readme :
    (create_or_update_file api "acme" "app" "README" "Say hello" "hello" "main" none known).1.sent
    ≡ put_readme ∷ []
unfolding create_or_update_file call_repo installation_token_for_repo get_installation_id find_id
    get_installation_token read_clock find_token is_fresh send ends_with get_or
written_readme = refl

granted_again :
    installation_token_for_repo api "acme" "app" saved ≡ (ok "t1", record saved { reads = 2 })
unfolding installation_token_for_repo get_installation_id find_id get_installation_token read_clock
    find_token is_fresh
granted_again = refl

get_contents-create_or_update_file_example :
    get_contents api "acme" "app" "README" (some "main") saved ≡ (
      ok (record {
        path = str "README";
        content = str "hello";
        sha = str "b1";
        encoding = str "base64";
        size = 5;
      }),
      record saved {
        reads = 2;
        sent = put_readme ∷ contents_request api "acme" "app" "README" "main" "t1" ∷ [];
      },
    )
unfolding ends_with strip_newlines index index_field
get_contents-create_or_update_file_example =
    get_contents-create_or_update_file api "acme" "app" "README" "Say hello" "hello" "main" "t1"
      "t1" "hel\nlo\n" "b1" none 5 known (record known { reads = 1 }) saved
      (record saved { reads = 2 }) put_readme put_body refl granted written_readme refl refl
      granted_again refl
