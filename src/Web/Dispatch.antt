-- ===== src/Web/Dispatch.antt =====
-- web/dispatch.py: the handlers of the webhook events and the table that routes to them.
use gita.Base.{
  String, ◌<>◌, Bool, not, ◌||◌, Option, none, some, List, [], ◌∷◌, ◌==◌, if◌then◌else◌,
  attribute_error, type_error, Result, ok, err, ◌>>=◌,
}
use gita.Base.Text.{lower}
use gita.Web.Json.{Json, null, str, arr, obj, end, get, get_or, get_dict, truthy, to_str}

pub record JobRequest : Type 0 where
  pub function_name : String
  pub job_id : String
  pub repo_full_name : String
  pub kwargs : List (String × Json)

-- `v.lower()`, a method of texts
abbrev pub lower_text : Json → Result String
lower_text (str s) = ok (lower s)
lower_text _ = err attribute_error

-- The table's key for `action`: `None`, a text, another value that can be hashed, or one that cannot.
pub data Handler : Type 0 where
  pr_review onboarding push_reindex : Handler

pub data Action : Type 0 where
  missing : Action
  named : String → Action
  other : Action

abbrev pub hashed : Json → Result Action
hashed null = ok missing
hashed (str s) = ok (named s)
hashed (arr items) = err type_error
hashed (obj fields) = err type_error
hashed _ = ok other

abbrev pub is_named : String → Action → Bool
is_named t (named s) = s == t
is_named t _ = Bool.false

abbrev pub is_missing : Action → Bool
is_missing missing = Bool.true
is_missing _ = Bool.false

-- `EVENT_HANDLERS.get((event_type, action))`
unfoldable pub event_handler : String → Action → Option Handler
event_handler event_type action =
    if event_type == "pull_request"
    then (if is_named "opened" action || is_named "synchronize" action
        then some pr_review
        else none)
    else if event_type == "issues"
    then (if is_named "opened" action then some onboarding else none)
    else if event_type == "push"
    then (if is_missing action then some push_reindex else none)
    else none

-- The handler that is called: the exact entry, or else the entry of the event for every action.
unfoldable pub find_handler : String → Action → Option Handler
find_handler event_type action = elim (event_handler event_type action) [
  | some h ↦ some h
  | none ↦ event_handler event_type missing
]

module _ (repr : Json → String) where
  abbrev pub review_job : String → Json → Json → Json → JobRequest
  review_job repo_lower pr_number repo_full_name head_sha = record {
    function_name = "review_pr";
    job_id = "review-pr:" <> (repo_lower <> (":" <> to_str repr pr_number));
    repo_full_name = repo_lower;
    kwargs =
        ("repo_full_name", repo_full_name) ∷ ("pr_number", pr_number) ∷ ("head_sha", head_sha) ∷ [];
  }

  unfoldable pub handle_pr_review : Json → Result (Option JobRequest)
  handle_pr_review payload = do
    pr ← get_dict "pull_request" payload
    repo ← get_dict "repository" payload
    pr_number ← get "number" pr
    repo_full_name ← get "full_name" repo
    if not (truthy pr_number) || not (truthy repo_full_name) then ok none else (do
      repo_lower ← lower_text repo_full_name
      head ← get_or "head" (obj end) pr
      head_sha ← get "sha" head
      ok (some (review_job repo_lower pr_number repo_full_name head_sha)))

  abbrev pub onboarding_job : String → Json → Json → JobRequest
  onboarding_job repo_lower issue_number repo_full_name = record {
    function_name = "onboard_repo";
    job_id = "onboard:" <> (repo_lower <> (":" <> to_str repr issue_number));
    repo_full_name = repo_lower;
    kwargs = ("repo_full_name", repo_full_name) ∷ ("issue_number", issue_number) ∷ [];
  }

  unfoldable pub handle_onboarding : Json → Result (Option JobRequest)
  handle_onboarding payload = do
    issue ← get_dict "issue" payload
    repo ← get_dict "repository" payload
    issue_number ← get "number" issue
    repo_full_name ← get "full_name" repo
    if not (truthy issue_number) || not (truthy repo_full_name) then ok none else (do
      repo_lower ← lower_text repo_full_name
      ok (some (onboarding_job repo_lower issue_number repo_full_name)))

  abbrev pub reindex_job : String → Json → Json → JobRequest
  reindex_job repo_lower after_sha repo_full_name = record {
    function_name = "reindex_repo";
    job_id =
        "reindex:"
        <> (repo_lower <> (":" <> (if truthy after_sha then to_str repr after_sha else "unknown")));
    repo_full_name = repo_lower;
    kwargs = ("repo_full_name", repo_full_name) ∷ ("after_sha", after_sha) ∷ [];
  }

  unfoldable pub handle_push_reindex : Json → Result (Option JobRequest)
  handle_push_reindex payload = do
    repo ← get_dict "repository" payload
    repo_full_name ← get "full_name" repo
    after_sha ← get "after" payload
    if not (truthy repo_full_name) then ok none else (do
      repo_lower ← lower_text repo_full_name
      ok (some (reindex_job repo_lower after_sha repo_full_name)))

  abbrev pub run_handler : Option Handler → Json → Result (Option JobRequest)
  run_handler none payload = ok none
  run_handler (some pr_review) payload = handle_pr_review payload
  run_handler (some onboarding) payload = handle_onboarding payload
  run_handler (some push_reindex) payload = handle_push_reindex payload

  unfoldable pub dispatch_event : String → Json → Json → Result (Option JobRequest)
  unfolding find_handler
  dispatch_event event_type action payload = do
    key ← hashed action
    run_handler (find_handler event_type key) payload
