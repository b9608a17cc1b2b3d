-- ===== src/Github/Client.antt =====
-- `GithubClient.execute` of github/client.py: it checks the fields of a decision, and makes the call
-- that the action names.
pub mod Sent
pub mod Execute
pub mod Trace
use Prim.Native.Char.{code}
use gita.Base.{
  String, ◌<>◌, false, not, ◌&&◌, ◌||◌, Option, none, some, ◌==◌, eqb, if◌then◌else◌, value_error,
  not_implemented, Result, ok, err,
}
use gita.Base.Exec.{Exec, lift, ◌>>=◌}
use gita.Value.{Value, null, flag, str, Dict, get, get_or, is_null, truthy, to_str}
use gita.Platform.{Platform}
use gita.Agents.Decision.{Decision}
use gita.Agents.Signature.{items}
use gita.Github.Http.{Api, State, int_value}
use gita.Github.Writes.{
  Effect, post_comment, create_issue, close_issue, edit_issue, add_labels, remove_label, create_ref,
  create_or_update_file, create_pull,
}

-- `owner, repo = s.split("/", 1)`, with what of the owner is read
split_owner : String → String → Result (String × String)
split_owner owner String.[] = err value_error
split_owner owner (String.◌∷◌ c s) =
    let longer = split_owner (owner <> String.◌∷◌ c "") s in
    if eqb (code c) b'/' then ok (owner, s) else longer

unfoldable pub owner_and_repo : String → Result (String × String)
unfolding split_owner
owner_and_repo s = split_owner "" s

-- `str(v) if v is not None else None`
abbrev pub optional_text : Value → Option String
optional_text null = none
optional_text v = some (to_str v)

abbrev pub or_blank : Value → Value
or_blank v = if truthy v then v else str ""

module _ (api : Api) where
  abbrev pub refuse : Exec State Effect
  refuse s = (err value_error, s)

  -- The branches of `execute`, each on the decision's target and payload
  unfoldable pub run_comment : String → String → Dict → Dict → Exec State Effect
  run_comment owner repo target payload =
      let issue = get "issue" target in
      let body = get "body" payload in
      let run : Exec State Effect =
        lift (int_value api issue) >>= λ n. post_comment api owner repo n (to_str body) in
      if is_null issue || not (truthy body) then refuse else run

  unfoldable pub run_create_issue : String → String → Dict → Dict → Exec State Effect
  run_create_issue owner repo target payload =
      let title = get "title" payload in
      let run : Exec State Effect = lift (items (get "labels" payload)) >>= λ labels.
      create_issue api owner repo (to_str title) (to_str (or_blank (get "body" payload))) labels in
      if truthy title then run else refuse

  unfoldable pub run_close_issue : String → String → Dict → Dict → Exec State Effect
  run_close_issue owner repo target payload =
      let issue = get "issue" target in
      let run : Exec State Effect = lift (int_value api issue) >>= close_issue api owner repo in
      if is_null issue then refuse else run

  unfoldable pub run_edit_issue : String → String → Dict → Dict → Exec State Effect
  run_edit_issue owner repo target payload =
      let issue = get "issue" target in
      let title = get "title" payload in
      let body = get "body" payload in
      let run : Exec State Effect = lift (int_value api issue) >>= λ n.
      edit_issue api owner repo n (optional_text title) (optional_text body) in
      if is_null issue || is_null title && is_null body then refuse else run

  unfoldable pub run_add_label : String → String → Dict → Dict → Exec State Effect
  run_add_label owner repo target payload =
      let issue = get "issue" target in
      let labels = get "labels" payload in
      let run : Exec State Effect = lift (int_value api issue) >>= λ n.
      lift (items labels) >>= λ texts. add_labels api owner repo n texts in
      if is_null issue || not (truthy labels) then refuse else run

  unfoldable pub run_remove_label : String → String → Dict → Dict → Exec State Effect
  run_remove_label owner repo target payload =
      let issue = get "issue" target in
      let label = get "label" payload in
      let run : Exec State Effect =
        lift (int_value api issue) >>= λ n. remove_label api owner repo n (to_str label) in
      if is_null issue || not (truthy label) then refuse else run

  unfoldable pub run_create_branch : String → String → Dict → Dict → Exec State Effect
  run_create_branch owner repo target payload =
      let ref_name = get "ref" payload in
      let base_sha = get "base_sha" payload in
      if not (truthy ref_name) || not (truthy base_sha)
      then refuse
      else create_ref api owner repo (to_str ref_name) (to_str base_sha)

  unfoldable pub run_update_file : String → String → Dict → Dict → Exec State Effect
  run_update_file owner repo target payload =
      let path = get "path" payload in
      let content = get "content" payload in
      let message = get "message" payload in
      let branch = get "branch" payload in
      if not (truthy path) || is_null content || not (truthy message) || not (truthy branch)
      then refuse
      else create_or_update_file api owner repo (to_str path) (to_str message) (to_str content)
          (to_str branch) (optional_text (get "sha" payload))

  unfoldable pub run_open_pr : String → String → Dict → Dict → Exec State Effect
  run_open_pr owner repo target payload =
      let title = get "title" payload in
      let head = get "head" payload in
      let base = get "base" payload in
      if not (truthy title) || not (truthy head) || not (truthy base)
      then refuse
      else create_pull api owner repo (to_str title) (to_str (or_blank (get "body" payload)))
          (to_str head) (to_str base) (truthy (get_or "draft" (flag false) payload))

  abbrev pub unsupported : String → String → Dict → Dict → Exec State Effect
  unsupported owner repo target payload s = (err not_implemented, s)

  -- The branch of an action
  unfoldable pub branch_of : String → String → String → Dict → Dict → Exec State Effect
  branch_of action =
      if action == "comment"
      then run_comment
      else if action == "create_issue"
      then run_create_issue
      else if action == "close_issue"
      then run_close_issue
      else if action == "edit_issue"
      then run_edit_issue
      else if action == "add_label"
      then run_add_label
      else if action == "remove_label"
      then run_remove_label
      else if action == "create_branch"
      then run_create_branch
      else if action == "update_file"
      then run_update_file
      else if action == "open_pr"
      then run_open_pr
      else unsupported

  module _ (p : Platform) where
    unfoldable pub execute : Decision p → Exec State Effect
    execute d =
        let repo_full_name = get "repo" d.target in
        let run : Exec State Effect =
          lift (owner_and_repo (to_str repo_full_name)) >>= λ (owner, repo).
          branch_of d.action owner repo d.target d.payload in
        if truthy repo_full_name then run else refuse
