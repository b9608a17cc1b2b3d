-- ===== src/Github/Client/Trace.antt =====
-- What the ledger can tell of an action from the dict that the client returns.
use gita.Base.{
  String, ◌≡◌, refl, sym, ap, ◌∙◌, Bool, true, false, ◌||◌, Bool-cases, Result-cases, inl, inr,
  Option, none, some, [], ◌∷◌, ◌==◌, eq_iff, arith, is_some, Result, ok, err,
}
use gita.Base.Exec.{Exec}
use gita.Value.{Value, Dict, flag, get, get_or, truthy, to_str}
use gita.Web.Json.{Json}
use gita.Platform.{Platform}
use gita.Agents.Decision.{Decision}
use gita.Agents.Gate.{external_id_from_side_effect}
use gita.Github.Http.{Api, State}
use gita.Github.Writes.{Effect, create_ref, create_or_update_file, create_pull}
use gita.Github.Client.{
  owner_and_repo, optional_text, or_blank, run_create_branch, run_update_file, run_open_pr,
  branch_of, execute,
}

-- A JSON value among the values of a decision's dicts; a list or a dict is printed.
abbrev pub as_value : (Json → String) → Json → Value
as_value repr Json.null = Value.null
as_value repr (Json.flag b) = Value.flag b
as_value repr (Json.num n) = Value.num n
as_value repr (Json.str s) = Value.str s
as_value repr v = Value.str (repr v)

abbrev pub as_dict : (Json → String) → Effect → Dict
as_dict repr [] = []
as_dict repr ((k, v) ∷ rest) = (k, as_value repr v) ∷ as_dict repr rest

module _ (api : Api) where
  -- Whether the ledger finds an id in what a chain returned
  abbrev pub is_traced : Result Effect → Bool
  is_traced (err e) = false
  is_traced (ok effect) = is_some (external_id_from_side_effect (some (as_dict api.repr effect)))

  abbrev Untraced : Exec State Effect → Type 0
  Untraced m = (s : State) → is_traced (m s).0 ≡ false

  create_ref-Untraced :
      (owner repo ref_name sha : String) → Untraced (create_ref api owner repo ref_name sha)
  unfolding create_ref external_id_from_side_effect get
  create_ref-Untraced owner repo ref_name sha s = ground arith

  create_or_update_file-Untraced :
      (owner repo path message content branch : String) (sha : Option String)
      → Untraced (create_or_update_file api owner repo path message content branch sha)
  unfolding create_or_update_file external_id_from_side_effect get
  create_or_update_file-Untraced owner repo path message content branch sha s = ground arith

  create_pull-Untraced :
      (owner repo title body head base : String) (draft : Bool)
      → Untraced (create_pull api owner repo title body head base draft)
  unfolding create_pull external_id_from_side_effect get
  create_pull-Untraced owner repo title body head base draft s = ground arith

  -- The actions that write code
  abbrev pub is_code_action : String → Bool
  is_code_action action =
      action == "create_branch" || (action == "update_file" || action == "open_pr")

  module _ (owner repo : String) (target payload : Dict) where
    run_create_branch-Untraced : Untraced (run_create_branch api owner repo target payload)
    unfolding run_create_branch
    run_create_branch-Untraced s = ground (
      arith,
      create_ref-Untraced owner repo (to_str (get "ref" payload)) (to_str (get "base_sha" payload))
          s,
    )

    run_update_file-Untraced : Untraced (run_update_file api owner repo target payload)
    unfolding run_update_file
    run_update_file-Untraced s = ground (
      arith,
      create_or_update_file-Untraced owner repo (to_str (get "path" payload))
          (to_str (get "message" payload)) (to_str (get "content" payload))
          (to_str (get "branch" payload)) (optional_text (get "sha" payload)) s,
    )

    run_open_pr-Untraced : Untraced (run_open_pr api owner repo target payload)
    unfolding run_open_pr
    run_open_pr-Untraced s = ground (
      arith,
      create_pull-Untraced owner repo (to_str (get "title" payload))
          (to_str (or_blank (get "body" payload))) (to_str (get "head" payload))
          (to_str (get "base" payload)) (truthy (get_or "draft" (flag false) payload)) s,
    )

    branch_of-Untraced :
        (action : String)
        → is_code_action action ≡ true
        → Untraced (branch_of api action owner repo target payload)
    unfolding branch_of
    branch_of-Untraced action h = elim (Bool-cases (action == "create_branch")) [
      | inl branch ↦ rw ((eq_iff action "create_branch").0 branch) run_create_branch-Untraced
      | inr other ↦ elim (Bool-cases (action == "update_file")) [
        | inl file ↦ rw ((eq_iff action "update_file").0 file) run_update_file-Untraced
        | inr third ↦
            let pull : (action == "open_pr") ≡ true = ground arith in
            rw ((eq_iff action "open_pr").0 pull) run_open_pr-Untraced
      ]
    ]

  execute-Untraced :
      (p : Platform) (d : Decision p) → is_code_action d.action ≡ true → Untraced (execute api p d)
  unfolding execute
  execute-Untraced p d h s = elim (Bool-cases (truthy (get "repo" d.target))) [
    | inl given ↦ elim (Result-cases (owner_and_repo (to_str (get "repo" d.target)))) [
      | inl (e, bad) ↦ rw (given, bad) refl
      | inr ((owner, repo), named) ↦
          rw (given, named) (branch_of-Untraced owner repo d.target d.payload d.action h s)
    ]
    | inr missing ↦ rw missing refl
  ]

  is_some-none : {A : Type 0} (o : Option A) → is_some o ≡ false → o ≡ none
  is_some-none none h = refl
  is_some-none (some a) h = cc

  -- If the client executed a decision to create a branch, write a file or open a pull request, then
  -- the dict that it returned gives the ledger no external id.
  pub external_id-execute :
      (p : Platform) (d : Decision p) (s s' : State) (effect : Effect)
      → is_code_action d.action ≡ true
      → execute api p d s ≡ (ok effect, s')
      → external_id_from_side_effect (some (as_dict api.repr effect)) ≡ none
  external_id-execute p d s s' effect code h =
      is_some-none (external_id_from_side_effect (some (as_dict api.repr effect)))
        (sym (ap (λ o. is_traced o.0) h) ∙ execute-Untraced p d code s)
