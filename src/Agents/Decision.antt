-- ===== src/Agents/Decision.antt =====
-- The data of agents/decisions.py: write modes, outcomes, decisions, and the threshold table.
use gita.Base.{
  String, Bool, true, false, ◌&&◌, Option, none, some, List, [], ◌∷◌, ◌==◌, any, if◌then◌else◌,
  value_error, key_error, Result, ok, err, ◌>>=◌, ◌≡◌, refl,
}
use gita.Value.{Dict}
use gita.Platform.{Platform}

pub data WriteMode : Type 0 where
  shadow comment full : WriteMode

pub data Outcome : Type 0 where
  executed shadow_logged downgraded_low_confidence downgraded_write_mode rejected_no_client error
        deduped :
      Outcome

abbrev pub is_shadow : WriteMode → Bool
is_shadow shadow = true
is_shadow _ = false

abbrev pub is_comment : WriteMode → Bool
is_comment comment = true
is_comment _ = false

-- `Outcome.value`
unfoldable pub outcome_value : Outcome → String
outcome_value executed = "executed"
outcome_value shadow_logged = "shadow_logged"
outcome_value downgraded_low_confidence = "downgraded_low_confidence"
outcome_value downgraded_write_mode = "downgraded_write_mode"
outcome_value rejected_no_client = "rejected_no_client"
outcome_value error = "error"
outcome_value deduped = "deduped"

abbrev pub comment_actions : List String
comment_actions = "comment" ∷ []

-- `decision.action in COMMENT_ACTIONS`
abbrev pub is_comment_action : String → Bool
is_comment_action action = any (λ a. a == action) comment_actions

-- `outcome in _NO_RECORD_OUTCOMES`
abbrev pub is_no_record : Outcome → Bool
is_no_record error = true
is_no_record rejected_no_client = true
is_no_record deduped = true
is_no_record _ = false

module _ (p : Platform) where
  open p use {Float, le, hundredths}

  pub record Decision : Type 0 where
    pub action : String
    pub target : Dict
    pub payload : Dict
    pub evidence : List String
    pub confidence : Float

  pub record DecisionResult : Type 0 where
    pub decision : Decision
    pub mode : WriteMode
    pub outcome : Outcome
    pub executed : Bool
    pub downgrade_reason : Option String
    pub error : Option String
    pub side_effect : Option Dict

  -- `__post_init__`: whether a decision may be constructed.
  unfoldable pub post_init : Decision → Result (Unit {0})
  post_init d =
      if d.action == ""
      then err value_error
      else if le (hundredths 0) d.confidence && le d.confidence (hundredths 100)
      then ok tt
      else err value_error

  -- A constructor call, which may raise
  abbrev pub constructed : Decision → Result Decision
  constructed d = post_init d >>= λ _. ok d

  -- A confidence that `__post_init__` accepts
  abbrev pub IsRated : Float → Type 0
  IsRated confidence = (le (hundredths 0) confidence && le confidence (hundredths 100)) ≡ true

  pub constructed-ok :
      (d : Decision) → (d.action == "") ≡ false → IsRated d.confidence → constructed d ≡ ok d
  unfolding post_init
  constructed-ok d named rated = rw (named, rated) refl

  abbrev pub Thresholds : Type 0
  Thresholds = List (String × Float)

  pub default_thresholds : Thresholds
  default_thresholds =
      ("comment", hundredths 30)
      ∷ ("label", hundredths 50)
      ∷ ("edit_issue", hundredths 75)
      ∷ ("create_issue", hundredths 70)
      ∷ ("close_issue", hundredths 80)
      ∷ ("create_branch", hundredths 90)
      ∷ ("update_file", hundredths 90)
      ∷ ("open_pr", hundredths 90)
      ∷ []

  lookup_threshold : String → Thresholds → Result Float
  lookup_threshold action [] = err key_error
  lookup_threshold action ((name, threshold) ∷ table) =
      if name == action then ok threshold else lookup_threshold action table

  unfoldable pub get_threshold : String → Option Thresholds → Result Float
  unfolding lookup_threshold default_thresholds
  get_threshold action none = lookup_threshold action default_thresholds
  get_threshold action (some table) = lookup_threshold action table
