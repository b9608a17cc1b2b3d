-- ===== src/Agents/Ledger/Unique.antt =====
-- The look for the key of a row, in a table with a row in the middle.
use gita.Base.{◌≡◌, refl, Bool, ◌||◌, List, [], ◌∷◌, ◌++◌, arith}
use gita.Platform.{Platform}
use gita.Agents.Ledger.{AgentAction, has_key, is_taken}

module _ (p : Platform) where
  abbrev same_key : AgentAction p → AgentAction p → Bool
  same_key a b = has_key p a.repo_name a.agent a.action a.signature b

  pub is_taken-middle :
      (x row : AgentAction p) (before after : List (AgentAction p))
      → is_taken p x (before ++ row ∷ after) ≡ (same_key x row || is_taken p x (before ++ after))
  is_taken-middle x row [] after = refl
  is_taken-middle x row (b ∷ before) after = ground (arith, is_taken-middle x row before after)
