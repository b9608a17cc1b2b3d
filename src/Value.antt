-- ===== src/Value.antt =====
-- The values of the `dict[str, Any]` fields (`Decision.target`, `Decision.payload`, a client's return
-- value) and Python's `get`, `str` and truth test on them. The agents put texts, numbers, flags,
-- `None` and lists of texts there.
use gita.Base.{
  ℕ, String, ◌<>◌, ◌≡◌, refl, Bool, true, false, not, List, [], ◌∷◌, map, ◌==◌, eqb, if◌then◌else◌,
}
use gita.Base.Text.{decimal, join}

pub data Value : Type 0 where
  null : Value
  flag : Bool → Value
  num : ℕ → Value
  str : String → Value
  strs : List String → Value

abbrev pub Dict : Type 0
Dict = List (String × Value)

-- `d.get(k, default)`
unfoldable pub get_or : String → Value → Dict → Value
get_or k default [] = default
get_or k default ((j, v) ∷ d) = if j == k then v else get_or k default d

-- `d.get(k)`
unfoldable pub get : String → Dict → Value
unfolding get_or
get k d = get_or k null d

-- `v is None`
abbrev pub is_null : Value → Bool
is_null null = true
is_null _ = false

-- `bool(v)`
abbrev pub truthy : Value → Bool
truthy null = false
truthy (flag b) = b
truthy (num n) = not (eqb n 0)
truthy (str s) = not (s == "")
truthy (strs []) = false
truthy (strs (s ∷ rest)) = true

-- `str(v)`; the texts of a list are printed between single quotes, with nothing to escape in them.
unfoldable pub to_str : Value → String
to_str null = "None"
to_str (flag true) = "True"
to_str (flag false) = "False"
to_str (num n) = decimal n
to_str (str s) = s
to_str (strs xs) = "[" <> (join ", " (map (λ s. "'" <> (s <> "'")) xs) <> "]")

value_tests :
    (get "b" (("a", num 1) ∷ ("b", str "x") ∷ []) ≡ str "x")
    × (to_str (num 42) ≡ "42")
    × (to_str (strs ("a" ∷ "b" ∷ [])) ≡ "['a', 'b']")
unfolding get to_str decimal join
value_tests = (refl, refl, refl)
