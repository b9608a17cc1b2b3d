-- ===== src/Agents/Guardrails/Patterns.antt =====
-- The patterns of agents/guardrails.py as regular expressions, and Python's `search` for them. They
-- ignore case, which is folded for ASCII letters.
use Prim.Native.String.{String}
use gita.Base.{
  refl, ◌≡◌, Bool, true, false, not, ◌||◌, List, [], ◌∷◌, ◌++◌, is_empty, any, if◌then◌else◌,
}
use gita.Base.Text.{is_space, starts_with, skip, text_size, first, lower}

-- `text t` is the text itself, `spaces` is `\s*`, `optional r` is `(?:r)?`, `either r q` is `(?:r|q)`.
pub data Regex : Type 0 where
  text : String → Regex
  spaces : Regex
  optional : Regex → Regex
  either chain : Regex → Regex → Regex

-- What is left behind each way to match `\s*` at the start.
after_spaces : String → List String
after_spaces String.[] = "" ∷ []
after_spaces (String.◌∷◌ c s) =
    let more = after_spaces s in String.◌∷◌ c s ∷ (if is_space c then more else [])

concat_map : (String → List String) → List String → List String
concat_map f [] = []
concat_map f (s ∷ rest) = f s ++ concat_map f rest

-- What is left behind each way to match the expression at the start.
remainders : Regex → String → List String
unfolding after_spaces concat_map
remainders (text t) s = if starts_with t s then skip (text_size t) s ∷ [] else []
remainders spaces s = after_spaces s
remainders (optional r) s = remainders r s ++ s ∷ []
remainders (either r q) s = remainders r s ++ remainders q s
remainders (chain r q) s = concat_map (remainders q) (remainders r s)

-- `pattern.search(s)` on a text in lower case
search_lower : Regex → String → Bool
unfolding remainders
search_lower r String.[] = not (is_empty (remainders r ""))
search_lower r (String.◌∷◌ c s) = not (is_empty (remainders r (String.◌∷◌ c s))) || search_lower r s

unfoldable pub search : Regex → String → Bool
unfolding search_lower
search r s = search_lower r (lower s)

-- The patterns, each with its source.
unfoldable pub banned_description_patterns : List (String × Regex)
banned_description_patterns =
    ("add unit tests", text "add unit tests")
    ∷ ("add (?:more )?tests", chain (text "add ") (chain (optional (text "more ")) (text "tests")))
    ∷ (
      "improve (?:test )?coverage",
      chain (text "improve ") (chain (optional (text "test ")) (text "coverage")),
    )
    ∷ ("set up (?:ci|cd)", chain (text "set up ") (either (text "ci") (text "cd")))
    ∷ ("add (?:ci|cd)", chain (text "add ") (either (text "ci") (text "cd")))
    ∷ ("configure github actions", text "configure github actions")
    ∷ (
      "add (?:more )?documentation",
      chain (text "add ") (chain (optional (text "more ")) (text "documentation")),
    )
    ∷ ("improve docs", text "improve docs")
    ∷ ("improve code quality", text "improve code quality")
    ∷ ("follow best practices", text "follow best practices")
    ∷ []

spaced : String → String → Regex
spaced a b = chain (text a) (chain spaces (text b))

unfoldable pub syntax_error_patterns : List Regex
unfolding spaced
syntax_error_patterns =
    spaced "syntax" "error"
    ∷ spaced "unclosed" "paren"
    ∷ text "unparseable"
    ∷ spaced "cannot" "parse"
    ∷ chain (text "won") (chain (optional (text "'")) (spaced "t" "parse"))
    ∷ chain (spaced "will" "not") (chain spaces (either (text "parse") (text "run")))
    ∷ chain (spaced "missing" "closing")
        (chain spaces (either (text "paren") (either (text "bracket") (text "brace"))))
    ∷ []

pattern_tests :
    (any (λ r. search r "It won't  Parse") syntax_error_patterns ≡ true)
    × (any (λ r. search r "Missing closing\tbrace") syntax_error_patterns ≡ true)
    × (any (λ r. search r "missing brace") syntax_error_patterns ≡ false)
    × (any (λ (source, r). search r "Please ADD more tests") banned_description_patterns ≡ true)
unfolding search syntax_error_patterns banned_description_patterns lower starts_with skip text_size
    first
pattern_tests = (refl, refl, refl, refl)
