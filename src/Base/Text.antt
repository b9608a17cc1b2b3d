-- ===== src/Base/Text.antt =====
-- Python's `str` methods that the program calls, on texts of Unicode scalar values. `lower` maps the
-- ASCII letters, which is what repository names are written in; other letters stay.
use Prim.Native.Nat.{ℕ, zero, suc, ◌/◌, ◌%◌}
use Prim.Native.Char.{Char, code}
use Prim.Native.String.{String, ◌++◌}
use mathlib.Core.Bool.{Bool, true, false, ◌&&◌, ◌||◌}
use mathlib.Core.List.{List, [], ◌∷◌}
use mathlib.Core.Path.{◌≡◌, refl, ap, subst, ◌∙◌}
use text.Mathlib.Text.{◌==◌}
use text.Mathlib.TextEquality.{eq_iff}
use text.Mathlib.TextPositions.{eq_refl}
use text.Mathlib.TextLemmas.{nil-append, cons-append}
use gita.Base.Tests.{ltb, leb, eqb, if◌then◌else◌}

abbrev pub is_space : Char → Bool
is_space c =
    let n = code c in
    leb 9 n && leb n 13
    || leb 28 n && leb n 32
    || eqb n 133
    || eqb n 160
    || eqb n 5760
    || leb 8192 n && leb n 8202
    || eqb n 8232
    || eqb n 8233
    || eqb n 8239
    || eqb n 8287
    || eqb n 12288

lstrip : String → String
lstrip String.[] = ""
lstrip (String.◌∷◌ c s) = elim (is_space c) [ true ↦ lstrip s | false ↦ String.◌∷◌ c s ]

rstrip : String → String
rstrip String.[] = ""
rstrip (String.◌∷◌ c s) =
    let rest = rstrip s in if is_space c && rest == "" then "" else String.◌∷◌ c rest

-- `s.strip()`
unfoldable pub strip : String → String
unfolding lstrip rstrip
strip s = rstrip (lstrip s)

lower_letters : List (ℕ × Char)
lower_letters =
    (b'A', "a")
    ∷ (b'B', "b")
    ∷ (b'C', "c")
    ∷ (b'D', "d")
    ∷ (b'E', "e")
    ∷ (b'F', "f")
    ∷ (b'G', "g")
    ∷ (b'H', "h")
    ∷ (b'I', "i")
    ∷ (b'J', "j")
    ∷ (b'K', "k")
    ∷ (b'L', "l")
    ∷ (b'M', "m")
    ∷ (b'N', "n")
    ∷ (b'O', "o")
    ∷ (b'P', "p")
    ∷ (b'Q', "q")
    ∷ (b'R', "r")
    ∷ (b'S', "s")
    ∷ (b'T', "t")
    ∷ (b'U', "u")
    ∷ (b'V', "v")
    ∷ (b'W', "w")
    ∷ (b'X', "x")
    ∷ (b'Y', "y")
    ∷ (b'Z', "z")
    ∷ []

lower_in : List (ℕ × Char) → Char → Char
lower_in [] c = c
lower_in ((n, d) ∷ rest) c = if eqb n (code c) then d else lower_in rest c

-- `s.lower()`
unfoldable pub lower : String → String
unfolding lower_letters lower_in
lower String.[] = ""
lower (String.◌∷◌ c s) = String.◌∷◌ (lower_in lower_letters c) (lower s)

-- `s[:n]`
unfoldable pub first : ℕ → String → String
first zero s = ""
first (suc n) String.[] = ""
first (suc n) (String.◌∷◌ c s) = String.◌∷◌ c (first n s)

-- `s[n:]`
unfoldable pub skip : ℕ → String → String
skip zero s = s
skip (suc n) String.[] = ""
skip (suc n) (String.◌∷◌ c s) = skip n s

-- The number of characters of `s`.
unfoldable pub text_size : String → ℕ
text_size String.[] = 0
text_size (String.◌∷◌ c s) = suc (text_size s)

-- `s.startswith(t)`
unfoldable pub starts_with : String → String → Bool
unfolding text_size first
starts_with t s = first (text_size t) s == t

-- `s.isascii()`
unfoldable pub is_ascii : String → Bool
is_ascii String.[] = true
is_ascii (String.◌∷◌ c s) = ltb (code c) 128 && is_ascii s

-- `s.endswith(t)`, by the texts that `s` ends in
unfoldable pub ends_with : String → String → Bool
ends_with String.[] t = t == ""
ends_with (String.◌∷◌ c s) t = String.◌∷◌ c s == t || ends_with s t

-- `sep.join(parts)`
unfoldable pub join : String → List String → String
join sep [] = ""
join sep (s ∷ []) = s
join sep (s ∷ t ∷ rest) = s ++ (sep ++ join sep (t ∷ rest))

-- The loop of `s.split(sep)`, with the part that is being read.
split_from : ℕ → String → String → List String
split_from sep cur String.[] = cur ∷ []
split_from sep cur (String.◌∷◌ c s) =
    let closed = cur ∷ split_from sep "" s in
    let longer = split_from sep (cur ++ String.◌∷◌ c "") s in
    if eqb (code c) sep then closed else longer

-- `s.split(sep)` at a separator of one character, given by its number
unfoldable pub split_on : ℕ → String → List String
unfolding split_from
split_on sep s = split_from sep "" s

abbrev is_break : ℕ → Bool
is_break n = leb 10 n && leb n 13 || leb 28 n && leb n 30 || eqb n 133 || eqb n 8232 || eqb n 8233

-- The loop of `s.splitlines()`. The flag says that a carriage return was read last: a line feed
-- behind it belongs to the same line end.
lines_from : Bool → String → String → List String
lines_from cr cur String.[] = if cur == "" then [] else cur ∷ []
lines_from cr cur (String.◌∷◌ c s) =
    let n = code c in
    let joined = lines_from false cur s in
    let ended = cur ∷ lines_from (eqb n 13) "" s in
    let longer = lines_from false (cur ++ String.◌∷◌ c "") s in
    if cr && eqb n 10 then joined else if is_break n then ended else longer

-- `s.splitlines()`
unfoldable pub splitlines : String → List String
unfolding lines_from
splitlines s = lines_from false "" s

abbrev digit : ℕ → String
digit n =
    if eqb n 0
    then "0"
    else if eqb n 1
    then "1"
    else if eqb n 2
    then "2"
    else if eqb n 3
    then "3"
    else if eqb n 4
    then "4"
    else if eqb n 5
    then "5"
    else if eqb n 6
    then "6"
    else if eqb n 7
    then "7"
    else if eqb n 8
    then "8"
    else "9"

-- The digits of `n` before `out`. The fuel is above `n`, which each round divides by ten.
decimal_from : ℕ → ℕ → String → String
decimal_from zero n out = out
decimal_from (suc fuel) n out =
    let longer = decimal_from fuel (n / 10) (digit (n % 10) ++ out) in
    if ltb n 10 then digit n ++ out else longer

-- `str(n)`
unfoldable pub decimal : ℕ → String
unfolding decimal_from
decimal n = decimal_from (suc n) n ""

first-skip : (n : ℕ) (s : String) → first n s ++ skip n s ≡ s
unfolding first skip
first-skip zero s = nil-append s
first-skip (suc n) String.[] = nil-append _
first-skip (suc n) (String.◌∷◌ c s) =
    cons-append c (first n s) (skip n s) ∙ ap (String.◌∷◌ c) (first-skip n s)

pub starts_with_lem : (t s : String) → starts_with t s ≡ true → t ++ skip (text_size t) s ≡ s
unfolding starts_with
starts_with_lem t s h =
    subst (λ u. u ++ skip (text_size t) s ≡ s) ((eq_iff _ _).0 h) (first-skip (text_size t) s)

first-append : (t s : String) → first (text_size t) (t ++ s) ≡ t
unfolding first text_size
first-append String.[] s = refl
first-append (String.◌∷◌ c t) s = rw (cons-append c t s) (ap (String.◌∷◌ c) (first-append t s))

pub skip-append : (t s : String) → skip (text_size t) (t ++ s) ≡ s
unfolding skip text_size
skip-append String.[] s = nil-append s
skip-append (String.◌∷◌ c t) s = rw (cons-append c t s) (skip-append t s)

pub starts_with-append : (t s : String) → starts_with t (t ++ s) ≡ true
unfolding starts_with
starts_with-append t s = rw (first-append t s) (eq_refl t)

text_tests :
    (strip " a b\n" ≡ "a b")
    × (lower "R-log/AMASS" ≡ "r-log/amass")
    × (split_on b'/' "a/b//c" ≡ "a" ∷ "b" ∷ "" ∷ "c" ∷ [])
    × (splitlines "a\r\nb\n\nc" ≡ "a" ∷ "b" ∷ "" ∷ "c" ∷ [])
    × (decimal 1207 ≡ "1207")
unfolding strip lower split_on splitlines decimal
text_tests = (refl, refl, refl, refl, refl)
