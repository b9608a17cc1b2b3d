-- ===== src/Agents/Findings.antt =====
-- What the two reviewing agents share: the results of agents/types.py, and how the bridges of
-- agents/onboarding and agents/pr_reviewer print a finding.
use Prim.Native.Char.{Char, code}
use gita.Base.{ℕ, String, ◌<>◌, List, [], ◌∷◌, ◌==◌, eqb, length, if◌then◌else◌}
use gita.Base.Text.{decimal, lower}
use gita.Base.Integers.{shown}
use gita.Agents.Guardrails.{Finding}

abbrev pub collapse_threshold : ℕ
collapse_threshold = 6

abbrev pub severity_badge : String → String
severity_badge s =
    if s == "critical"
    then "🔴"
    else if s == "high"
    then "🟠"
    else if s == "medium"
    then "🟡"
    else if s == "low"
    then "🔵"
    else "⚪"

unfoldable pub severity_icon : String → String
severity_icon severity = severity_badge (lower severity)

upper_letters : List (ℕ × Char)
upper_letters =
    (b'a', "A")
    ∷ (b'b', "B")
    ∷ (b'c', "C")
    ∷ (b'd', "D")
    ∷ (b'e', "E")
    ∷ (b'f', "F")
    ∷ (b'g', "G")
    ∷ (b'h', "H")
    ∷ (b'i', "I")
    ∷ (b'j', "J")
    ∷ (b'k', "K")
    ∷ (b'l', "L")
    ∷ (b'm', "M")
    ∷ (b'n', "N")
    ∷ (b'o', "O")
    ∷ (b'p', "P")
    ∷ (b'q', "Q")
    ∷ (b'r', "R")
    ∷ (b's', "S")
    ∷ (b't', "T")
    ∷ (b'u', "U")
    ∷ (b'v', "V")
    ∷ (b'w', "W")
    ∷ (b'x', "X")
    ∷ (b'y', "Y")
    ∷ (b'z', "Z")
    ∷ []

upper_in : List (ℕ × Char) → Char → Char
upper_in [] c = c
upper_in ((n, d) ∷ rest) c = if eqb n (code c) then d else upper_in rest c

-- `s.upper()`, of ASCII letters
unfoldable pub upper : String → String
unfolding upper_letters upper_in
upper String.[] = ""
upper (String.◌∷◌ c s) = String.◌∷◌ (upper_in upper_letters c) (upper s)

-- `f"{n}"` of `len(xs)`, and the plural's `s`
abbrev pub count {ℓ} : {A : Type ℓ} → List A → String
count xs = decimal (length xs)

abbrev pub plural {ℓ} : {A : Type ℓ} → List A → String
plural xs = if eqb (length xs) 1 then "" else "s"

-- `f"{finding.file}:{finding.line}"`
unfoldable pub citation : Finding → String
citation f = f.file <> (":" <> shown f.line)

-- `f"{finding.severity} {finding.kind} at {finding.file}:{finding.line}"`
abbrev pub cited_as : Finding → String
cited_as f = f.severity <> (" " <> (f.kind <> (" at " <> citation f)))

-- The card of a finding below its first line
abbrev pub card_rest : Finding → List String
card_rest f =
    let sketch : List String =
      if f.fix_sketch == "" then "" ∷ [] else ">" ∷ ("> 💡 " <> f.fix_sketch) ∷ "" ∷ [] in
    ">" ∷ ("> " <> f.description) ∷ sketch
