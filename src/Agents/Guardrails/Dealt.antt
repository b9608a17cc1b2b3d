-- ===== src/Agents/Guardrails/Dealt.antt =====
-- What the guardrails let pass, and what they drop.
use mathlib.Core.List.{Memᴰ}
use gita.Base.{
  ◌≤◌, ◌<◌, ℕ, String, ◌≡◌, refl, sym, ap, subst, ◌∙◌, Bool, true, false, ◌&&◌, not, Bool-cases,
  ◌⊎◌, inl, inr, Option, none, some, List, [], ◌∷◌, ◌++◌, append_assoc, append-nil, ◌==◌, eq_iff,
  arith, ltb, Result, ok, bind-ok,
}
use gita.Base.Integers.{ℤ, pos, negsuc, is_above}
use gita.Base.Tables.{lookup}
use gita.Agents.Guardrails.Diff.{DiffHunk}
use gita.Agents.Guardrails.{
  Finding, CodeIndex, Reason, file_not_found, line_out_of_range, syntax_claim_on_valid_file,
  Dealing, keep, drop, drop_phrase, drop_claim, check_banned_phrase, claims_syntax_error, in_diff,
  content_or_empty, rows_by_path, file_parses_cleanly, check_claim, check_line, check_file,
  verify_all, verify_findings,
}
use gita.Agents.Guardrails.Touched.{IsTouched, line_in_diff_ranges-IsTouched}
use gita.Agents.Guardrails.Stored.{IsStored, IsStored-rows_by_path, rows_by_path-IsStored}

-- A line that is not behind the last one of a file; zero and the negative ones are not.
abbrev pub IsBefore : ℤ → ℕ → Type 0
IsBefore (pos n) count = n ≤ count
IsBefore (negsuc n) count = Unit

module _ (ast_parse : String → Result Bool) (table : List CodeIndex) (repo_id : String)
    (diff_hunks : Option (List DiffHunk)) where
  -- What the index and the diff confirm of a finding.
  pub record IsConfirmed (f : Finding) : Type 0 where
    pub row : CodeIndex
    pub stored : IsStored table repo_id f.file row
    pub within :
        (IsBefore f.line row.line_count)
        ⊎ ((hunks : List DiffHunk) × (diff_hunks ≡ some hunks) × IsTouched hunks f.file f.line)
    pub broken :
        claims_syntax_error f ≡ true
        → (row.language ≡ "python") × (ast_parse (content_or_empty row.content) ≡ ok false)
    pub unbanned : check_banned_phrase f ≡ none

  -- Why a finding may be dropped.
  pub data IsGrounds (f : Finding) : Reason → Type 0 where
    unknown :
        ((row : CodeIndex) → IsStored table repo_id f.file row → ⊥)
        → IsGrounds f (file_not_found f.file)
    beyond :
        (row : CodeIndex) (n : ℕ)
        → IsStored table repo_id f.file row
        → f.line ≡ pos n
        → row.line_count < n
        → in_diff f diff_hunks ≡ false
        → IsGrounds f (line_out_of_range f.line row.line_count)
    refuted :
        (row : CodeIndex)
        → IsStored table repo_id f.file row
        → claims_syntax_error f ≡ true
        → (row.language ≡ "python" → ast_parse (content_or_empty row.content) ≡ ok true)
        → IsGrounds f (syntax_claim_on_valid_file f.file row.language)
    phrase : (reason : Reason) → check_banned_phrase f ≡ some reason → IsGrounds f reason

  -- The findings are dealt out, in order, to those that are confirmed and those that there are grounds
  -- to drop.
  pub data IsDealt : List Finding → Dealing → Type 0 where
    done : IsDealt [] ([], [])
    kept :
        (f : Finding) (fs gs : List Finding) (hs : List (Finding × Reason))
        → IsConfirmed f
        → IsDealt fs (gs, hs)
        → IsDealt (f ∷ fs) (f ∷ gs, hs)
    cut :
        (f : Finding) (reason : Reason) (fs gs : List Finding) (hs : List (Finding × Reason))
        → IsGrounds f reason
        → IsDealt fs (gs, hs)
        → IsDealt (f ∷ fs) (gs, (f, reason) ∷ hs)

  -- One round of the loop
  abbrev Dealt : Finding → Dealing → Dealing → Type 0
  Dealt f out out' =
      (IsConfirmed f × (out' ≡ keep f out))
      ⊎ ((reason : Reason) × IsGrounds f reason × (out' ≡ drop f reason out))

  abbrev Within : Finding → CodeIndex → Type 0
  Within f row =
      (IsBefore f.line row.line_count)
      ⊎ ((hunks : List DiffHunk) × (diff_hunks ≡ some hunks) × IsTouched hunks f.file f.line)

  drop_phrase-Dealt :
      (row : CodeIndex) (f : Finding) (out : Dealing) (found : Option Reason)
      → check_banned_phrase f ≡ found
      → IsStored table repo_id f.file row
      → Within f row
      → (claims_syntax_error f ≡ true
          → (row.language ≡ "python") × (ast_parse (content_or_empty row.content) ≡ ok false))
      → Dealt f out (drop_phrase f found out)
  drop_phrase-Dealt row f out none e stored within broken =
      inl (
        record { row = row; stored = stored; within = within; broken = broken; unbanned = e },
        refl,
      )
  drop_phrase-Dealt row f out (some reason) e stored within broken =
      inr (reason, phrase reason e, refl)

  parsed :
      (content language : String) (clean : Bool)
      → file_parses_cleanly ast_parse content language ≡ ok clean
      → ((clean ≡ false) × (language ≡ "python") × (ast_parse content ≡ ok false))
        ⊎ ((clean ≡ true) × (language ≡ "python" → ast_parse content ≡ ok true))
  parsed content language clean h = elim (Bool-cases (language == "python")) [
    | inl python ↦ elim (Bool-cases clean) [
      | inl good ↦ inr (good, λ e. (rw python at h) ∙ ap ok good)
      | inr bad ↦ inl (bad, (eq_iff _ _).0 python, (rw python at h) ∙ ap ok bad)
    ]
    | inr other ↦
        let plain : ◌≡◌ {A = Result Bool} (ok true) (ok clean) = rw other at h in
        inr (cc, λ e. cc (other, (eq_iff language "python").1 e))
  ]

  same_ok : {a b : Dealing} → ◌≡◌ {A = Result Dealing} (ok a) (ok b) → b ≡ a
  same_ok e = cc

  check_claim-Dealt :
      (row : CodeIndex) (f : Finding) (out out' : Dealing)
      → IsStored table repo_id f.file row
      → Within f row
      → check_claim ast_parse row f out ≡ ok out'
      → Dealt f out out'
  unfolding check_claim
  check_claim-Dealt row f out out' stored within h = elim (Bool-cases (claims_syntax_error f)) [
    | inl claims ↦
        let (clean, read, e) =
          bind-ok (file_parses_cleanly ast_parse (content_or_empty row.content) row.language)
            (λ clean. ok (drop_claim ast_parse row f clean out)) out' (rw claims at h) in
        let end : out' ≡ drop_claim ast_parse row f clean out = same_ok e in
        elim (parsed (content_or_empty row.content) row.language clean read) [
          | inl (bad, python, fails) ↦
              let end' : out' ≡ drop_phrase f (check_banned_phrase f) out = end ∙ (rw bad refl) in
              subst (Dealt f out) (sym end') (
                drop_phrase-Dealt row f out (check_banned_phrase f) refl stored within
                  (λ claims'. (python, fails)))
          | inr (good, parses) ↦ inr (_, refuted row stored claims parses, end ∙ (rw good refl))
        ]
    | inr silent ↦ subst (Dealt f out) (sym (same_ok (rw silent at h))) (
        drop_phrase-Dealt row f out (check_banned_phrase f) refl stored within
          (λ claims. cc (silent, claims)))
  ]

  in_diff-IsTouched :
      (f : Finding) (hunks : Option (List DiffHunk))
      → in_diff f hunks ≡ true
      → (hs : List DiffHunk) × (hunks ≡ some hs) × IsTouched hs f.file f.line
  in_diff-IsTouched f none h = cc
  in_diff-IsTouched f (some hunks) h =
      (hunks, refl, line_in_diff_ranges-IsTouched f.file f.line hunks h)

  -- How a line compares with the number of lines
  compared :
      (line : ℤ) (count : ℕ)
      → IsBefore line count
        ⊎ ((n : ℕ) × (line ≡ pos n) × (count < n) × (is_above count line ≡ true))
  compared (pos n) count = elim (Bool-cases (ltb count n)) [
    | inl over ↦ inr (n, refl, ground arith, over)
    | inr fits ↦ inl (ground arith)
  ]
  compared (negsuc n) count = inl tt

  not_above : (line : ℤ) (count : ℕ) → IsBefore line count → is_above count line ≡ false
  not_above (pos n) count h = ground arith
  not_above (negsuc n) count h = refl

  check_line-Dealt :
      (row : CodeIndex) (f : Finding) (out out' : Dealing)
      → IsStored table repo_id f.file row
      → check_line ast_parse diff_hunks row f out ≡ ok out'
      → Dealt f out out'
  unfolding check_line
  check_line-Dealt row f out out' stored h = elim (compared f.line row.line_count) [
    | inl before ↦
        check_claim-Dealt row f out out' stored (inl before)
          (rw (not_above f.line row.line_count before) at h)
    | inr (n, natural, over, above) ↦ elim (Bool-cases (in_diff f diff_hunks)) [
      | inl touched ↦
          check_claim-Dealt row f out out' stored (inr (in_diff-IsTouched f diff_hunks touched))
            (rw (above, touched) at h)
      | inr untouched ↦
          inr (_, beyond row n stored natural over untouched, same_ok (rw (above, untouched) at h))
    ]
  ]

  check_file-Dealt :
      (f : Finding) (out out' : Dealing) (found : Option CodeIndex)
      → ((row : CodeIndex) → found ≡ some row → IsStored table repo_id f.file row)
      → (found ≡ none → (row : CodeIndex) → IsStored table repo_id f.file row → ⊥)
      → check_file ast_parse diff_hunks found f out ≡ ok out'
      → Dealt f out out'
  check_file-Dealt f out out' none stored missing h = inr (_, unknown (missing refl), same_ok h)
  check_file-Dealt f out out' (some row) stored missing h =
      check_line-Dealt row f out out' (stored row refl) h

  -- What a loop adds to what was dealt before
  abbrev Added : List Finding → Dealing → Dealing → Type 0
  Added fs out out' =
      (gs : List Finding) × (hs : List (Finding × Reason)) × (out' ≡ (out.0 ++ gs, out.1 ++ hs))
      × IsDealt fs (gs, hs)

  Dealt-Added :
      (f : Finding) (fs : List Finding) (out out1 out' : Dealing)
      → Dealt f out out1
      → Added fs out1 out'
      → Added (f ∷ fs) out out'
  Dealt-Added f fs (vs, ds) out1 out' (inl (confirmed, e)) (gs, hs, e', dealt) = (
    f ∷ gs,
    hs,
    e' ∙ (rw e (ap (λ l. (l, ds ++ hs)) (append_assoc vs (f ∷ []) gs))),
    kept f fs gs hs confirmed dealt,
  )
  Dealt-Added f fs (vs, ds) out1 out' (inr (reason, grounds, e)) (gs, hs, e', dealt) = (
    gs,
    (f, reason) ∷ hs,
    e' ∙ (rw e (ap (λ l. (vs ++ gs, l)) (append_assoc ds ((f, reason) ∷ []) hs))),
    cut f reason fs gs hs grounds dealt,
  )

  verify_all-Added :
      (rows : List (String × CodeIndex)) (fs : List Finding) (out out' : Dealing)
      → ((path : String) (row : CodeIndex)
          → lookup path rows ≡ some row
          → IsStored table repo_id path row)
      → ((f : Finding)
          → Memᴰ f fs
          → lookup f.file rows ≡ none
          → (row : CodeIndex) → IsStored table repo_id f.file row
          → ⊥)
      → verify_all ast_parse diff_hunks rows fs out ≡ ok out'
      → Added fs out out'
  unfolding verify_all
  verify_all-Added rows [] out out' stored missing h =
      ([], [], same_ok h ∙ (rw (append-nil out.0, append-nil out.1) refl), done)
  verify_all-Added rows (f ∷ fs) out out' stored missing h =
      let (out1, first, rest) =
        bind-ok (check_file ast_parse diff_hunks (lookup f.file rows) f out)
          (verify_all ast_parse diff_hunks rows fs) out' h in
      Dealt-Added f fs out out1 out'
        (check_file-Dealt f out out1 (lookup f.file rows) (stored f.file)
          (missing f (Memᴰ.head refl)) first)
        (verify_all-Added rows fs out1 out' stored (λ g m. missing g (Memᴰ.tail m)) rest)

  returned-IsDealt :
      (findings : List Finding) (out : Dealing)
      → verify_findings ast_parse table repo_id findings diff_hunks ≡ ok out
      → IsDealt findings out
  unfolding verify_findings
  returned-IsDealt [] out h = subst (IsDealt []) (sym (same_ok h)) done
  returned-IsDealt (f ∷ rest) out h =
      let rows = rows_by_path repo_id (f ∷ rest) table in
      let (gs, hs, e, dealt) =
        verify_all-Added rows (f ∷ rest) ([], []) out
          (λ path row. rows_by_path-IsStored repo_id path (f ∷ rest) table row)
          (λ g m lost row stored.
            IsStored-rows_by_path repo_id (f ∷ rest) g table row m stored lost)
          h in
      subst (IsDealt (f ∷ rest)) (sym e) dealt

  -- `ast.parse` raises nothing but a `SyntaxError`.
  abbrev pub IsQuiet : Type 0
  IsQuiet = (content : String) → (accepted : Bool) × (ast_parse content ≡ ok accepted)

  check_claim-returns :
      (row : CodeIndex) (f : Finding) (out : Dealing)
      → IsQuiet
      → (out' : Dealing) × (check_claim ast_parse row f out ≡ ok out')
  unfolding check_claim
  check_claim-returns row f out quiet = elim (Bool-cases (claims_syntax_error f)) [
    | inl claims ↦ elim (Bool-cases (row.language == "python")) [
      | inl python ↦
          let (accepted, read) = quiet (content_or_empty row.content) in
          (drop_claim ast_parse row f accepted out, rw (claims, python, read) refl)
      | inr other ↦ (drop_claim ast_parse row f true out, rw (claims, other) refl)
    ]
    | inr silent ↦ (drop_phrase f (check_banned_phrase f) out, rw silent refl)
  ]

  check_file-returns :
      (found : Option CodeIndex) (f : Finding) (out : Dealing)
      → IsQuiet
      → (out' : Dealing) × (check_file ast_parse diff_hunks found f out ≡ ok out')
  unfolding check_line
  check_file-returns none f out quiet = (drop f (file_not_found f.file) out, refl)
  check_file-returns (some row) f out quiet =
      elim (Bool-cases (is_above row.line_count f.line && not (in_diff f diff_hunks))) [
        | inl over ↦ (drop f (line_out_of_range f.line row.line_count) out, rw over refl)
        | inr fits ↦ let (out', e) = check_claim-returns row f out quiet in (out', rw fits e)
      ]

  verify_all-returns :
      (rows : List (String × CodeIndex)) (fs : List Finding) (out : Dealing)
      → IsQuiet
      → (out' : Dealing) × (verify_all ast_parse diff_hunks rows fs out ≡ ok out')
  unfolding verify_all
  verify_all-returns rows [] out quiet = (out, refl)
  verify_all-returns rows (f ∷ fs) out quiet =
      let (out1, first) = check_file-returns (lookup f.file rows) f out quiet in
      let (out', rest) = verify_all-returns rows fs out1 quiet in (out', rw first rest)

  -- If `ast.parse` raises nothing but a `SyntaxError`, then each finding once survives or is dropped with
  -- a reason, both in the order they came in. One that survives is confirmed: its file is indexed for
  -- the repository, its line is not behind the last line of the file or it is in a changed range of the
  -- file's diff, a syntax error that it claims is in a Python file that does not parse, and no banned
  -- phrase occurs in it. One that is dropped has a reason that holds: no row for its file, a line
  -- behind the last one and in no changed range, a syntax error claimed of a file that parses or cannot
  -- be parsed here, or a banned phrase.
  pub verify_findings-IsDealt :
      (findings : List Finding)
      → IsQuiet
      → (out : Dealing) × (verify_findings ast_parse table repo_id findings diff_hunks ≡ ok out)
        × IsDealt findings out
  unfolding verify_findings
  verify_findings-IsDealt [] quiet = (([], []), refl, done)
  verify_findings-IsDealt (f ∷ rest) quiet =
      let rows = rows_by_path repo_id (f ∷ rest) table in
      let (out, e) = verify_all-returns rows (f ∷ rest) ([], []) quiet in
      (out, e, returned-IsDealt (f ∷ rest) out e)
