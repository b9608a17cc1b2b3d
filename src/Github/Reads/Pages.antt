-- ===== src/Github/Reads/Pages.antt =====
-- The pagination of `get_pr_files`.
use gita.Base.{
  ℕ, zero, suc, ◌+◌, ◌*◌, ◌/◌, ◌≤◌, ◌<◌, String, ◌≡◌, refl, sym, ap, ◌∙◌, true, false, Bool-cases,
  inl, inr, Option, none, some, List, [], ◌∷◌, ◌++◌, append-nil, append_assoc, length, take, ltb,
  arith, if◌then◌else◌, ok,
}
use gita.Base.Exec.{Exec, pure}
use gita.Web.Json.{Json, arr, Items, nil, item}
use gita.Github.Http.{Request, Response, Api, State, send}
use gita.Github.Tokens.{installation_token_for_repo}
use gita.Github.Writes.{repo_request}
use gita.Github.Reads.{listed, page_path, get_page, get_pages, get_pr_files}

abbrev pub drop {ℓ} : {A : Type ℓ} → ℕ → List A → List A
drop zero xs = xs
drop (suc n) [] = []
drop (suc n) (x ∷ xs) = drop n xs

module _ {ℓ} {A : Type ℓ} where
  drop_nil : (n : ℕ) → drop {A = A} n [] ≡ []
  drop_nil zero = refl
  drop_nil (suc n) = refl

  drop_add : (m n : ℕ) (xs : List A) → drop n (drop m xs) ≡ drop (m + n) xs
  drop_add zero n xs = ground arith
  drop_add (suc m) n [] = drop_nil n ∙ sym (drop_nil (suc m + n))
  drop_add (suc m) n (x ∷ xs) =
      let e : suc m + n ≡ suc (m + n) = omega arith in rw e (drop_add m n xs)

  take-append-drop : (n : ℕ) (xs : List A) → take n xs ++ drop n xs ≡ xs
  take-append-drop zero xs = refl
  take-append-drop (suc n) [] = refl
  take-append-drop (suc n) (x ∷ xs) = ap (λ l. x ∷ l) (take-append-drop n xs)

  take_all : (n : ℕ) (xs : List A) → length xs ≤ n → take n xs ≡ xs
  take_all zero [] h = refl
  take_all zero (x ∷ xs) h = absurd (omega arith)
  take_all (suc n) [] h = refl
  take_all (suc n) (x ∷ xs) h = ap (λ l. x ∷ l) (take_all n xs (omega arith))

  length-take : (n : ℕ) (xs : List A) → n ≤ length xs → length (take n xs) ≡ n
  length-take zero xs h = refl
  length-take (suc n) [] h = absurd (omega arith)
  length-take (suc n) (x ∷ xs) h = omega (arith, length-take n xs)

  length-drop : (n : ℕ) (xs : List A) → n ≤ length xs → length (drop n xs) + n ≡ length xs
  length-drop zero xs h = omega arith
  length-drop (suc n) [] h = absurd (omega arith)
  length-drop (suc n) (x ∷ xs) h = omega (arith, length-drop n xs)

-- The JSON list of the values
abbrev pub to_items : List Json → Items
to_items [] = nil
to_items (v ∷ rest) = item v (to_items rest)

listed-to_items : (xs : List Json) → listed (to_items xs) ≡ xs
listed-to_items [] = refl
listed-to_items (v ∷ rest) = ap (λ l. v ∷ l) (listed-to_items rest)

module _ (api : Api) (owner repo : String) (number : ℕ) where
  -- The request for a page, and the answer that holds the files
  abbrev pub page_request : String → ℕ → Request
  page_request token page = repo_request api owner repo "GET" (page_path number page) none token

  abbrev pub page_answer : List Json → Option Response
  page_answer files = some (record { status = 200; body = some (arr (to_items files)) })

  -- From a page on, the server answers with the files in pages of a hundred, whatever was sent before.
  abbrev pub IsPagedFrom : String → ℕ → List Json → Type 0
  IsPagedFrom token page files =
      (log : List Request) (k : ℕ)
      → k ≤ length files / 100
      → api.http log (page_request token (page + k)) ≡ page_answer (take 100 (drop (100 * k) files))

  unfoldable pub page_requests : String → ℕ → ℕ → List Request
  page_requests token page zero = []
  page_requests token page (suc n) = page_request token page ∷ page_requests token (page + 1) n

  abbrev after : State → List Request → State
  after s requests = record s { sent = s.sent ++ requests }

  next-IsPagedFrom :
      (token : String) (page : ℕ) (files : List Json)
      → 100 ≤ length files
      → IsPagedFrom token page files
      → IsPagedFrom token (page + 1) (drop 100 files)
  next-IsPagedFrom token page files long h log k below =
      let e : page + 1 + k ≡ page + (k + 1) = omega arith in
      let f : 100 + 100 * k ≡ 100 * (k + 1) = omega arith in
      let shorter : length (drop 100 files) + 100 ≡ length files = length-drop 100 files long in
      rw (e, drop_add 100 (100 * k) files, f) (h log (k + 1) (omega arith))

  get_page_lem :
      (token : String) (page : ℕ) (files : List Json) (s : State)
      → IsPagedFrom token page files
      → get_page api owner repo number token page s
        ≡ (ok (arr (to_items (take 100 files))), after s (page_request token page ∷ []))
  unfolding get_page send
  get_page_lem token page files s h =
      let e : page + 0 ≡ page = omega arith in
      let answered : api.http s.sent (page_request token page) ≡ page_answer (take 100 files) =
        rw e at (h s.sent 0 (omega arith)) in
      rw answered refl

  -- What the loop does with a page that is not empty
  abbrev continue : ℕ → String → ℕ → List Json → List Json → Exec State (Option (List Json))
  continue fuel token page all_files batch =
      if ltb (length batch) 100
      then pure (some (all_files ++ batch))
      else get_pages api fuel owner repo number token (page + 1) (all_files ++ batch)

  get_pages-cons :
      (fuel : ℕ) (token : String) (page : ℕ) (all_files rest : List Json) (v : Json) (s : State)
      → IsPagedFrom token page (v ∷ rest)
      → get_pages api (suc fuel) owner repo number token page all_files s
        ≡ continue fuel token page all_files
            (take 100 (v ∷ rest))
            (after s (page_request token page ∷ []))
  unfolding get_pages
  get_pages-cons fuel token page all_files rest v s paged =
      rw (get_page_lem token page (v ∷ rest) s paged) (rw (listed-to_items (take 99 rest)) refl)

  last_page :
      (fuel : ℕ) (token : String) (page : ℕ) (all_files files : List Json) (s : State)
      → length files < 100
      → continue fuel token page all_files (take 100 files) (after s (page_request token page ∷ []))
        ≡ (
          ok (some (all_files ++ files)),
          after s (page_requests token page (length files / 100 + 1)),
        )
  unfolding page_requests
  last_page fuel token page all_files files s short =
      let one : length files / 100 + 1 ≡ 1 = omega arith in
      let tested : ltb (length files) 100 ≡ true = ground arith in
      rw (take_all 100 files (omega arith), one) (rw tested refl)

  full_page :
      (fuel : ℕ) (token : String) (page : ℕ) (all_files files : List Json)
      → 100 ≤ length files
      → (s : State)
      → continue fuel token page all_files (take 100 files) s
        ≡ get_pages api fuel owner repo number token (page + 1) (all_files ++ take 100 files) s
  full_page fuel token page all_files files long s =
      let tested : ltb (length (take 100 files)) 100 ≡ false =
        ground (arith, length-take 100 files) in
      rw tested refl

  after-after :
      (s : State) (token : String) (page n : ℕ)
      → after (after s (page_request token page ∷ [])) (page_requests token (page + 1) n)
        ≡ after s (page_requests token page (suc n))
  unfolding page_requests
  after-after s token page n =
      ap (λ sent. record s { sent = sent })
        (append_assoc s.sent (page_request token page ∷ []) (page_requests token (page + 1) n))

  get_pages_lem :
      (fuel : ℕ) (token : String) (page : ℕ) (all_files files : List Json) (s : State)
      → length files < 100 * fuel
      → IsPagedFrom token page files
      → get_pages api fuel owner repo number token page all_files s ≡ (
        ok (some (all_files ++ files)),
        after s (page_requests token page (length files / 100 + 1)),
      )
  get_pages_lem zero token page all_files files s h paged = absurd (omega arith)
  get_pages_lem (suc fuel) token page all_files [] s h paged =
      unfold get_pages in
      unfold page_requests in
      rw (get_page_lem token page [] s paged) (rw (append-nil all_files) refl)
  get_pages_lem (suc fuel) token page all_files (v ∷ rest) s h paged =
      elim (Bool-cases (ltb (length (v ∷ rest)) 100)) [
        | inl short ↦
            get_pages-cons fuel token page all_files rest v s paged
            ∙ last_page fuel token page all_files (v ∷ rest) s (ground arith)
        | inr long ↦
            let files = v ∷ rest in
            let long' : 100 ≤ length files = ground arith in
            let shorter : length (drop 100 files) + 100 ≡ length files =
              length-drop 100 files long' in
            let first = after s (page_request token page ∷ []) in
            let pages : length files / 100 + 1 ≡ suc (length (drop 100 files) / 100 + 1) =
              omega arith in
            get_pages-cons fuel token page all_files rest v s paged
            ∙ full_page fuel token page all_files files long' first
            ∙ get_pages_lem fuel token (page + 1) (all_files ++ take 100 files) (drop 100 files)
                first (omega arith) (next-IsPagedFrom token page files long' paged)
            ∙ (rw
                (
                  append_assoc all_files (take 100 files) (drop 100 files),
                  take-append-drop 100 files,
                  after-after s token page (length (drop 100 files) / 100 + 1),
                )
                (rw pages refl))
      ]

  -- If a token is at hand and the server answers every page, whatever was sent before, with the files
  -- in pages of a hundred, then with fuel for the number of pages the loop ends: the result is all the
  -- files, in order, and what was sent is one request for each page, and one more for an empty page
  -- where the last one is full.
  pub get_pr_files_lem :
      (fuel : ℕ) (token : String) (files : List Json) (s s1 : State)
      → length files < 100 * fuel
      → IsPagedFrom token 1 files
      → installation_token_for_repo api owner repo s ≡ (ok token, s1)
      → get_pr_files api fuel owner repo number s ≡ (
        ok (some files),
        record s1 { sent = s1.sent ++ page_requests token 1 (length files / 100 + 1) },
      )
  unfolding get_pr_files
  get_pr_files_lem fuel token files s s1 h paged granted =
      rw granted (get_pages_lem fuel token 1 [] files s1 h paged)
