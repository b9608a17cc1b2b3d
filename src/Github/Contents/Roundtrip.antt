-- ===== src/Github/Contents/Roundtrip.antt =====
-- A file that was written is read back.
use gita.Base.{
  ℕ, String, ◌<>◌, ◌≡◌, refl, sym, ap, ◌∙◌, Bool-cases, inl, inr, ◌==◌, eq_iff, Option, none, some,
  List, ◌∷◌, [], ◌++◌, arith, Result, ok,
}
use gita.Web.Json.{Json, obj, str, num, field, end, get_or}
use gita.Github.Http.{Request, Api, State, index, send, int_json}
use gita.Github.Tokens.{installation_token_for_repo}
use gita.Github.Writes.{repo_request, call_repo, contents_path, file_body, create_or_update_file}
use gita.Github.Contents.{
  strip_newlines, ref_query, decoded, or_blank, as_text, decode_base64, file_contents, get_contents,
}

-- What GitHub answers for a file
abbrev pub file_json : String → String → String → ℕ → Json
file_json path raw sha size = obj (
    field "encoding" (str "base64") (
      field "content" (str raw)
        (field "path" (str path) (field "sha" (str sha) (field "size" (num size) end)))))

or_blank-text : (raw : String) → or_blank (str raw) ≡ str raw
or_blank-text raw = elim (Bool-cases (raw == "")) [
  | inl blank ↦ rw blank (ap str (sym ((eq_iff raw "").0 blank)))
  | inr text ↦ rw text refl
]

text_of : Result Json → String
text_of (ok (str t)) = t
text_of _ = ""

sent_text : (a b : String) → ◌≡◌ {A = Result Json} (ok (str a)) (ok (str b)) → b ≡ a
unfolding text_of
sent_text a b h = sym (ap text_of h)

last_same : {A : Type 0} (xs : List A) (x y : A) → xs ++ x ∷ [] ≡ xs ++ y ∷ [] → x ≡ y
last_same [] x y h = cc
last_same (a ∷ xs) x y h = last_same xs x y (cc)

module _ (api : Api) (owner repo path : String) where
  open api use {http, quote, b64encode, b64decode}

  -- The request that reads the file on a branch
  abbrev pub contents_request : String → String → Request
  contents_request branch token =
      repo_request api owner repo "GET"
        (contents_path api path <> ref_query (quote "") (some branch)) none token

  decode_base64-text :
      (content raw : String)
      → b64decode (b64encode content) ≡ some content
      → strip_newlines raw ≡ b64encode content
      → decode_base64 api (or_blank (str raw)) ≡ ok (str content)
  decode_base64-text content raw law same =
      ap (decode_base64 api) (or_blank-text raw)
      ∙ ap (λ o. as_text (decoded o)) (ap b64decode same ∙ law)

  file_contents-file_json :
      (content raw sha : String) (size : ℕ)
      → b64decode (b64encode content) ≡ some content
      → strip_newlines raw ≡ b64encode content
      → file_contents api path (file_json path raw sha size)
        ≡ ok (record {
          path = str path;
          content = str content;
          sha = str sha;
          encoding = str "base64";
          size = size;
        })
  unfolding file_contents get_or int_json
  file_contents-file_json content raw sha size law same =
      rw (decode_base64-text content raw law same) refl

  -- The request that the write ends with carries the content in base64.
  put_request : String → String → String → Option String → String → Request
  put_request message content branch old token =
      repo_request api owner repo "PUT" (contents_path api path)
        (some (file_body api message content branch old)) token

  sent-create_or_update_file :
      (message content branch token : String) (old : Option String) (s s1 : State)
      → installation_token_for_repo api owner repo s ≡ (ok token, s1)
      → (create_or_update_file api owner repo path message content branch old s).1.sent
        ≡ s1.sent ++ put_request message content branch old token ∷ []
  unfolding create_or_update_file call_repo send put_request
  sent-create_or_update_file message content branch token old s s1 granted = ground (arith, granted)

  -- If base64 can be undone on the text, a token is at hand, and `create_or_update_file` sent one
  -- request, and GitHub answers a later read of the branch with a text that is, but for line breaks, the
  -- `content` of the body of that request, then the read returns the content that was to be written.
  pub get_contents-create_or_update_file :
      (message content branch token token' raw sha : String) (old : Option String) (size : ℕ)
      (s s1 t t1 : State) (written : Request) (payload : Json)
      → b64decode (b64encode content) ≡ some content
      → installation_token_for_repo api owner repo s ≡ (ok token, s1)
      → (create_or_update_file api owner repo path message content branch old s).1.sent
        ≡ s1.sent ++ written ∷ []
      → written.body ≡ some payload
      → index "content" payload ≡ ok (str (strip_newlines raw))
      → installation_token_for_repo api owner repo t ≡ (ok token', t1)
      → http t1.sent (contents_request branch token')
        ≡ some (record { status = 200; body = some (file_json path raw sha size) })
      → get_contents api owner repo path (some branch) t ≡ (
        ok (record {
          path = str path;
          content = str content;
          sha = str sha;
          encoding = str "base64";
          size = size;
        }),
        record t1 { sent = t1.sent ++ contents_request branch token' ∷ [] },
      )
  unfolding get_contents call_repo send index put_request
  get_contents-create_or_update_file message content branch token token' raw sha old size s s1 t t1
        written payload law granted sent body carried granted' answered =
      let put = put_request message content branch old token in
      let same_request : written ≡ put =
        last_same s1.sent written put
          (sym sent ∙ sent-create_or_update_file message content branch token old s s1 granted) in
      let same_body : some payload ≡ some (file_body api message content branch old) =
        sym body ∙ ap (λ (r : Request). r.body) same_request in
      let same_payload : payload ≡ file_body api message content branch old = cc in
      let same : strip_newlines raw ≡ b64encode content =
        sent_text _ _ (ap (index "content") (sym same_payload) ∙ carried) in
      rw granted' (rw answered (rw (file_contents-file_json content raw sha size law same) refl))
