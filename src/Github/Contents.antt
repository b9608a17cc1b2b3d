-- ===== src/Github/Contents.antt =====
-- `get_contents` of github/client.py: a file of a repository, decoded.
pub mod Roundtrip
use Prim.Native.Char.{code}
use gita.Base.{
  ℕ, String, ◌<>◌, Option, none, some, eqb, if◌then◌else◌, value_error, Result, ok, err,
  attribute_error, ◌>>=◌,
}
use gita.Base.Exec.{Exec, lift}
use gita.Base.Exec.{◌>>=◌ as ◌>=>◌}
use gita.Web.Json.{Json, num, str, arr, obj, get_or, truthy, is_text}
use gita.Github.Http.{Api, State, int_json}
use gita.Github.Writes.{contents_path}
use gita.Github.Reads.{read_json}

pub record FileContents : Type 0 where
  pub path : Json
  pub content : Json
  pub sha : Json
  pub encoding : Json
  pub size : ℕ

-- `s.replace("\n", "")`
unfoldable pub strip_newlines : String → String
strip_newlines String.[] = ""
strip_newlines (String.◌∷◌ c s) =
    let rest = strip_newlines s in if eqb (code c) b'\n' then rest else String.◌∷◌ c rest

abbrev pub decoded : Option String → Result String
decoded none = err value_error
decoded (some s) = ok s

-- `data.get("content", "") or ""`
abbrev pub or_blank : Json → Json
or_blank v = if truthy v then v else str ""

abbrev pub ref_query : (String → String) → Option String → String
ref_query quote none = ""
ref_query quote (some ref) = "?ref=" <> quote ref

abbrev pub as_text : Result String → Result Json
as_text (err e) = err e
as_text (ok text) = ok (str text)

module _ (api : Api) where
  open api use {quote, b64decode}

  -- Only a text has the method `replace`.
  abbrev pub decode_base64 : Json → Result Json
  decode_base64 (str raw) = as_text (decoded (b64decode (strip_newlines raw)))
  decode_base64 _ = err attribute_error

  abbrev pub decode_content : Json → Json → Result Json
  decode_content encoding raw = if is_text "base64" encoding then decode_base64 raw else ok raw

  abbrev pub build_contents : String → Json → Result FileContents
  build_contents path payload = do
    encoding ← get_or "encoding" (str "base64") payload
    raw ← get_or "content" (str "") payload
    content ← decode_content encoding (or_blank raw)
    stored ← get_or "path" (str path) payload
    sha ← get_or "sha" (str "") payload
    size ← get_or "size" (num 0) payload
    bytes ← int_json api size
    ok (record { path = stored; content = content; sha = sha; encoding = encoding; size = bytes })

  -- What a file's JSON says; a list is that of a directory.
  unfoldable pub file_contents : String → Json → Result FileContents
  file_contents path (arr entries) = err value_error
  file_contents path (obj fields) = build_contents path (obj fields)
  file_contents path payload = err attribute_error

  unfoldable pub get_contents : String → String → String → Option String → Exec State FileContents
  get_contents owner repo path ref =
      read_json api owner repo (contents_path api path <> ref_query (quote "") ref) >=> λ payload.
      lift (file_contents path payload)
