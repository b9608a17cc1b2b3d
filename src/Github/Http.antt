-- ===== src/Github/Http.antt =====
-- What github/client.py takes from outside: the HTTP client, the clock, the signature of a JWT, and the
-- functions of urllib, base64 and datetime; and the state of a `GithubClient`. Times are in
-- microseconds.
use gita.Base.{
  ℕ, ◌+◌, ◌-◌, ◌/◌, String, true, false, ◌&&◌, Option, none, some, List, [], ◌∷◌, ◌++◌, ◌==◌, leb,
  ltb, if◌then◌else◌, Result, ok, err, value_error, key_error, type_error, http_error,
}
use gita.Base.Exec.{Exec}
use gita.Value.{Value}
use gita.Web.Json.{Json, flag, num, str, obj, Fields, end, field}

pub record Request : Type 0 where
  pub method : String
  pub url : String
  pub authorization : String
  pub body : Option Json

-- `body` is none where `response.json()` raises.
pub record Response : Type 0 where
  pub status : ℕ
  pub body : Option Json

pub record CachedToken : Type 0 where
  pub token : String
  pub expires_at : ℕ

-- `http` answers a request after those that were sent before, or fails to. `sign iat exp iss` is
-- `jwt.encode`; `from_iso` is `datetime.fromisoformat`, none where it raises; `quote safe s` is
-- `urllib.parse.quote`; `b64encode` goes from a text by its UTF-8 bytes to ASCII, and `b64decode` back,
-- none where it raises; `parse_int` is `int` of a text.
pub record Api : Type 0 where
  pub http : List Request → Request → Option Response
  pub clock : ℕ → ℕ
  pub sign : ℕ → ℕ → String → String
  pub app_id : String
  pub from_iso : String → Option ℕ
  pub quote : String → String → String
  pub b64encode : String → String
  pub b64decode : String → Option String
  pub parse_int : String → Option ℕ
  pub repr : Json → String

-- The two caches, what was sent, and how often the clock was read. The front of a cache hides what is
-- behind it.
pub record State : Type 0 where
  pub installation_ids : List ((String × String) × ℕ)
  pub installation_tokens : List (ℕ × CachedToken)
  pub sent : List Request
  pub reads : ℕ

-- `data[key]`
unfoldable pub index_field : String → Fields → Result Json
index_field k end = err key_error
index_field k (field j v rest) = if j == k then ok v else index_field k rest

unfoldable pub index : String → Json → Result Json
unfolding index_field
index k (obj fields) = index_field k fields
index k _ = err type_error

abbrev pub int_text : Option ℕ → Result ℕ
int_text none = err value_error
int_text (some n) = ok n

abbrev pub json_of : Option Json → Result Json
json_of none = err value_error
json_of (some payload) = ok payload

module _ (api : Api) where
  open api use {http, clock, sign, app_id, parse_int, repr}

  -- `int(v)`, of a JSON value
  unfoldable pub int_json : Json → Result ℕ
  int_json (num n) = ok n
  int_json (flag true) = ok 1
  int_json (flag false) = ok 0
  int_json (str s) = int_text (parse_int s)
  int_json _ = err type_error

  -- `int(v)`, of a value of a decision
  unfoldable pub int_value : Value → Result ℕ
  int_value (Value.num n) = ok n
  int_value (Value.flag true) = ok 1
  int_value (Value.flag false) = ok 0
  int_value (Value.str s) = int_text (parse_int s)
  int_value _ = err type_error

  -- A request, and `raise_for_status` on its response
  abbrev pub checked : Option Response → Result Response
  checked none = err http_error
  checked (some response) =
      if leb 200 response.status && ltb response.status 300 then ok response else err http_error

  unfoldable pub send : Request → Exec State Response
  send r s = (checked (http s.sent r), record s { sent = s.sent ++ r ∷ [] })

  unfoldable pub read_clock : Exec State ℕ
  read_clock s = (ok (clock s.reads), record s { reads = s.reads + 1 })

  -- The token that is signed at a reading of the clock
  abbrev pub jwt_at : ℕ → String
  jwt_at time = let seconds = time / 1000000 in sign (seconds - 60) (seconds + 540) app_id

  -- `GithubAppAuth.generate_jwt`
  unfoldable pub generate_jwt : Exec State String
  generate_jwt s = (ok (jwt_at (clock s.reads)), record s { reads = s.reads + 1 })
