-- ===== src/Web/Event.antt =====
-- What web/webhooks.py reads of a delivery: the check of the HMAC signature and the event's fields.
pub mod Laws
use gita.Base.{
  String, Bool, ◌&&◌, not, Option, ◌==◌, if◌then◌else◌, type_error, Result, ok, err, ◌>>=◌,
}
use gita.Base.Text.{starts_with, skip, is_ascii}
use gita.Web.Json.{Json, get, get_dict}

pub record WebhookEvent : Type 0 where
  pub event_type : String
  pub action : Json
  pub delivery_id : Option String
  pub repo_full_name : Json
  pub sender_login : Json
  pub sender_type : Json

-- `hmac.compare_digest` of two texts, which may only be ASCII
unfoldable pub compare_digest : String → String → Result Bool
compare_digest a b = if is_ascii a && is_ascii b then ok (a == b) else err type_error

-- The argument is HMAC-SHA256 in hexadecimal, of a secret and a body.
unfoldable pub verify_signature :
    (String → String → String) → String → String → String → Result Bool
verify_signature hmac_sha256 payload_body signature_header secret =
    if not (starts_with "sha256=" signature_header)
    then ok Bool.false
    else compare_digest (hmac_sha256 secret payload_body) (skip 7 signature_header)

unfoldable pub parse_event : Json → String → Option String → Result WebhookEvent
parse_event payload event_type delivery_id = do
  sender ← get_dict "sender" payload
  repo ← get_dict "repository" payload
  action ← get "action" payload
  repo_full_name ← get "full_name" repo
  sender_login ← get "login" sender
  sender_type ← get "type" sender
  ok (record {
    event_type = event_type;
    action = action;
    delivery_id = delivery_id;
    repo_full_name = repo_full_name;
    sender_login = sender_login;
    sender_type = sender_type;
  })
