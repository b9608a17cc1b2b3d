-- ===== src/Tests/Web.antt =====
-- The endpoint on a server whose HMAC is the secret before the body.
use gita.Base.{
  ◌*◌, ◌+◌, ◌≤◌, String, ◌<>◌, ◌≡◌, refl, ◌↔◌, true, none, some, [], ◌∷◌, arith, ok, err,
  type_error,
}
use gita.Base.Tables.{lookup, insert}
use gita.Base.Text.{lower, starts_with, first, skip, text_size, is_ascii}
use gita.Web.Json.{Json, null, str, obj, end, field, get_or, to_str}
use gita.Web.Dispatch.{
  JobRequest, reindex_job, event_handler, find_handler, handle_push_reindex, dispatch_event,
}
use gita.Web.Event.{WebhookEvent, parse_event, verify_signature, compare_digest}
use gita.Web.Cooldown.{State, window, check_cooldown, record_enqueue}
use gita.Web.Webhook.{
  Request, Server, receive_webhook, receive_verified, receive_genuine, receive_payload, route_event,
  request_job, enqueue_job,
}
use gita.Web.Webhook.Walls.{Outcome, receive_webhook-Outcome, receive_webhook-IsWelcome}
use gita.Web.Webhook.Welcome.{IsWelcome}
use gita.Web.Webhook.Spacing.{IsMonotonic, deliver, receive_webhook-window}
use gita.Web.Webhook.Failures.{receive_webhook-unverifiable}

-- Opens what a delivery goes through.
endpoint : Unit {0}
unfolding receive_webhook receive_verified receive_genuine receive_payload route_event request_job
    enqueue_job check_cooldown record_enqueue verify_signature compare_digest parse_event get_or
    event_handler find_handler handle_push_reindex dispatch_event lookup insert lower starts_with
    first skip text_size is_ascii to_str deliver
endpoint = tt

abbrev payload : Json
payload = obj (
    field "after" (str "abc") (
      field "repository" (obj (field "full_name" (str "Org/App") end))
        (field "sender" (obj (field "login" (str "ann") (field "type" (str "User") end))) end)))

abbrev event : WebhookEvent
event = record {
  event_type = "push";
  action = null;
  delivery_id = none;
  repo_full_name = str "Org/App";
  sender_login = str "ann";
  sender_type = str "User";
}

abbrev server : Server
server = record {
  hmac_sha256 = λ secret body. secret <> body;
  parse_json = λ body. some payload;
  repr = λ v. "...";
  clock = λ n. n * 61000000000;
  github_webhook_secret = "key";
  arq_pool = some (λ queue job. ok true);
}

abbrev delivery : String → Request
delivery signature = record {
  body = "body";
  x_github_event = some "push";
  x_hub_signature_256 = some signature;
  x_github_delivery = none;
}

abbrev start : State
start = record { last_enqueue = []; queue = []; reads = 0 }

abbrev job : JobRequest
job = reindex_job server.repr "org/app" (str "abc") (str "Org/App")

abbrev pushed_twice : State
pushed_twice =
    deliver server (delivery "sha256=forged" ∷ [])
      (receive_webhook server (delivery "sha256=keybody") start).1

first_delivery : IsWelcome server (delivery "sha256=keybody") start job
unfolding endpoint
first_delivery = record {
  payload = payload;
  event = event;
  configured = refl;
  present = refl;
  signed = record { text = refl; ascii = refl };
  json = refl;
  named = refl;
  no_ping = refl;
  read = refl;
  routed = record { human = refl; handled = refl };
  free = record { cooled = refl; accepts = λ queue job. ok true; pool = refl; fresh = refl };
}

second_delivery : IsWelcome server (delivery "sha256=keybody") pushed_twice job
unfolding endpoint
second_delivery = record {
  payload = payload;
  event = event;
  configured = refl;
  present = refl;
  signed = record { text = refl; ascii = refl };
  json = refl;
  named = refl;
  no_ping = refl;
  read = refl;
  routed = record { human = refl; handled = refl };
  free = record { cooled = refl; accepts = λ queue job. ok true; pool = refl; fresh = refl };
}

receive_webhook-Outcome_example :
    Outcome server
      (IsWelcome server (delivery "sha256=keybody") start)
      start
      (receive_webhook server (delivery "sha256=keybody") start)
receive_webhook-Outcome_example = receive_webhook-Outcome server (delivery "sha256=keybody") start

monotonic : IsMonotonic server
monotonic m n h = omega (arith, h)

receive_webhook-window_example : server.clock 1 + window ≤ server.clock pushed_twice.reads
receive_webhook-window_example =
    receive_webhook-window server (delivery "sha256=keybody") (delivery "sha256=keybody") job job
      (delivery "sha256=forged" ∷ []) start monotonic refl first_delivery second_delivery

receive_webhook-IsWelcome_example :
    ((receive_webhook server (delivery "sha256=keybody") start).1.queue ≡ job ∷ [])
    ↔ IsWelcome server (delivery "sha256=keybody") start job
receive_webhook-IsWelcome_example =
    receive_webhook-IsWelcome server (delivery "sha256=keybody") start job

receive_webhook-unverifiable_example :
    receive_webhook server (delivery "sha256=é") start ≡ (err type_error, start)
unfolding endpoint
receive_webhook-unverifiable_example =
    receive_webhook-unverifiable server (delivery "sha256=é") "é" start refl refl refl refl
