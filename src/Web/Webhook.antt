-- ===== src/Web/Webhook.antt =====
-- web/webhooks.py: the endpoint that receives the deliveries of GitHub. One delivery is handled without
-- a break; where its awaits let others in between, Web.Webhook.Races takes it in two parts.
pub mod Welcome
pub mod Walls
pub mod Spacing
pub mod Failures
pub mod Races
use gita.Base.{
  ℕ, String, ◌<>◌, Bool, true, false, Option, none, some, List, [], ◌∷◌, ◌++◌, ◌==◌, if◌then◌else◌,
  value_error, Result, ok, err,
}
use gita.Base.Exec.{Exec, pure, lift, ◌>>=◌}
use gita.Web.Json.{Json, str, get_or, is_text, to_str}
use gita.Web.Dispatch.{JobRequest, dispatch_event}
use gita.Web.Event.{WebhookEvent, verify_signature, parse_event}
use gita.Web.Cooldown.{State, check_cooldown, record_enqueue}

-- A request: its body and the three headers that are read.
pub record Request : Type 0 where
  pub body : String
  pub x_github_event : Option String
  pub x_hub_signature_256 : Option String
  pub x_github_delivery : Option String

pub record Response : Type 0 where
  pub content : String
  pub status_code : ℕ

-- What the endpoint uses and does not define: HMAC-SHA256 in hexadecimal (of a secret and a body),
-- the JSON parser, Python's print of lists and dicts, the clock, the configured secret, and the
-- queue, if there is one, which accepts a job, refuses it or fails, given the jobs that it took before.
pub record Server : Type 0 where
  pub hmac_sha256 : String → String → String
  pub parse_json : String → Option Json
  pub repr : Json → String
  pub clock : ℕ → ℕ
  pub github_webhook_secret : String
  pub arq_pool : Option (List JobRequest → JobRequest → Result Bool)

abbrev answer : ℕ → String → Response
answer status content = record { content = content; status_code = status }

-- `not header`, for a header that may be missing
abbrev pub header : Option String → String
header none = ""
header (some s) = s

abbrev pub parsed : Option Json → Result Json
parsed none = err value_error
parsed (some payload) = ok payload

module _ (server : Server) where
  open server use {hmac_sha256, parse_json, repr, clock, github_webhook_secret, arq_pool}

  abbrev cooldown_answer : JobRequest → Response
  cooldown_answer job = answer 200 (
      "{\"status\": \"ignored\", \"reason\": \"cooldown\", \"repo\": \""
      <> (job.repo_full_name <> "\"}"))

  abbrev queued_answer : JobRequest → Response
  queued_answer job = answer 200 (
      "{\"status\": \"ignored\", \"reason\": \"job already queued\", \"job_id\": \""
      <> (job.job_id <> "\"}"))

  abbrev pub dispatched_answer : JobRequest → Response
  dispatched_answer job = answer 200 (
      "{\"status\": \"dispatched\", \"job_id\": \""
      <> (job.job_id <> ("\", \"function\": \"" <> (job.function_name <> "\"}"))))

  abbrev unhandled_answer : WebhookEvent → Response
  unhandled_answer event = answer 200 (
      "{\"status\": \"ignored\", \"reason\": \"no handler\", \"event\": \""
      <> (event.event_type <> ("\", \"action\": \"" <> (to_str repr event.action <> "\"}"))))

  -- What follows `pool.enqueue_job`
  abbrev pub landed : JobRequest → Bool → Exec State Response
  landed job true s = (
    ok (dispatched_answer job),
    record_enqueue clock job.repo_full_name (record s { queue = s.queue ++ job ∷ [] }),
  )
  landed job false s = (ok (queued_answer job), s)

  -- `pool.enqueue_job` and what follows
  unfoldable pub enqueue_job :
      Option (List JobRequest → JobRequest → Result Bool) → JobRequest → Exec State Response
  enqueue_job none job s = pure (answer 503 "{\"error\": \"job queue unavailable\"}") s
  enqueue_job (some accepts) job s = (lift (accepts s.queue job) >>= landed job) s

  -- Gate 5
  unfoldable pub request_job : JobRequest → Exec State Response
  request_job job s =
      let (cooling, s') = check_cooldown clock job.repo_full_name s in
      if cooling then (ok (cooldown_answer job), s') else enqueue_job arq_pool job s'

  abbrev pub request_found : WebhookEvent → Option JobRequest → Exec State Response
  request_found event none = pure (unhandled_answer event)
  request_found event (some job) = request_job job

  -- Gates 3 and 4
  unfoldable pub route_event : Json → WebhookEvent → Exec State Response
  route_event payload event =
      if is_text "Bot" event.sender_type
      then pure (answer 200 "{\"status\": \"ignored\", \"reason\": \"bot sender\"}")
      else lift (dispatch_event repr event.event_type event.action payload) >>= request_found event

  unfoldable pub pong : Json → Exec State Response
  pong payload = do
    zen ← lift (get_or "zen" (str "") payload)
    pure (answer 200 "{\"status\": \"pong\"}")

  -- Gate 2 and what follows
  unfoldable pub receive_payload : Request → Json → Exec State Response
  receive_payload r payload =
      if header r.x_github_event == ""
      then pure (answer 400 "{\"error\": \"missing X-GitHub-Event header\"}")
      else if header r.x_github_event == "ping"
      then pong payload
      else lift (parse_event payload (header r.x_github_event) r.x_github_delivery)
        >>= route_event payload

  -- What follows the verified signature
  unfoldable pub receive_genuine : Request → Exec State Response
  receive_genuine r = lift (parsed (parse_json r.body)) >>= receive_payload r

  unfoldable pub receive_verified : Request → Bool → Exec State Response
  receive_verified r genuine =
      if genuine then receive_genuine r else pure (answer 401 "{\"error\": \"invalid signature\"}")

  unfoldable pub receive_webhook : Request → Exec State Response
  receive_webhook r =
      if github_webhook_secret == ""
      then pure (answer 500 "{\"error\": \"webhook secret not configured\"}")
      else if header r.x_hub_signature_256 == ""
      then pure (answer 401 "{\"error\": \"missing X-Hub-Signature-256 header\"}")
      else lift
          (verify_signature hmac_sha256 r.body (header r.x_hub_signature_256) github_webhook_secret)
        >>= receive_verified r
