-- ===== src/Web/Webhook/Walls.antt =====
-- What a delivery must be for the endpoint to enqueue a job.
use gita.Base.{
  ℕ, ◌≤◌, arith, ◌+◌, ◌≡◌, refl, ◌∙◌, sym, ap, subst, ◌↔◌, ◌++◌, [], ◌∷◌, Bool, true, false,
  Bool-cases, inl, inr, Option, none, some, List, ◌==◌, Result, ok, err,
}
use gita.Base.Tables.{lookup}
use gita.Base.Exec.{resume, pure}
use gita.Base.Text.{lower}
use gita.Web.Json.{Json, is_text}
use gita.Web.Dispatch.{JobRequest, dispatch_event}
use gita.Web.Event.{WebhookEvent, parse_event, verify_signature}
use gita.Web.Event.Laws.{IsSigned, verify_signature-IsSigned}
use gita.Web.Cooldown.{State, is_recent, check_cooldown, record_enqueue}
use gita.Web.Webhook.{
  Request, Response, Server, header, dispatched_answer, parsed, landed, enqueue_job, request_job,
  request_found, route_event, receive_genuine, receive_webhook, pong, receive_payload,
  receive_verified,
}
use gita.Web.Webhook.Welcome.{IsFree, IsRouted, IsWelcome, IsWelcome-receive_webhook, enqueued}

module _ (server : Server) where
  open server use {hmac_sha256, parse_json, repr, clock, github_webhook_secret, arq_pool}

  -- A call either leaves the queue and the cooldown table as they were, or it enqueues a job that
  -- meets `P` and says so.
  pub data Outcome (P : JobRequest → Type 0) (s : State) : Result Response × State → Type 0 where
    idle :
        (answer : Result Response) (n : ℕ)
        → s.reads ≤ n
        → Outcome P s (answer, record s { reads = n })
    enqueues :
        (job : JobRequest)
        → P job
        → Outcome P s (ok (dispatched_answer server job), enqueued server job s)

  implied :
      {P Q : JobRequest → Type 0} {s : State} {out : Result Response × State}
      → ((job : JobRequest) → P job → Q job)
      → Outcome P s out
      → Outcome Q s out
  implied f (idle answer n le) = idle answer n le
  implied f (enqueues job h) = enqueues job (f job h)

  answered-Outcome :
      (job : JobRequest) (s : State) (accepts : List JobRequest → JobRequest → Result Bool)
      (found : Result Bool)
      → arq_pool ≡ some accepts
      → accepts s.queue job ≡ found
      → is_recent (clock s.reads) (lookup (lower job.repo_full_name) s.last_enqueue) ≡ false
      → Outcome
          (λ j. (j ≡ job) × IsFree server j s)
          s
          (resume found (landed server job) (record s { reads = s.reads + 1 }))
  unfolding record_enqueue
  answered-Outcome job s accepts (err e) h fresh cooled = idle _ _ (omega arith)
  answered-Outcome job s accepts (ok false) h fresh cooled = idle _ _ (omega arith)
  answered-Outcome job s accepts (ok true) h fresh cooled =
      enqueues job (refl, record { cooled = cooled; accepts = accepts; pool = h; fresh = fresh })

  enqueue_job-Outcome :
      (job : JobRequest) (s : State) (pool : Option (List JobRequest → JobRequest → Result Bool))
      → arq_pool ≡ pool
      → is_recent (clock s.reads) (lookup (lower job.repo_full_name) s.last_enqueue) ≡ false
      → Outcome
          (λ j. (j ≡ job) × IsFree server j s)
          s
          (enqueue_job server pool job (record s { reads = s.reads + 1 }))
  unfolding enqueue_job record_enqueue
  enqueue_job-Outcome job s none h cooled = idle _ _ (omega arith)
  enqueue_job-Outcome job s (some accepts) h cooled =
      answered-Outcome job s accepts (accepts s.queue job) h refl cooled

  request_job-Outcome :
      (job : JobRequest) (s : State)
      → Outcome (λ j. (j ≡ job) × IsFree server j s) s (request_job server job s)
  unfolding request_job check_cooldown
  request_job-Outcome job s =
      elim (Bool-cases
        (is_recent (clock s.reads) (lookup (lower job.repo_full_name) s.last_enqueue))) [
          | inl cooling ↦ rw cooling (idle _ _ (omega arith))
          | inr cooled ↦ rw cooled (enqueue_job-Outcome job s arq_pool refl cooled)
        ]

  request_found-Outcome :
      (payload : Json) (event : WebhookEvent) (found : Result (Option JobRequest)) (s : State)
      → is_text "Bot" event.sender_type ≡ false
      → dispatch_event repr event.event_type event.action payload ≡ found
      → Outcome
          (λ j. IsRouted server payload event j × IsFree server j s)
          s
          (resume found (request_found server event) s)
  request_found-Outcome payload event (err e) s human h = idle _ _ (omega arith)
  request_found-Outcome payload event (ok none) s human h = idle _ _ (omega arith)
  request_found-Outcome payload event (ok (some job)) s human h =
      implied
        (λ j (same, free).
          (record { human = human; handled = h ∙ ap (λ x. ok (some x)) (sym same) }, free))
        (request_job-Outcome job s)

  route_event-Outcome :
      (payload : Json) (event : WebhookEvent) (s : State)
      → Outcome
          (λ j. IsRouted server payload event j × IsFree server j s)
          s
          (route_event server payload event s)
  unfolding route_event
  route_event-Outcome payload event s = elim (Bool-cases (is_text "Bot" event.sender_type)) [
    | inl bot ↦ rw bot (idle _ _ (omega arith))
    | inr human ↦ rw human (request_found-Outcome payload event _ s human refl)
  ]

  -- The gates before the event is read.
  record IsOpened (r : Request) : Type 0 where
    configured : (github_webhook_secret == "") ≡ false
    present : (header r.x_hub_signature_256 == "") ≡ false
    signed : IsSigned hmac_sha256 r.body github_webhook_secret (header r.x_hub_signature_256)

  parse_event-Outcome :
      (r : Request) (s : State) (payload : Json) (found : Result WebhookEvent)
      → IsOpened r
      → parse_json r.body ≡ some payload
      → (header r.x_github_event == "") ≡ false
      → (header r.x_github_event == "ping") ≡ false
      → parse_event payload (header r.x_github_event) r.x_github_delivery ≡ found
      → Outcome (IsWelcome server r s) s (resume found (route_event server payload) s)
  parse_event-Outcome r s payload (err e) opened json named no_ping h = idle _ _ (omega arith)
  parse_event-Outcome r s payload (ok event) opened json named no_ping h =
      implied
        (λ j (routed, free). record {
          payload = payload;
          event = event;
          configured = opened.configured;
          present = opened.present;
          signed = opened.signed;
          json = json;
          named = named;
          no_ping = no_ping;
          read = h;
          routed = routed;
          free = free;
        })
        (route_event-Outcome payload event s)

  pong-Outcome :
      (P : JobRequest → Type 0) (found : Result Json) (answer : Response) (s : State)
      → Outcome P s (resume found (λ zen. pure answer) s)
  pong-Outcome P (ok zen) answer s = idle _ _ (omega arith)
  pong-Outcome P (err e) answer s = idle _ _ (omega arith)

  receive_payload-Outcome :
      (r : Request) (s : State) (payload : Json)
      → IsOpened r
      → parse_json r.body ≡ some payload
      → Outcome (IsWelcome server r s) s (receive_payload server r payload s)
  unfolding receive_payload pong
  receive_payload-Outcome r s payload opened json =
      elim (Bool-cases (header r.x_github_event == "")) [
        | inl unnamed ↦ rw unnamed (idle _ _ (omega arith))
        | inr named ↦ elim (Bool-cases (header r.x_github_event == "ping")) [
          | inl ping ↦ rw (named, ping) (pong-Outcome _ _ _ s)
          | inr no_ping ↦
              rw (named, no_ping) (parse_event-Outcome r s payload _ opened json named no_ping refl)
        ]
      ]

  parsed-Outcome :
      (r : Request) (s : State) (found : Option Json)
      → IsOpened r
      → parse_json r.body ≡ found
      → Outcome (IsWelcome server r s) s (resume (parsed found) (receive_payload server r) s)
  parsed-Outcome r s none opened h = idle _ _ (omega arith)
  parsed-Outcome r s (some payload) opened h = receive_payload-Outcome r s payload opened h

  verified-Outcome :
      (r : Request) (s : State) (found : Result Bool)
      → (github_webhook_secret == "") ≡ false
      → (header r.x_hub_signature_256 == "") ≡ false
      → verify_signature hmac_sha256 r.body (header r.x_hub_signature_256) github_webhook_secret
        ≡ found
      → Outcome (IsWelcome server r s) s (resume found (receive_verified server r) s)
  unfolding receive_verified receive_genuine
  verified-Outcome r s (err e) configured present h = idle _ _ (omega arith)
  verified-Outcome r s (ok false) configured present h = idle _ _ (omega arith)
  verified-Outcome r s (ok true) configured present h =
      parsed-Outcome r s (parse_json r.body)
        (record {
          configured = configured;
          present = present;
          signed = verify_signature-IsSigned hmac_sha256 r.body github_webhook_secret _ h;
        })
        refl

  -- Whatever is delivered and whatever the state is: a call leaves the queue and the cooldown table as
  -- they were, or it enqueues one job, records the time for its repository and says so. In the second
  -- case the header is the prefix before the HMAC of the body under the configured secret, the body is
  -- JSON, the event is named and no ping, the sender is no bot, the table of handlers makes that job of
  -- it, the repository is out of its cooldown and the queue takes the job.
  pub receive_webhook-Outcome :
      (r : Request) (s : State) → Outcome (IsWelcome server r s) s (receive_webhook server r s)
  unfolding receive_webhook
  receive_webhook-Outcome r s = elim (Bool-cases (github_webhook_secret == "")) [
    | inl missing ↦ rw missing (idle _ _ (omega arith))
    | inr configured ↦ elim (Bool-cases (header r.x_hub_signature_256 == "")) [
      | inl absent ↦ rw (configured, absent) (idle _ _ (omega arith))
      | inr present ↦ rw (configured, present) (verified-Outcome r s _ configured present refl)
    ]
  ]

  last_job : (xs : List JobRequest) (x y : JobRequest) → xs ++ x ∷ [] ≡ xs ++ y ∷ [] → x ≡ y
  last_job [] x y h = cc
  last_job (a ∷ xs) x y h = last_job xs x y (cc)

  no_job : (xs : List JobRequest) (x : JobRequest) → xs ≡ xs ++ x ∷ [] → ⊥
  no_job [] x h = cc
  no_job (a ∷ xs) x h = no_job xs x (cc)

  Outcome-IsWelcome :
      (r : Request) (s : State) (job : JobRequest) (out : Result Response × State)
      → Outcome (IsWelcome server r s) s out
      → out.1.queue ≡ s.queue ++ job ∷ []
      → IsWelcome server r s job
  Outcome-IsWelcome r s job _ (idle answer n le) h = absurd (no_job s.queue job h)
  Outcome-IsWelcome r s job _ (enqueues other welcome) h =
      subst (IsWelcome server r s) (last_job s.queue other job h) welcome

  -- A delivery adds a job to the queue exactly if it is welcome: the header is the prefix before the HMAC
  -- of the body under the configured secret, the body is JSON, the event is named and no ping, the sender
  -- is no bot, the table of handlers makes that job of it, the repository is out of its cooldown and the
  -- queue takes the job.
  pub receive_webhook-IsWelcome :
      (r : Request) (s : State) (job : JobRequest)
      → ((receive_webhook server r s).1.queue ≡ s.queue ++ job ∷ []) ↔ IsWelcome server r s job
  receive_webhook-IsWelcome r s job = (
    Outcome-IsWelcome r s job (receive_webhook server r s) (receive_webhook-Outcome r s),
    λ welcome. ap (λ out. out.1.queue) (IsWelcome-receive_webhook server r s job welcome),
  )
