-- ===== src/Web/Webhook/Welcome.antt =====
-- Deliveries that a job is enqueued for.
use gita.Base.{◌+◌, ◌≡◌, refl, Bool, true, false, some, List, [], ◌∷◌, ◌++◌, ◌==◌, Result, ok}
use gita.Base.Tables.{lookup, insert}
use gita.Base.Text.{lower}
use gita.Web.Json.{Json, is_text}
use gita.Web.Dispatch.{JobRequest, dispatch_event}
use gita.Web.Event.{WebhookEvent, parse_event}
use gita.Web.Event.Laws.{IsSigned, IsSigned-verify_signature}
use gita.Web.Cooldown.{State, is_recent, check_cooldown, record_enqueue}
use gita.Web.Webhook.{
  Request, Server, header, dispatched_answer, enqueue_job, request_job, route_event,
  receive_genuine, receive_webhook, receive_payload, receive_verified,
}

module _ (server : Server) where
  open server use {hmac_sha256, parse_json, repr, clock, github_webhook_secret, arq_pool}

  -- The repository is out of its cooldown, and the queue takes the job.
  pub record IsFree (job : JobRequest) (s : State) : Type 0 where
    pub cooled :
        is_recent (clock s.reads) (lookup (lower job.repo_full_name) s.last_enqueue) ≡ false
    pub accepts : List JobRequest → JobRequest → Result Bool
    pub pool : arq_pool ≡ some accepts
    pub fresh : accepts s.queue job ≡ ok true

  -- The delivery is no bot's, and the table of handlers makes the job of it.
  pub record IsRouted (payload : Json) (event : WebhookEvent) (job : JobRequest) : Type 0 where
    pub human : is_text "Bot" event.sender_type ≡ false
    pub handled : dispatch_event repr event.event_type event.action payload ≡ ok (some job)

  -- The delivery is signed with the secret, names its event, and is routed to a job that may run.
  pub record IsWelcome (r : Request) (s : State) (job : JobRequest) : Type 0 where
    pub payload : Json
    pub event : WebhookEvent
    pub configured : (github_webhook_secret == "") ≡ false
    pub present : (header r.x_hub_signature_256 == "") ≡ false
    pub signed : IsSigned hmac_sha256 r.body github_webhook_secret (header r.x_hub_signature_256)
    pub json : parse_json r.body ≡ some payload
    pub named : (header r.x_github_event == "") ≡ false
    pub no_ping : (header r.x_github_event == "ping") ≡ false
    pub read : parse_event payload (header r.x_github_event) r.x_github_delivery ≡ ok event
    pub routed : IsRouted payload event job
    pub free : IsFree job s

  -- The state after a job was enqueued: one job more, and the time of it.
  abbrev pub enqueued : JobRequest → State → State
  enqueued job s = record {
    last_enqueue = insert (lower job.repo_full_name) (clock (s.reads + 1)) s.last_enqueue;
    queue = s.queue ++ job ∷ [];
    reads = s.reads + 1 + 1;
  }

  -- A delivery that is welcome, in every respect that the record names, is dispatched: the job is
  -- enqueued, the time is recorded, and the answer says so.
  pub IsWelcome-receive_webhook :
      (r : Request) (s : State) (job : JobRequest)
      → IsWelcome r s job
      → receive_webhook server r s ≡ (ok (dispatched_answer server job), enqueued job s)
  unfolding receive_webhook receive_verified receive_genuine receive_payload route_event request_job
      enqueue_job check_cooldown record_enqueue
  IsWelcome-receive_webhook r s job h =
      rw
        (
          h.configured,
          h.present,
          IsSigned-verify_signature hmac_sha256 r.body github_webhook_secret _ h.signed,
          h.json,
          h.named,
          h.no_ping,
          h.read,
          h.routed.human,
          h.routed.handled,
          h.free.cooled,
          h.free.pool,
          h.free.fresh,
        )
        refl
