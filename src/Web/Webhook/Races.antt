-- ===== src/Web/Webhook/Races.antt =====
-- Two deliveries that overlap. The handler of webhooks.py awaits `pool.enqueue_job` after it has looked
-- at the cooldown table and before it writes to it, so that another delivery can come in between.
use gita.Base.{Bool}
use gita.Web.Dispatch.{JobRequest}
use gita.Web.Cooldown.{State, check_cooldown}
use gita.Web.Webhook.{Server, enqueue_job}

module _ (server : Server) where
  open server use {clock, arq_pool}

  -- Both deliveries look at the table before either job is enqueued: the two looks, and the state at the
  -- end.
  unfoldable pub overlap : JobRequest → JobRequest → State → Bool × Bool × State
  overlap job job' s =
      let (cooling, s1) = check_cooldown clock job.repo_full_name s in
      let (cooling', s2) = check_cooldown clock job'.repo_full_name s1 in
      let s3 = (enqueue_job server arq_pool job s2).1 in
      (cooling, cooling', (enqueue_job server arq_pool job' s3).1)
