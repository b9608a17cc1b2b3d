-- ===== src/Web/Webhook/Spacing.antt =====
-- The cooldown over a sequence of deliveries.
use gita.Base.{
  ℕ, ◌+◌, ◌-◌, ◌≤◌, String, ◌≡◌, sym, ap, subst, ◌∙◌, false, Bool-cases, inl, inr, some, List, [],
  ◌∷◌, arith, eq_iff, ◌==◌, ltb, Result,
}
use gita.Base.Tables.{lookup, lookup-insert, lookup-insert_other}
use gita.Base.Text.{lower}
use gita.Web.Dispatch.{JobRequest}
use gita.Web.Cooldown.{State, is_recent, window}
use gita.Web.Webhook.{Request, Response, Server, receive_webhook}
use gita.Web.Webhook.Walls.{Outcome, idle, enqueues, receive_webhook-Outcome}
use gita.Web.Webhook.Welcome.{IsWelcome, IsWelcome-receive_webhook, enqueued}

module _ (server : Server) where
  open server use {clock}

  -- The state after a sequence of deliveries.
  unfoldable pub deliver : List Request → State → State
  deliver [] s = s
  deliver (r ∷ rest) s = deliver rest (receive_webhook server r s).1

  -- `time.monotonic` never goes back.
  abbrev pub IsMonotonic : Type 0
  IsMonotonic = (m n : ℕ) → m ≤ n → clock m ≤ clock n

  -- The table holds a time for the repository that is not before the `k`-th reading of the clock.
  record IsStamped (key : String) (k : ℕ) (s : State) : Type 0 where
    last : ℕ
    found : lookup key s.last_enqueue ≡ some last
    late : clock k ≤ last
    past : k ≤ s.reads

  enqueued-IsStamped :
      (key : String) (k : ℕ) (job : JobRequest) (s : State)
      → IsMonotonic
      → IsStamped key k s
      → IsStamped key k (enqueued server job s)
  enqueued-IsStamped key k job s mono h = elim (Bool-cases (lower job.repo_full_name == key)) [
    | inl same ↦ record {
      last = clock (s.reads + 1);
      found = rw ((eq_iff _ _).0 same) (lookup-insert key _ s.last_enqueue);
      late = mono k (s.reads + 1) (omega (arith, h.past));
      past = omega (arith, h.past);
    }
    | inr other ↦ record {
      last = h.last;
      found = lookup-insert_other _ key _ s.last_enqueue other ∙ h.found;
      late = h.late;
      past = omega (arith, h.past);
    }
  ]

  outcome-IsStamped :
      (key : String) (k : ℕ) (P : JobRequest → Type 0) (s : State) (out : Result Response × State)
      → IsMonotonic
      → IsStamped key k s
      → Outcome server P s out
      → IsStamped key k out.1
  outcome-IsStamped key k P s _ mono h (idle answer n le) = record {
    last = h.last;
    found = h.found;
    late = h.late;
    past = omega (arith, h.past, le);
  }
  outcome-IsStamped key k P s _ mono h (enqueues job _) = enqueued-IsStamped key k job s mono h

  deliver-IsStamped :
      (key : String) (k : ℕ) (rs : List Request) (s : State)
      → IsMonotonic
      → IsStamped key k s
      → IsStamped key k (deliver rs s)
  unfolding deliver
  deliver-IsStamped key k [] s mono h = h
  deliver-IsStamped key k (r ∷ rest) s mono h =
      deliver-IsStamped key k rest _ mono
        (outcome-IsStamped key k _ s _ mono h (receive_webhook-Outcome server r s))

  IsStamped-window :
      (key : String) (k : ℕ) (s : State)
      → IsStamped key k s
      → is_recent (clock s.reads) (lookup key s.last_enqueue) ≡ false
      → clock k + window ≤ clock s.reads
  IsStamped-window key k s h cooled =
      let clear : ltb (clock s.reads - h.last) window ≡ false = rw h.found at cooled in
      let late = h.late in ground arith

  -- On a clock that never goes back, if deliveries are handled one after the other, with no overlap, then
  -- two deliveries whose jobs are dispatched for one repository, with
  -- any others between them, are a window apart: the second one's look at the clock comes at least the
  -- window of sixty seconds after the time that was recorded for the first.
  pub receive_webhook-window :
      (r r' : Request) (job job' : JobRequest) (between : List Request) (s : State)
      → IsMonotonic
      → lower job.repo_full_name ≡ lower job'.repo_full_name
      → IsWelcome server r s job
      → IsWelcome server r' (deliver between (receive_webhook server r s).1) job'
      → clock (s.reads + 1) + window ≤ clock (deliver between (receive_webhook server r s).1).reads
  receive_webhook-window r r' job job' between s mono same h h' =
      let ran = ap (λ out. out.1) (IsWelcome-receive_webhook server r s job h) in
      let stamped : IsStamped (lower job.repo_full_name) (s.reads + 1) (enqueued server job s) =
        record {
          last = clock (s.reads + 1);
          found = lookup-insert _ _ s.last_enqueue;
          late = omega arith;
          past = omega arith;
        } in
      let kept =
        deliver-IsStamped _ _ between _ mono
          (subst (IsStamped (lower job.repo_full_name) (s.reads + 1)) (sym ran) stamped) in
      IsStamped-window _ _ _ kept (rw same h'.free.cooled)
