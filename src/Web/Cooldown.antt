-- ===== src/Web/Cooldown.antt =====
-- web/cooldown.py: at most one job for a repository in a window of time. Times are whole
-- nanoseconds, which is what `time.monotonic` counts in; `clock n` is what the n-th call of it returns.
use gita.Base.{ℕ, ◌+◌, ◌-◌, ◌*◌, String, Bool, false, Option, none, some, List, ltb}
use gita.Base.Tables.{lookup, insert}
use gita.Base.Text.{lower}
use gita.Web.Dispatch.{JobRequest}

abbrev pub default_cooldown_seconds : ℕ
default_cooldown_seconds = 60

abbrev pub window : ℕ
window = default_cooldown_seconds * 1000000000

-- The state of the web process and of the queue: `_last_enqueue`, the jobs that the queue took, and
-- how often the clock was read.
pub record State : Type 0 where
  pub last_enqueue : List (String × ℕ)
  pub queue : List JobRequest
  pub reads : ℕ

abbrev pub is_recent : ℕ → Option ℕ → Bool
is_recent now none = false
is_recent now (some last) = ltb (now - last) window

module _ (clock : ℕ → ℕ) where
  unfoldable pub check_cooldown : String → State → Bool × State
  check_cooldown repo_full_name s = (
    is_recent (clock s.reads) (lookup (lower repo_full_name) s.last_enqueue),
    record s { reads = s.reads + 1 },
  )

  unfoldable pub record_enqueue : String → State → State
  record_enqueue repo_full_name s = record s {
    last_enqueue = insert (lower repo_full_name) (clock s.reads) s.last_enqueue;
    reads = s.reads + 1;
  }
