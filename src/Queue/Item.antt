-- ===== src/Queue/Item.antt =====
-- backend/src/backend/domain/queue/queue_item.py and the columns of QueueItemRecord in
-- infrastructure/database/models/task.py. A datetime is the number of microseconds of its UTC
-- instant, which `as_utc` gives and the database stores; `updated_at`, which the database sets and
-- nothing here reads, is left out.
use automated_short_drama.Prelude.{
  ℕ, ◌*◌, String, ◌==◌, Bool, false, Option, none, some, nat_eq, ltb,
}
use automated_short_drama.Prelude.Int.{ℤ}

pub data QueueState : Type 0 where
  waiting_time queued claimed running retry_wait paused manual_review failed dry_run completed
        cancelled :
      QueueState

pub record QueueItem : Type 0 where
  pub id : String
  pub task_id : String
  pub state : QueueState
  pub priority : ℤ
  pub available_at : ℕ
  pub claimed_by : Option String
  pub lease_until : Option ℕ
  pub attempt_count : ℕ
  pub next_run_at : Option ℕ
  pub failure_code : Option String
  pub retry_safe : Bool
  pub created_at : ℕ

-- Two states are the same text exactly if they have one number.
abbrev pub ordinal : QueueState → ℕ
ordinal waiting_time = 0
ordinal queued = 1
ordinal claimed = 2
ordinal running = 3
ordinal retry_wait = 4
ordinal paused = 5
ordinal manual_review = 6
ordinal failed = 7
ordinal dry_run = 8
ordinal completed = 9
ordinal cancelled = 10

abbrev pub state_eq : QueueState → QueueState → Bool
state_eq s t = nat_eq (ordinal s) (ordinal t)

-- `x == y` where `x` may be None or NULL.
abbrev pub is_text : Option String → String → Bool
is_text none t = false
is_text (some s) t = s == t

-- `x < now` where `x` may be NULL.
abbrev pub is_before : Option ℕ → ℕ → Bool
is_before none now = false
is_before (some t) now = ltb t now

-- timedelta(seconds=n)
abbrev pub seconds : ℕ → ℕ
seconds n = n * 1000000
