-- ===== src/Supervisor/Mailbox.antt =====
-- What the two variables of kernel/core/supervisor.c stand for: a mailbox with room for one dead task, and at
-- most one task that watches it. What a death and a wait make of it is said here, without the kernel.
use d_rpi_proto_os.Base.{ℕ, ◌≡◌, ◌≢◌, ◌⊎◌, Option, some, none, ◌==◌, if◌then◌else◌, leb, true}
use d_rpi_proto_os.Config.{slot_none, minus_one, thread_count, thread_slot_task_c}
use d_rpi_proto_os.State.{Kernel, Build, return_notify_block}
use d_rpi_proto_os.Task.{woken}
use d_rpi_proto_os.Ipc.Channel.{Verdict, refused, blocked, returned}

pub record Mailbox : Type 0 where
  pub news : Option ℕ
  pub watcher : Option ℕ

-- The mailbox behind a death, and who is told of it.
abbrev announce : ℕ → Mailbox → Option ℕ → Mailbox × Option ℕ
announce slot m (some s) = (record m { watcher = none }, some s)
announce slot m none = (record { news = some slot; watcher = none }, none)

abbrev forget : ℕ → Option ℕ → Option ℕ
forget slot (some s) = if s == slot then none else some s
forget slot none = none

-- A death of a task of the table: a dead watcher is forgotten, another one is told, and without one the
-- news are kept, in place of older ones.
abbrev pub post : ℕ → Mailbox → Mailbox × Option ℕ
post slot m = if leb thread_count slot then (m, none) else announce slot m (forget slot m.watcher)

abbrev watch : ℕ → Mailbox → Option ℕ → Mailbox × Verdict
watch c m (some s) = (m, refused)
watch c m none = (record m { watcher = some c }, blocked)

abbrev fetch : ℕ → Mailbox → Option ℕ → Mailbox × Verdict
fetch c m (some slot) = (record m { news = none }, returned slot)
fetch c m none = watch c m m.watcher

-- A wait of a task, which only task C may make: the news are fetched, or it becomes the watcher.
abbrev pub wait : ℕ → Mailbox → Mailbox × Verdict
wait c m = if c == thread_slot_task_c then fetch c m m.news else (m, refused)

-- Nobody watches a mailbox with news.
abbrev pub Alert : Mailbox → Type 0
Alert m = (m.news ≡ none) ⊎ (m.watcher ≡ none)

-- The mailbox that the kernel's variables stand for.
abbrev pub slot_of : ℕ → Option ℕ
slot_of s = if s == slot_none then none else some s

abbrev pub mailbox_of : Kernel → Mailbox
mailbox_of k = record {
  news = slot_of k.pending_death_slot;
  watcher = slot_of k.blocked_supervisor_slot;
}

-- Nothing but the threads, the mailbox and the request for a switch has changed.
abbrev Elsewhere : Kernel → Kernel → Type 0
Elsewhere k k' = k' ≡ record k {
  threads = k'.threads;
  pending_death_slot = k'.pending_death_slot;
  blocked_supervisor_slot = k'.blocked_supervisor_slot;
  resched_pending = k'.resched_pending;
}

-- The threads behind a death that somebody is told of, or nobody.
abbrev pub Told : Kernel → ℕ → Option ℕ → Kernel → Type 0
Told k slot none k' = (k'.threads ≡ k.threads) × (k'.resched_pending ≡ k.resched_pending)
Told k slot (some s) k' =
    (k'.threads s ≡ woken slot (k.threads s))
    × ((s' : ℕ) → s' ≢ s → k'.threads s' ≡ k.threads s')
    × (k'.resched_pending ≡ true)

-- A death has been noted as the mailbox says.
pub record Posted (k : Kernel) (slot : ℕ) (k' : Kernel) : Type 0 where
  pub mailbox : mailbox_of k' ≡ (post slot (mailbox_of k)).0
  pub told : Told k slot (post slot (mailbox_of k)).1 k'
  pub elsewhere : Elsewhere k k'
  pub alert : Alert (mailbox_of k) → Alert (mailbox_of k')

-- What task `c` sees of its wait.
abbrev pub Sees : Build → Kernel → ℕ → Verdict → ℕ → Kernel → Type 0
Sees b k c refused r k' = (r ≡ minus_one) × (k' ≡ k)
Sees b k c blocked r k' =
    ((k'.threads c).user.return_reason ≡ return_notify_block)
    × (k'.frame.elr ≡ b.user_task_return_to_kernel)
    × ((s : ℕ) → s ≢ c → k'.threads s ≡ k.threads s)
    × (k'.endpoints ≡ k.endpoints)
    × (k'.mem ≡ k.mem)
Sees b k c (returned n) r k' =
    (r ≡ n) × (k'.threads ≡ k.threads) × (k'.frame ≡ k.frame) × Elsewhere k k'

-- A wait of task `c` has been answered as the mailbox says.
pub record Answered (b : Build) (k : Kernel) (c r : ℕ) (k' : Kernel) : Type 0 where
  pub mailbox : mailbox_of k' ≡ (wait c (mailbox_of k)).0
  pub sees : Sees b k c (wait c (mailbox_of k)).1 r k'
  pub alert : Alert (mailbox_of k) → Alert (mailbox_of k')
