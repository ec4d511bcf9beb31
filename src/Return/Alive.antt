-- ===== src/Return/Alive.antt =====
-- The kernel between two entries: a user task runs, or the idle thread does, and every other thread is
-- parked where the scheduler can take it up.
use d_rpi_proto_os.Base.{ℕ, ◌<◌, ◌≤◌, ◌≡◌, ◌≢◌, ◌⊎◌, false, some, ◌||◌}
use d_rpi_proto_os.Config.{el0_sandbox_base, el0_sandbox_end, thread_count, thread_slot_idle}
use d_rpi_proto_os.State.{
  Kernel, Thread, Build, is_stopped, is_dead, is_blocked, running, task_running, return_none,
}
use d_rpi_proto_os.Thread.Current.{IsCurrent}
use d_rpi_proto_os.Task.Registers.{InKernelMap}
use d_rpi_proto_os.Waits.{waiting, is_task_running}
use d_rpi_proto_os.Invariant.{Inv}
use d_rpi_proto_os.Handling.{Asleep}
use d_rpi_proto_os.Return.{thread_of_ptr}

-- What the addresses of the build must satisfy: the table of threads is mapped, the kernel's code is
-- not in the sandbox, and compiled code calls
-- `context_switch` with a stack and from an address that is not the bootstrap code's.
pub record Linked (b : Build) : Type 0 where
  pub in_map : InKernelMap b
  pub live_lr : (k : Kernel) → (b.live_regs k).lr ≢ 0
  pub live_sp : (k : Kernel) → (b.live_regs k).sp ≢ 0
  pub outside :
      (b.user_task_return_to_kernel < el0_sandbox_base)
      ⊎ (el0_sandbox_end ≤ b.user_task_return_to_kernel)
  pub entries : b.thread_entry_idle ≢ b.thread_entry_user_task
  pub live_call : (k : Kernel) → (b.live_regs k).lr ≢ b.thread_bootstrap

-- A thread that has not run yet starts the user task of its own slot, or the idle loop.
pub record Parked (b : Build) (s : ℕ) (t : Thread) : Type 0 where
  pub user_entry :
      t.ctx.lr ≡ b.thread_bootstrap → s < thread_slot_idle → t.ctx.x19 ≡ b.thread_entry_user_task
  pub user_arg :
      t.ctx.lr ≡ b.thread_bootstrap → s < thread_slot_idle → thread_of_ptr b t.ctx.x20 ≡ s
  pub user_some : t.ctx.lr ≡ b.thread_bootstrap → s < thread_slot_idle → t.ctx.x20 ≢ 0
  pub user_reason :
      t.ctx.lr ≡ b.thread_bootstrap → s < thread_slot_idle → t.user.return_reason ≡ return_none
  pub idle_entry :
      t.ctx.lr ≡ b.thread_bootstrap → s ≡ thread_slot_idle → t.ctx.x19 ≢ b.thread_entry_user_task

-- User task `c` runs.
pub record Running (b : Build) (k : Kernel) (c : ℕ) : Type 0 where
  pub sound : Inv k
  pub current : IsCurrent k c
  pub small : c < thread_slot_idle
  pub thread_running : (k.threads c).state ≡ running
  pub task_runs : (k.threads c).user.state ≡ task_running
  pub no_reason : (k.threads c).user.return_reason ≡ return_none
  pub asleep : (s : ℕ) → s < thread_count → s ≢ c → Asleep (k.threads s)
  pub parked : (s : ℕ) → s < thread_count → s ≢ c → Parked b s (k.threads s)

-- The idle thread runs.
pub record Idling (b : Build) (k : Kernel) : Type 0 where
  pub sound : Inv k
  pub current : k.current ≡ some thread_slot_idle
  pub thread_running : (k.threads thread_slot_idle).state ≡ running
  pub rests : is_task_running (k.threads thread_slot_idle).user.state ≡ false
  pub asleep : (s : ℕ) → s < thread_count → s ≢ thread_slot_idle → Asleep (k.threads s)
  pub parked : (s : ℕ) → s < thread_count → s ≢ thread_slot_idle → Parked b s (k.threads s)

pub data Alive (b : Build) (k : Kernel) : Type 0 where
  runs : (c : ℕ) → Running b k c → Alive b k
  idles : Idling b k → Alive b k

-- Thread `c` is the current one, and nothing else runs.
pub record Chosen (b : Build) (k : Kernel) (c : ℕ) : Type 0 where
  pub sound : Inv k
  pub current : k.current ≡ some c
  pub live : is_stopped (k.threads c).state ≡ false
  pub ready :
      c < thread_slot_idle
      → (is_dead (k.threads c).user.state || is_blocked (k.threads c).user.state) ≡ false
  pub awake : c < thread_slot_idle → waiting k c ≡ false
  pub rests : c ≡ thread_slot_idle → is_task_running (k.threads c).user.state ≡ false
  pub asleep : (s : ℕ) → s < thread_count → s ≢ c → Asleep (k.threads s)
  pub parked : (s : ℕ) → s < thread_count → s ≢ c → Parked b s (k.threads s)
