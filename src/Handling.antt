-- ===== src/Handling.antt =====
-- A system call or a fault of user task `c` on its way through the kernel: what holds from the entry in
-- state `k` to a later state `k'`. The records may be ahead of the tasks they speak of, or behind: `b`
-- is the set of tasks that the records hold for waiting, `o` the set that does wait, except for `c`.
pub mod Stages
pub mod Ends
pub mod Ahead
pub mod Woken
use d_rpi_proto_os.Base.{
  ℕ, List, ◌≤◌, ◌<◌, ◌≡◌, ◌≢◌, ◌⊎◌, refl, Bool, true, false, arith, ◌==◌, update, ◌∙◌, update_ne,
  ap, ==_refl,
}
use d_rpi_proto_os.Config.{
  thread_count, thread_slot_idle, el0_sandbox_base, el0_sandbox_end, ep_count, slot_none,
  spsr_el1h_masked,
}
use d_rpi_proto_os.State.{
  Kernel, Thread, Endpoint, ThreadKind, ReturnReason, Build, is_stopped, is_running, return_none,
  running, task_running,
}
use d_rpi_proto_os.State.Effect.{done, put_thread, put_endpoint, Outcome, Ensures}
use d_rpi_proto_os.Thread.{thread_request_resched}
use d_rpi_proto_os.Thread.Current.{IsCurrent}
use d_rpi_proto_os.Task.{woken, thread_user_wake_with_x0, thread_user_trap_redirect, save_frame}
use d_rpi_proto_os.Task.Wake.{thread_user_wake_with_x0_lem}
use d_rpi_proto_os.Task.Redirect.{redirected, thread_user_trap_redirect_lem}
use d_rpi_proto_os.Ipc.Range.{InSandbox}
use d_rpi_proto_os.Waits.{waiter, waiting, is_waiting, is_block_reason, is_task_running}
use d_rpi_proto_os.Waits.Table.{Place, at_supervisor, write, Agree, Agree-ext}
use d_rpi_proto_os.Invariant.{
  ThreadOk, EndpointOk, Sound, Inv, Sound-put_thread, Sound-put_endpoint, Sound-ext,
  waiter_supervisor,
}

abbrev pub Outside : ℕ → Type 0
Outside a = (a < el0_sandbox_base) ⊎ (el0_sandbox_end ≤ a)

-- A thread that is not on the processor, and its task.
abbrev pub Asleep : Thread → Type 0
Asleep t = (is_running t.state ≡ false) × (is_task_running t.user.state ≡ false)

-- A thread whose kernel context stays, and whose task gets no reason to return.
abbrev pub Kept : Thread → Thread → Type 0
Kept old new =
    (new.ctx ≡ old.ctx)
    × (old.user.return_reason ≡ return_none → new.user.return_reason ≡ return_none)

-- The kernel is entered from user task `c`.
pub record Trapped (k : Kernel) (c : ℕ) : Type 0 where
  pub sound : Inv k
  pub current : IsCurrent k c
  pub small : c < thread_slot_idle
  pub thread_running : (k.threads c).state ≡ running
  pub task_runs : (k.threads c).user.state ≡ task_running
  pub no_reason : (k.threads c).user.return_reason ≡ return_none
  pub asleep : (s : ℕ) → s < thread_count → s ≢ c → Asleep (k.threads s)
  pub elr : InSandbox k.frame.elr

pub Trapped-awake : {k : Kernel} {c : ℕ} → Trapped k c → waiting k c ≡ false
Trapped-awake t = rw (t.thread_running, t.task_runs, t.no_reason) refl

pub record Stage (k : Kernel) (c : ℕ) (k' : Kernel) (b o : ℕ → Bool) : Type 0 where
  pub sound : Sound k' b
  pub current : IsCurrent k' c
  pub thread : k'.threads c ≡ k.threads c
  pub frame : k'.frame ≡ k.frame
  pub outside : (a : ℕ) → Outside a → k'.mem a ≡ k.mem a
  pub others : (s : ℕ) → s < thread_slot_idle → s ≢ c → waiting k' s ≡ o s
  pub asleep : (s : ℕ) → s < thread_count → s ≢ c → Asleep (k'.threads s)
  pub kept : (s : ℕ) → s ≢ c → Kept (k.threads s) (k'.threads s)

-- The outcome of a system call or a fault of task `c`. Either the task goes on behind its trap, and
-- the kernel has left its thread and its frame alone, or the trap was redirected for a reason.
pub data Way (b : Build) (k : Kernel) (c : ℕ) (k' : Kernel) : Type 0 where
  goes_on : k'.threads c ≡ k.threads c → k'.frame ≡ k.frame → Way b k c k'
  leaves :
      (reason : ReturnReason)
      → reason ≢ return_none
      → k'.threads c ≡ record (k.threads c) { user = save_frame k.frame reason (k.threads c).user }
      → k'.frame.elr ≡ b.user_task_return_to_kernel
      → k'.frame.spsr ≡ spsr_el1h_masked
      → Way b k c k'

pub record Handled (b : Build) (k : Kernel) (c : ℕ) (k' : Kernel) : Type 0 where
  pub sound : Inv k'
  pub current : IsCurrent k' c
  pub outside : (a : ℕ) → Outside a → k'.mem a ≡ k.mem a
  pub asleep : (s : ℕ) → s < thread_count → s ≢ c → Asleep (k'.threads s)
  pub kept : (s : ℕ) → s ≢ c → Kept (k.threads s) (k'.threads s)
  pub way : Way b k c k'
