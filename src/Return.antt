-- ===== src/Return.antt =====
-- kernel/core/thread.c: how a user task comes back to the kernel after a redirected trap, what follows
-- a context switch, and how EL0 is entered again (user_task_return.S, el0_resume.S).
pub mod Alive
pub mod Resume
pub mod Settle
pub mod Step
pub mod Exchange
pub mod Schedule
use d_rpi_proto_os.Base.{
  ℕ, List, [], ◌∷◌, ◌-◌, ◌/◌, true, ◌||◌, not, Option, none, some, ◌==◌, if◌then◌else◌,
}
use d_rpi_proto_os.Config.{thread_slot_task_a}
use d_rpi_proto_os.State.{
  Kernel, ThreadState, TaskState, ReturnReason, Build, is_user_task, is_stopped, is_dead,
  is_blocked, runnable, running, stopped, task_runnable, task_running, task_blocked, task_dead,
  return_none, return_yield, return_exit, return_fault, return_ipc_block, return_notify_block,
}
use d_rpi_proto_os.State.Effect.{M, done, ◌>>=◌, ◌>>◌, gets, modify, skip, put_thread, panic, codes}
use d_rpi_proto_os.State.Output.{print_all}
use d_rpi_proto_os.Thread.{
  points_to, current_user_task, thread_resched_point, thread_request_resched, thread_switch_to,
  thread_current_user_ctx,
}
use d_rpi_proto_os.Task.{name_or_unknown}
use d_rpi_proto_os.Ipc.{ipc_handle_task_death}
use d_rpi_proto_os.Supervisor.{supervisor_note_task_death}
use Prim.Native.String.{String}

abbrev pub put_states : ℕ → ThreadState → TaskState → Kernel → Kernel
put_states s state task k =
    let t = k.threads s in
    put_thread s (record t { state = state; user = record (t.user) { state = task } }) k

abbrev pub exit_texts : Option String → List (List ℕ)
exit_texts name = codes "[task] exit " ∷ name_or_unknown name ∷ codes "\n" ∷ []

-- The death of the current task: its state, the endpoints, the supervisor.
unfoldable pub bury : ℕ → M (Unit {0})
bury s = do
  modify (put_states s stopped task_dead)
  k ← gets (λ k. k)
  let slot = (k.threads s).slot
  ipc_handle_task_death slot
  supervisor_note_task_death slot

-- `user_task_return_step` up to its scheduling point.
unfoldable pub settle : ReturnReason → ℕ → M (Unit {0})
settle return_yield s = modify (put_states s runnable task_runnable)
settle return_ipc_block s = modify (put_states s runnable task_blocked)
settle return_notify_block s = modify (put_states s runnable task_blocked)
settle return_exit s = do modify (λ k. print_all (exit_texts (k.threads s).user.name) k); bury s
settle return_fault s = bury s
settle return_none s = panic "unknown user return reason"

unfoldable pub return_step_first : Build → M (Unit {0})
return_step_first b = do
  s ← current_user_task "invalid current user task"
  k ← gets (λ k. k)
  settle (k.threads s).user.return_reason s
  modify thread_request_resched
  thread_resched_point b

-- `user_task_return_step` past its scheduling point, in the thread `s`.
unfoldable pub return_step_second : ℕ → M (Unit {0})
return_step_second s k =
    let t = k.threads s in
    if not (points_to k.current s) || not (is_user_task t.kind)
    then panic "resumed user continuation on non-user thread" k
    else if is_stopped t.state || (is_dead t.user.state || is_blocked t.user.state)
    then panic "dead user task resumed" k
    else done tt
        (record (put_thread s
          (record t {
            state = running;
            user = record (t.user) { state = task_running; return_reason = return_none };
          })
          k) { current_task = some s })

-- user_task_return.S: after the step, `el0_resume` loads the current task's context.
unfoldable pub resume_el0 : Build → M (Unit {0})
resume_el0 b = do ctx ← thread_current_user_ctx b; modify (λ k. record k { el0 = ctx })

-- The thread that a pointer into `g_threads` names; sizeof(struct thread) is 464.
abbrev pub thread_of_ptr : Build → ℕ → ℕ
thread_of_ptr b p = (p - b.threads_base) / 464

-- `thread_entry_user_task` and `thread_enter_el0`.
unfoldable pub thread_entry_user_task : Build → ℕ → M (Unit {0})
thread_entry_user_task b arg k =
    let s = thread_of_ptr b arg in
    let t = k.threads s in
    if (arg == 0) || not (is_user_task t.kind)
    then panic "invalid user task thread" k
    else done tt
        (record (put_thread s
          (record t {
            state = running;
            user = record (t.user) { started = true; state = task_running };
          })
          k) { current_task = some s; el0 = t.user.ctx })

-- `thread_bootstrap`: the entry that x19 holds is called with x20. The idle thread's entry waits for
-- an interrupt.
unfoldable pub thread_bootstrap : Build → ℕ → M (Unit {0})
thread_bootstrap b c k =
    let ctx = (k.threads c).ctx in
    if ctx.x19 == b.thread_entry_user_task then thread_entry_user_task b ctx.x20 k else skip k

-- Where a thread goes on after a switch to it: at `thread_bootstrap` if its context has that return
-- address, else behind its own scheduling point, which is the idle loop for the idle thread.
unfoldable pub continue_thread : Build → ℕ → M (Unit {0})
continue_thread b c k =
    if (k.threads c).ctx.lr == b.thread_bootstrap
    then thread_bootstrap b c k
    else if is_user_task (k.threads c).kind
    then (do return_step_second c; resume_el0 b) k
    else skip k

-- The kernel's side of a redirected trap, from `user_task_return_to_kernel` to the next user code or
-- to the idle loop. Where no switch was made, the same thread goes on.
unfoldable pub user_task_return_to_kernel : Build → M (Unit {0})
user_task_return_to_kernel b k =
    (do
      return_step_first b
      after ← gets (λ k. k.current)
      elim after [
        | none ↦ skip
        | some c ↦
            if points_to k.current c
            then (do return_step_second c; resume_el0 b)
            else continue_thread b c
      ])
      k

-- The idle thread's turn: `wfi` ended, then a scheduling point.
unfoldable pub idle_round : Build → M (Unit {0})
idle_round b k =
    (do
      thread_resched_point b
      after ← gets (λ k. k.current)
      elim after [
        | none ↦ skip
        | some c ↦ if points_to k.current c then skip else continue_thread b c
      ])
      k

-- `thread_start`
unfoldable pub thread_start : Build → M (Unit {0})
thread_start b = do
  thread_switch_to b (some thread_slot_task_a)
  continue_thread b thread_slot_task_a
