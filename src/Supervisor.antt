-- ===== src/Supervisor.antt =====
-- kernel/core/supervisor.c: the notification of a task's death, and the restart of the UART server.
pub mod Handled
pub mod Death
pub mod Notify
pub mod Mailbox
pub mod Refines
use d_rpi_proto_os.Base.{ℕ, ◌||◌, not, ◌==◌, if◌then◌else◌, leb}
use d_rpi_proto_os.Config.{
  thread_count, thread_slot_task_b, thread_slot_task_c, slot_none, minus_one,
}
use d_rpi_proto_os.State.{Kernel, Build, return_notify_block}
use d_rpi_proto_os.State.Effect.{M, done, pure, ◌>>=◌, ◌>>◌, gets, modify, skip}
use d_rpi_proto_os.Thread.{thread_current_user_slot, thread_request_resched}
use d_rpi_proto_os.Task.{thread_user_wake_with_x0, thread_user_trap_redirect, thread_user_restart}

unfoldable pub supervisor_init : Kernel → Kernel
supervisor_init k = record k { pending_death_slot = slot_none; blocked_supervisor_slot = slot_none }

-- `supervisor_note_task_death`, past the range check and the removal of a dead waiter.
unfoldable pub notify : ℕ → M (Unit {0})
notify slot k =
    if not (k.blocked_supervisor_slot == slot_none)
    then (do
      thread_user_wake_with_x0 k.blocked_supervisor_slot slot
      modify (λ k. thread_request_resched (record k { blocked_supervisor_slot = slot_none })))
        k
    else done tt (record k { pending_death_slot = slot })

unfoldable pub supervisor_note_task_death : ℕ → M (Unit {0})
supervisor_note_task_death slot k =
    if leb thread_count slot
    then skip k
    else if slot == k.blocked_supervisor_slot
    then notify slot (record k { blocked_supervisor_slot = slot_none })
    else notify slot k

unfoldable pub supervisor_syscall_wait : Build → M ℕ
supervisor_syscall_wait b = do
  current_slot ← thread_current_user_slot
  k ← gets (λ k. k)
  if not (current_slot == thread_slot_task_c)
      then pure minus_one
      else if not (k.pending_death_slot == slot_none)
      then (λ k. done k.pending_death_slot (record k { pending_death_slot = slot_none }))
      else if not (k.blocked_supervisor_slot == slot_none)
      then pure minus_one
      else do
        modify (λ k. record k { blocked_supervisor_slot = current_slot })
        thread_user_trap_redirect b return_notify_block
        pure 0

unfoldable pub supervisor_syscall_restart : ℕ → M ℕ
supervisor_syscall_restart slot = do
  current_slot ← thread_current_user_slot
  if not (current_slot == thread_slot_task_c) || not (slot == thread_slot_task_b)
      then pure minus_one
      else (λ k.
          let (restarted, k') = thread_user_restart slot k in
          done (if restarted then 0 else minus_one) k')
