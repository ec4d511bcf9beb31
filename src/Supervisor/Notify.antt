-- ===== src/Supervisor/Notify.antt =====
-- The supervisor: who may restart what.
use d_rpi_proto_os.Base.{ℕ, ◌≡◌, ◌&&◌, ◌==◌, if◌then◌else◌, arith}
use d_rpi_proto_os.Config.{thread_slot_task_b, thread_slot_task_c, minus_one}
use d_rpi_proto_os.State.{Kernel}
use d_rpi_proto_os.State.Effect.{done, put_thread}
use d_rpi_proto_os.Task.{thread_user_restart, may_restart}
use d_rpi_proto_os.Task.Restart.{restarted}
use d_rpi_proto_os.Thread.{thread_request_resched}
use d_rpi_proto_os.Thread.Current.{IsCurrent, thread_current_user_slot_lem}
use d_rpi_proto_os.Supervisor.{supervisor_syscall_restart}

-- If user task c is current, a restart call restarts the task and returns 0 exactly if c is task C,
-- the slot is task B's and task B can be restarted; else it returns -1 and changes nothing.
pub supervisor_syscall_restart_lem :
    (k : Kernel) (c slot : ℕ)
    → IsCurrent k c
    → supervisor_syscall_restart slot k ≡ (
        if (c == thread_slot_task_c)
          && ((slot == thread_slot_task_b) && may_restart (k.threads slot))
        then done 0 (thread_request_resched (put_thread slot (restarted (k.threads slot)) k))
        else done minus_one k)
unfolding supervisor_syscall_restart thread_user_restart
supervisor_syscall_restart_lem k c slot cur = ground (arith, thread_current_user_slot_lem k c cur)
