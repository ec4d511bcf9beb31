-- ===== src/Examples/Tasks.antt =====
-- Tests of the user tasks' operations and of the supervisor.
use d_rpi_proto_os.Base.{◌≡◌, refl, some, ◌==◌, ◌&&◌, if◌then◌else◌}
use d_rpi_proto_os.Config.{micro, thread_slot_task_b, thread_slot_task_c, minus_one}
use d_rpi_proto_os.State.{Kernel, Thread, stopped, task_dead}
use d_rpi_proto_os.State.Effect.{done, put_thread}
use d_rpi_proto_os.Thread.{thread_request_resched}
use d_rpi_proto_os.Thread.Current.{IsCurrent}
use d_rpi_proto_os.Task.{may_restart, thread_user_restart, user_task_init}
use d_rpi_proto_os.Task.Restart.{Restarts, restarted, thread_user_restart-Restarts}
use d_rpi_proto_os.Ipc.{ipc_init}
use d_rpi_proto_os.Supervisor.{supervisor_init, supervisor_syscall_restart}
use d_rpi_proto_os.Supervisor.Notify.{supervisor_syscall_restart_lem}
use d_rpi_proto_os.Boot.{init_threads, init_user_thread, thread_init_slot}
use d_rpi_proto_os.Examples.{ready, trapped, frame_of, svc_esr}

abbrev start : Kernel
start = ready micro

abbrev kill : Thread → Thread
kill t = record t { state = stopped; user = record (t.user) { state = task_dead } }

-- The UART server is dead.
abbrev without_b : Kernel
without_b = put_thread thread_slot_task_b (kill (start.threads thread_slot_task_b)) start

-- The supervisor runs, and the death of task B is kept.
abbrev told : Kernel
told = record without_b {
  current = some thread_slot_task_c;
  current_task = some thread_slot_task_c;
  pending_death_slot = thread_slot_task_b;
}

told-IsCurrent : IsCurrent told thread_slot_task_c
unfolding init_threads init_user_thread thread_init_slot user_task_init supervisor_init ipc_init
told-IsCurrent = record { current_eq = refl; task_eq = refl; kind = refl; slot = refl }

abbrev going : Kernel
going = trapped micro (frame_of (λ j. j) svc_esr)

thread_user_restart-Restarts_example : Restarts 1 without_b (thread_user_restart 1 without_b)
thread_user_restart-Restarts_example = thread_user_restart-Restarts 1 without_b

supervisor_syscall_restart_example : supervisor_syscall_restart 1 told ≡ (
    if (2 == thread_slot_task_c) && ((1 == thread_slot_task_b) && may_restart (told.threads 1))
    then done 0 (thread_request_resched (put_thread 1 (restarted (told.threads 1)) told))
    else done minus_one told)
supervisor_syscall_restart_example = supervisor_syscall_restart_lem told 2 1 told-IsCurrent
