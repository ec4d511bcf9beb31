-- ===== src/Examples/Notices.antt =====
-- Tests of the supervisor's mailbox: task C waits, and task B dies.
use d_rpi_proto_os.Base.{◌≡◌, refl, some, arith}
use d_rpi_proto_os.Config.{micro}
use d_rpi_proto_os.State.{Kernel}
use d_rpi_proto_os.State.Effect.{Ensures, put_thread}
use d_rpi_proto_os.Thread.{thread_current_user_slot, current_user_task}
use d_rpi_proto_os.Task.{user_task_init, thread_user_trap_redirect}
use d_rpi_proto_os.Ipc.{ipc_init}
use d_rpi_proto_os.Boot.{stack_top, init_threads, init_user_thread, thread_init_slot}
use d_rpi_proto_os.Invariant.{Inv, Sound-ext, Sound-put_thread}
use d_rpi_proto_os.Handling.{Trapped, Handled}
use d_rpi_proto_os.Supervisor.{supervisor_init, supervisor_note_task_death, supervisor_syscall_wait}
use d_rpi_proto_os.Supervisor.Handled.{supervisor_syscall_wait-Handled}
use d_rpi_proto_os.Supervisor.Mailbox.{Posted, Answered, mailbox_of}
use d_rpi_proto_os.Supervisor.Refines.{
  supervisor_note_task_death-Posted, supervisor_syscall_wait-Answered,
}
use d_rpi_proto_os.Examples.{
  build, ready, ready-Inv, set_going, set_going-ThreadOk, frame_of, svc_esr,
}
use d_rpi_proto_os.Examples.Messages.{state_of, holds_of}

-- Task C runs, and has trapped.
abbrev asking : Kernel
asking = record (put_thread 2 (set_going ((ready micro).threads 2)) (ready micro)) {
  current = some 2;
  current_task = some 2;
  frame = frame_of (λ _. 0) svc_esr;
}

asking-Trapped : Trapped asking 2
unfolding supervisor_init ipc_init init_threads init_user_thread thread_init_slot user_task_init
asking-Trapped = record {
  sound =
      Sound-ext asking
        (Sound-put_thread (ready micro) 2 _ (ready-Inv micro)
          (set_going-ThreadOk 2 _ ((ready-Inv micro).threads_ok 2 (omega arith))))
        (λ s lt. ground arith);
  current = record { current_eq = refl; task_eq = refl; kind = refl; slot = refl };
  small = omega arith;
  thread_running = refl;
  task_runs = refl;
  no_reason = refl;
  asleep = λ s lt ne. (ground arith, ground arith);
  elr = omega arith;
}

supervisor_syscall_wait-Answered_example :
    Ensures
      (supervisor_syscall_wait (build micro) asking)
      (λ r k'. Answered (build micro) asking 2 r k')
supervisor_syscall_wait-Answered_example =
    supervisor_syscall_wait-Answered (build micro) asking 2 asking-Trapped

-- Task C waits.
abbrev watched : Kernel
watched = state_of (supervisor_syscall_wait (build micro) asking)

watched-Inv : Inv watched
watched-Inv =
    (holds_of (Handled (build micro) asking 2) (supervisor_syscall_wait (build micro) asking)
      (supervisor_syscall_wait-Handled (build micro) asking-Trapped)).sound

supervisor_note_task_death-Posted_example :
    Ensures (supervisor_note_task_death 1 watched) (λ _ k'. Posted watched 1 k')
supervisor_note_task_death-Posted_example = supervisor_note_task_death-Posted watched 1 watched-Inv

task_c_watches : (mailbox_of watched).watcher ≡ some 2
unfolding supervisor_syscall_wait thread_current_user_slot current_user_task
    thread_user_trap_redirect supervisor_init ipc_init init_threads init_user_thread
    thread_init_slot user_task_init stack_top
task_c_watches = refl
