-- ===== src/Task/Redirect.antt =====
-- The redirection of a trap to the kernel's continuation.
use d_rpi_proto_os.Base.{ℕ, ◌≡◌, arith}
use d_rpi_proto_os.Config.{spsr_el1h_masked}
use d_rpi_proto_os.State.{Kernel, ReturnReason, Build}
use d_rpi_proto_os.State.Effect.{done, put_thread}
use d_rpi_proto_os.Thread.Current.{IsCurrent, current_user_task_lem}
use d_rpi_proto_os.Task.{thread_user_trap_redirect, save_frame}
use d_rpi_proto_os.Ipc.Range.{InSandbox}
use d_rpi_proto_os.Invariant.{ThreadOk}

-- The state after the redirection: the frame is saved, and goes to the kernel.
abbrev pub redirected : Build → ReturnReason → ℕ → Kernel → Kernel
redirected b reason s k =
    record (put_thread s
      (record (k.threads s) { user = save_frame k.frame reason (k.threads s).user }) k) {
        frame = record (k.frame) { elr = b.user_task_return_to_kernel; spsr = spsr_el1h_masked };
      }

pub thread_user_trap_redirect_lem :
    (b : Build) (reason : ReturnReason) (k : Kernel) (s : ℕ)
    → IsCurrent k s
    → ThreadOk s (k.threads s)
    → InSandbox k.frame.elr
    → thread_user_trap_redirect b reason k ≡ done tt (redirected b reason s k)
unfolding thread_user_trap_redirect
thread_user_trap_redirect_lem b reason k s c ok inside =
    ground (arith, current_user_task_lem "EL0 trap redirect without user task" k s c, ok.lr, ok.sp)
