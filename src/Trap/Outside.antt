-- ===== src/Trap/Outside.antt =====
-- A fault of a user task whose program counter has left the sandbox.
use d_rpi_proto_os.Base.{ℕ, List, ◌≡◌, false, arith, ◌==◌, ap, ◌∙◌}
use d_rpi_proto_os.State.{Kernel, Build, return_fault}
use d_rpi_proto_os.State.Effect.{panicked, panic}
use d_rpi_proto_os.State.Output.{print_all-Prints, print_all}
use d_rpi_proto_os.Thread.Current.{IsCurrent, current_user_task_lem}
use d_rpi_proto_os.Task.{thread_user_fault, thread_user_trap_redirect, fault_texts}
use d_rpi_proto_os.Invariant.{ThreadOk}
use d_rpi_proto_os.Handling.{Outside}
use d_rpi_proto_os.Trap.{exception_class, exception_sync_el0}

redirect-panics :
    (b : Build) (k : Kernel) (c : ℕ)
    → IsCurrent k c
    → ThreadOk c (k.threads c)
    → Outside k.frame.elr
    → thread_user_trap_redirect b return_fault k ≡ panic "EL0 trap ELR outside sandbox" k
unfolding thread_user_trap_redirect
redirect-panics b k c cur ok out =
    ground
      (arith, current_user_task_lem "EL0 trap redirect without user task" k c cur, ok.lr, ok.sp)

fault-redirect :
    (b : Build) (k : Kernel) (c : ℕ)
    → IsCurrent k c
    → thread_user_fault b k
      ≡ thread_user_trap_redirect b return_fault
          (print_all (fault_texts b (k.threads c).user.name k.frame) k)
unfolding thread_user_fault
fault-redirect b k c cur =
    ground (arith, current_user_task_lem "EL0 fault without user task" k c cur)

-- If user task c in its place is current, the exception is not a system call and its program
-- counter lies outside the sandbox, the handler panics with a message on the program counter: the
-- fault of one task stops the kernel.
pub exception_sync_el0-panics :
    (b : Build) (k : Kernel) (c : ℕ)
    → IsCurrent k c
    → ThreadOk c (k.threads c)
    → (exception_class k.frame.esr == 0x15) ≡ false
    → Outside k.frame.elr
    → (after : Kernel) × (exception_sync_el0 b k ≡ panicked "EL0 trap ELR outside sandbox" after)
unfolding exception_sync_el0 panic
exception_sync_el0-panics b k c cur ok fault out =
    let (text, e) = print_all-Prints (fault_texts b (k.threads c).user.name k.frame) k in
    rw fault (
      _,
      fault-redirect b k c cur
          ∙ ap (thread_user_trap_redirect b return_fault) e
          ∙ redirect-panics b (record k { uart = text }) c (printing text) ok out,
    )
  where
    printing : (text : List ℕ) → IsCurrent (record k { uart = text }) c
    printing text = record {
      current_eq = cur.current_eq;
      task_eq = cur.task_eq;
      kind = cur.kind;
      slot = cur.slot;
    }
