-- ===== src/Trap/Handled.antt =====
-- A synchronous exception of a running user task.
use d_rpi_proto_os.Base.{ℕ, ◌<◌, ◌≡◌, ◌≢◌, refl, inl, inr, ◌==◌, Bool-cases, ==_refl, ap, update}
use d_rpi_proto_os.Config.{thread_count, spsr_el1h_masked}
use d_rpi_proto_os.State.{Kernel, TrapFrame, Build, ReturnReason, return_none, return_fault}
use d_rpi_proto_os.State.Effect.{Ensures, Ensures->>=}
use d_rpi_proto_os.Thread.Current.{IsCurrent, current_user_task_lem}
use d_rpi_proto_os.State.Output.{print_all-Prints}
use d_rpi_proto_os.Task.{thread_user_fault, fault_texts, save_frame}
use d_rpi_proto_os.Invariant.{Inv}
use d_rpi_proto_os.Handling.{Outside, Asleep, Kept, Trapped, Handled, Way, goes_on, leaves}
use d_rpi_proto_os.Handling.Ahead.{Trapped-start, Ahead-uart}
use d_rpi_proto_os.Handling.Woken.{Ahead-leaves}
use d_rpi_proto_os.Syscall.{el0_origin, syscall_dispatch}
use d_rpi_proto_os.Syscall.Handled.{syscall_dispatch-Handled}
use d_rpi_proto_os.Trap.{exception_class, syscall_to_x0, exception_sync_el0}

-- How the exception ends: the task goes on with a new x0, or the frame leads to the kernel.
pub data Exit (b : Build) (k : Kernel) (c : ℕ) (k' : Kernel) : Type 0 where
  returns :
      (result : ℕ)
      → k'.threads c ≡ k.threads c
      → k'.frame ≡ record (k.frame) { x = update k.frame.x 0 result }
      → Exit b k c k'
  redirects :
      (reason : ReturnReason)
      → reason ≢ return_none
      → k'.threads c ≡ record (k.threads c) { user = save_frame k.frame reason (k.threads c).user }
      → k'.frame.elr ≡ b.user_task_return_to_kernel
      → k'.frame.spsr ≡ spsr_el1h_masked
      → Exit b k c k'

pub record Served (b : Build) (k : Kernel) (c : ℕ) (k' : Kernel) : Type 0 where
  pub sound : Inv k'
  pub current : IsCurrent k' c
  pub outside : (a : ℕ) → Outside a → k'.mem a ≡ k.mem a
  pub asleep : (s : ℕ) → s < thread_count → s ≢ c → Asleep (k'.threads s)
  pub kept : (s : ℕ) → s ≢ c → Kept (k.threads s) (k'.threads s)
  pub exit : Exit b k c k'

abbrev frame_x0 : ℕ → TrapFrame → TrapFrame
frame_x0 result f = record f { x = update f.x 0 result }

set_x0 : Kernel → ℕ → Kernel
set_x0 k result = record k { frame = record (k.frame) { x = update k.frame.x 0 result } }

Way-Exit :
    (b : Build) (k : Kernel) (c result : ℕ) (k' : Kernel)
    → Way b k c k'
    → Exit b k c (set_x0 k' result)
unfolding set_x0
Way-Exit b k c result k' (goes_on same frame) = returns result same (ap (frame_x0 result) frame)
Way-Exit b k c result k' (leaves reason some_reason saved to_kernel at_el1) =
    redirects reason some_reason saved to_kernel at_el1

module _ {k : Kernel} {c : ℕ} (b : Build) (t : Trapped k c) where
  syscall_to_x0-Served : Ensures (syscall_to_x0 b el0_origin k) (λ _ k'. Served b k c k')
  unfolding syscall_to_x0 set_x0
  syscall_to_x0-Served =
      Ensures->>= (λ _ k'. Handled b k c k') _ (syscall_dispatch b el0_origin) _ k
        (syscall_dispatch-Handled b t)
        λ result k' h. record {
          sound = h.sound;
          current = h.current;
          outside = h.outside;
          asleep = h.asleep;
          kept = h.kept;
          exit = Way-Exit b k c result k' h.way;
        }

  thread_user_fault-Served : Ensures (thread_user_fault b k) (λ _ k'. Served b k c k')
  unfolding thread_user_fault
  thread_user_fault-Served =
      let (out, e) = print_all-Prints (fault_texts b (k.threads c).user.name k.frame) k in
      let (goes, h) =
        Ahead-leaves b t return_fault (λ e. cc) (Ahead-uart t.small (Trapped-start t) out) in
      rw
        (
          current_user_task_lem "EL0 fault without user task" k c t.current,
          Ensures,
          thread_user_fault,
        )
        (rw e (
          rw (goes, Ensures)
            (record {
              sound = h.sound;
              current = h.current;
              outside = h.outside;
              asleep = h.asleep;
              kept = h.kept;
              exit = redirects return_fault (λ e. cc) (rw (==_refl c) refl) refl refl;
            })))

  -- If user task c has trapped with a program counter in the sandbox, the handler does not panic.
  -- It keeps the invariant, the contexts of the other threads and all memory outside the sandbox;
  -- no other thread or task runs; and either the trapped thread is unchanged and x0 of the frame
  -- alone has a new value, or the frame is saved with a reason and leads to the kernel's
  -- continuation at EL1.
  pub exception_sync_el0-Served : Ensures (exception_sync_el0 b k) (λ _ k'. Served b k c k')
  unfolding exception_sync_el0
  exception_sync_el0-Served = elim (Bool-cases (exception_class k.frame.esr == 0x15)) [
    | inl svc ↦ rw svc syscall_to_x0-Served
    | inr fault ↦ rw fault thread_user_fault-Served
  ]
