-- ===== src/Task/Registers.antt =====
-- The loops over the general registers, and a trap's way to the user context and back to EL0.
use d_rpi_proto_os.Base.{
  ℕ, zero, suc, ◌+◌, ◌*◌, ◌≤◌, ◌<◌, ◌≡◌, refl, ◌&&◌, arith, ltb, leb, if◌then◌else◌, update,
  ==_refl,
}
use d_rpi_proto_os.Config.{thread_count, kernel_load_addr, kernel_idmap_size, thread_slot_idle}
use d_rpi_proto_os.State.{Kernel, UserTaskCtx, UserTask, TrapFrame, ReturnReason, Build}
use d_rpi_proto_os.State.Effect.{Ensures, ◌>>◌, done}
use d_rpi_proto_os.Thread.{thread_current_user_ctx}
use d_rpi_proto_os.Thread.Current.{IsCurrent, current_user_task_lem}
use d_rpi_proto_os.Task.{copy_regs, clear_regs, thread_user_trap_redirect, save_frame}
use d_rpi_proto_os.Task.Redirect.{redirected, thread_user_trap_redirect_lem}
use d_rpi_proto_os.Ipc.Range.{InSandbox}
use d_rpi_proto_os.Invariant.{ThreadOk}

pub copy_regs_lem :
    (n i : ℕ) (from x : ℕ → ℕ) (a : ℕ)
    → copy_regs n i from x a ≡ (if leb i a && ltb a (i + n) then from a else x a)
unfolding copy_regs
copy_regs_lem zero i from x a = ground arith
copy_regs_lem (suc n) i from x a =
    ground (arith, copy_regs_lem n (i + 1) from (update x i (from i)) a)

pub clear_regs_lem :
    (n i : ℕ) (x : ℕ → ℕ) (a : ℕ)
    → clear_regs n i x a ≡ (if leb i a && ltb a (i + n) then 0 else x a)
unfolding clear_regs
clear_regs_lem zero i x a = ground arith
clear_regs_lem (suc n) i x a = ground (arith, clear_regs_lem n (i + 1) (update x i 0) a)

-- A context that holds all of a frame that EL0 sees.
pub record Holds (ctx : UserTaskCtx) (tf : TrapFrame) : Type 0 where
  pub registers : (j : ℕ) → j < 31 → ctx.x j ≡ tf.x j
  pub stack : ctx.sp_el0 ≡ tf.sp
  pub pc : ctx.elr ≡ tf.elr
  pub status : ctx.spsr ≡ tf.spsr

pub save_frame-Holds :
    (tf : TrapFrame) (reason : ReturnReason) (u : UserTask) → Holds (save_frame tf reason u).ctx tf
unfolding save_frame
save_frame-Holds tf reason u = record {
  registers = λ j j_lt. ground (arith, copy_regs_lem 31 0 tf.x u.ctx.x j);
  stack = refl;
  pc = refl;
  status = refl;
}

-- The table of threads lies in the kernel's identity map.
abbrev pub InKernelMap : Build → Type 0
InKernelMap b =
    (kernel_load_addr ≤ b.threads_base)
    × (b.threads_base + thread_count * 464 ≤ kernel_load_addr + kernel_idmap_size)

pub thread_current_user_ctx_lem :
    (b : Build) (k : Kernel) (s : ℕ)
    → InKernelMap b
    → s < thread_slot_idle
    → IsCurrent k s
    → InSandbox (k.threads s).user.ctx.elr
    → thread_current_user_ctx b k ≡ done (k.threads s).user.ctx k
unfolding thread_current_user_ctx
thread_current_user_ctx_lem b k s in_map lt cur inside =
    ground (arith, current_user_task_lem "invalid current user task" k s cur)

redirected-IsCurrent :
    (b : Build) (reason : ReturnReason) (k : Kernel) (s : ℕ)
    → IsCurrent k s
    → IsCurrent (redirected b reason s k) s
redirected-IsCurrent b reason k s cur = rw (==_refl s) (record {
  current_eq = cur.current_eq;
  task_eq = cur.task_eq;
  kind = cur.kind;
  slot = cur.slot;
})

-- If the table of threads is in the kernel's map and user task s in its place is current with a
-- program counter in the sandbox, then the redirection of its trap and the check of the context to
-- resume do not panic, and that context holds the frame's 31 registers, stack pointer, program
-- counter and status.
trap_redirect-resume :
    (b : Build) (reason : ReturnReason) (k : Kernel) (s : ℕ)
    → InKernelMap b
    → s < thread_slot_idle
    → IsCurrent k s
    → ThreadOk s (k.threads s)
    → InSandbox k.frame.elr
    → Ensures
        ((thread_user_trap_redirect b reason >> thread_current_user_ctx b) k)
        (λ ctx k'. Holds ctx k.frame)
unfolding save_frame
trap_redirect-resume b reason k s in_map lt cur ok inside =
    rw (thread_user_trap_redirect_lem b reason k s cur ok inside, Ensures)
      (rw
        (
          thread_current_user_ctx_lem b (redirected b reason s k) s in_map lt
              (redirected-IsCurrent b reason k s cur) (ground arith),
          ==_refl s,
        )
        (save_frame-Holds k.frame reason (k.threads s).user))
