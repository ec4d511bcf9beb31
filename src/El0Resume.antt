-- ===== src/El0Resume.antt =====
-- kernel/arch/aarch64/el0_resume.S: user code is entered with the registers of its context.
pub mod Blocked
use d_rpi_proto_os.Base.{
  ℕ, ◌*◌, ◌<◌, ◌≡◌, refl, sym, ◌∙◌, List, [], ◌∷◌, table-at, ap, update, update_self, ◌==◌,
  if◌then◌else◌,
}
use d_rpi_proto_os.State.{UserTaskCtx, TrapFrame}
use d_rpi_proto_os.Task.Registers.{Holds}
use d_rpi_proto_os.Arm.{
  Cpu, Instr, x, sp, ldr, mov, msr, daifset_irq, isb, eret, sp_el0, elr_el1, spsr_el1, exec, at,
}
use d_rpi_proto_os.Vectors.Trap.{el0_frame}
use d_rpi_proto_os.State.{Kernel, Build, ReturnReason, Thread}
use d_rpi_proto_os.State.Effect.{done}
use d_rpi_proto_os.Thread.Current.{IsCurrent}
use d_rpi_proto_os.Invariant.{ThreadOk}
use d_rpi_proto_os.Ipc.Range.{InSandbox}
use d_rpi_proto_os.Task.{woken, thread_user_trap_redirect, save_frame}
use d_rpi_proto_os.Task.Redirect.{redirected, thread_user_trap_redirect_lem}
use d_rpi_proto_os.Task.Registers.{save_frame-Holds}
use mathlib.Core.Path.{subst}

-- x0 is the address of a `struct user_task_ctx`.
unfoldable pub el0_resume : List Instr
el0_resume =
    daifset_irq
    ∷ mov (x 9) (x 0)
    ∷ ldr (x 10) (x 9) 248
    ∷ msr sp_el0 (x 10)
    ∷ ldr (x 10) (x 9) 256
    ∷ msr elr_el1 (x 10)
    ∷ ldr (x 10) (x 9) 264
    ∷ msr spsr_el1 (x 10)
    ∷ ldr (x 1) (x 9) 8
    ∷ ldr (x 2) (x 9) 16
    ∷ ldr (x 3) (x 9) 24
    ∷ ldr (x 4) (x 9) 32
    ∷ ldr (x 5) (x 9) 40
    ∷ ldr (x 6) (x 9) 48
    ∷ ldr (x 7) (x 9) 56
    ∷ ldr (x 8) (x 9) 64
    ∷ ldr (x 11) (x 9) 88
    ∷ ldr (x 12) (x 9) 96
    ∷ ldr (x 13) (x 9) 104
    ∷ ldr (x 14) (x 9) 112
    ∷ ldr (x 15) (x 9) 120
    ∷ ldr (x 16) (x 9) 128
    ∷ ldr (x 17) (x 9) 136
    ∷ ldr (x 18) (x 9) 144
    ∷ ldr (x 19) (x 9) 152
    ∷ ldr (x 20) (x 9) 160
    ∷ ldr (x 21) (x 9) 168
    ∷ ldr (x 22) (x 9) 176
    ∷ ldr (x 23) (x 9) 184
    ∷ ldr (x 24) (x 9) 192
    ∷ ldr (x 25) (x 9) 200
    ∷ ldr (x 26) (x 9) 208
    ∷ ldr (x 27) (x 9) 216
    ∷ ldr (x 28) (x 9) 224
    ∷ ldr (x 29) (x 9) 232
    ∷ ldr (x 30) (x 9) 240
    ∷ ldr (x 0) (x 9) 0
    ∷ ldr (x 10) (x 9) 80
    ∷ ldr (x 9) (x 9) 72
    ∷ isb
    ∷ eret
    ∷ []

-- The `struct user_task_ctx` at `p` in memory.
pub record UserCtxAt (m : ℕ → ℕ) (p : ℕ) (ctx : UserTaskCtx) : Type 0 where
  pub registers : (j : ℕ) → j < 31 → m (at p (8 * j)) ≡ ctx.x j
  pub stack : m (at p 248) ≡ ctx.sp_el0
  pub pc : m (at p 256) ≡ ctx.elr
  pub status : m (at p 264) ≡ ctx.spsr

-- User code runs with the registers, the stack pointer, the program counter and the status given.
pub record RunsWith (c' : Cpu) (ctx : UserTaskCtx) : Type 0 where
  pub registers : (j : ℕ) → j < 31 → c'.regs j ≡ ctx.x j
  pub stack : c'.user_stack ≡ ctx.sp_el0
  pub pc : c'.pc ≡ ctx.elr
  pub status : c'.pstate ≡ ctx.spsr

pub el0_resume-RunsWith :
    (c : Cpu) (ctx : UserTaskCtx)
    → UserCtxAt c.mem (c.regs 0) ctx
    → RunsWith (exec el0_resume c) ctx
unfolding exec el0_resume
el0_resume-RunsWith c ctx there = record {
  registers = λ j lt.
      table-at 31 (exec el0_resume c).regs (λ j. c.mem (at (c.regs 0) (8 * j))) j refl lt
      ∙ there.registers j lt;
  stack = there.stack;
  pc = there.pc;
  status = there.status;
}
