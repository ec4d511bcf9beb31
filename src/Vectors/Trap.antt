-- ===== src/Vectors/Trap.antt =====
-- A synchronous exception of a user task, from its registers through the kernel and back.
use d_rpi_proto_os.Base.{
  ℕ, ◌%◌, ◌^◌, ◌≤◌, ◌<◌, ◌≡◌, ◌≢◌, refl, ◌∙◌, ap, sym, arith, [], ◌∷◌, ◌++◌, update,
}
use mathlib.Core.Path.{subst}
use d_rpi_proto_os.Config.{spsr_el1h_masked}
use d_rpi_proto_os.State.{Kernel, Thread, Build, TrapFrame}
use d_rpi_proto_os.State.Effect.{Outcome, done, panicked, Ensures}
use d_rpi_proto_os.Handling.{Trapped}
use d_rpi_proto_os.Task.{save_frame}
use d_rpi_proto_os.Task.Registers.{Holds, save_frame-Holds}
use d_rpi_proto_os.Trap.{exception_sync_el0}
use d_rpi_proto_os.Trap.Handled.{Served, Exit, returns, redirects, exception_sync_el0-Served}
use d_rpi_proto_os.Arm.{Cpu, exec, take_exception, mov, x, sp}
use d_rpi_proto_os.Vectors.{Handlers, vectors, run_label, exception, run_el0_sync, save_context_el0}
use d_rpi_proto_os.Vectors.Frame.{FrameAt, frame_of, save_el0-Saved}
use d_rpi_proto_os.Vectors.Exit.{restore_sync-Restored}

-- The frame of an exception of user code.
abbrev pub el0_frame : ℕ → ℕ → Cpu → TrapFrame
el0_frame syndrome address c = frame_of (take_exception syndrome address c) c.user_stack

-- What the handler finds behind the entry code.
abbrev pub el0_entered : ℕ → ℕ → Cpu → Cpu
el0_entered syndrome address c =
    exec (save_context_el0 ++ mov (x 0) sp ∷ []) (take_exception syndrome address c)

-- The compiled handler does on the frame what the model does in state `k`, and keeps the stack pointers.
pub record Compiled (b : Build) (k : Kernel) (c1 c2 : Cpu) : Type 0 where
  pub stack : c2.stack ≡ c1.stack
  pub user_stack : c2.user_stack ≡ c1.user_stack
  pub frame : (k' : Kernel) → exception_sync_el0 b k ≡ done tt k' → FrameAt c2.mem c2.stack k'.frame

-- How user code `c` goes on in `c'`: behind its exception with a result in x0, or not yet, since its
-- registers are in the context of thread `s` and the kernel runs.
pub data Continues (b : Build) (s : ℕ) (c : Cpu) (k' : Kernel) (c' : Cpu) : Type 0 where
  at_once :
      (result : ℕ)
      → ((j : ℕ) → j < 31 → c'.regs j ≡ update c.regs 0 result j)
      → c'.user_stack ≡ c.user_stack
      → c'.pc ≡ c.pc
      → c'.pstate ≡ c.pstate
      → Continues b s c k' c'
  later :
      ((j : ℕ) → j < 31 → (k'.threads s).user.ctx.x j ≡ c.regs j)
      → (k'.threads s).user.ctx.sp_el0 ≡ c.user_stack
      → (k'.threads s).user.ctx.elr ≡ c.pc
      → (k'.threads s).user.ctx.spsr ≡ c.pstate
      → c'.pc ≡ b.user_task_return_to_kernel
      → c'.pstate ≡ spsr_el1h_masked
      → Continues b s c k' c'

module _ (b : Build) (k : Kernel) (s syndrome address : ℕ) (c : Cpu)
    (framed : k.frame ≡ el0_frame syndrome address c) where
  Exit-Continues :
      (k' : Kernel) (c' : Cpu)
      → Exit b k s k'
      → ((j : ℕ) → j < 31 → c'.regs j ≡ k'.frame.x j)
      → c'.user_stack ≡ c.user_stack
      → c'.pc ≡ k'.frame.elr
      → c'.pstate ≡ k'.frame.spsr
      → Continues b s c k' c'
  Exit-Continues k' c' (returns result same frame) regs user_stack pc pstate =
      let whole = frame ∙ ap (λ (tf : TrapFrame). record tf { x = update tf.x 0 result }) framed in
      at_once result (λ j lt. regs j lt ∙ ap (λ (tf : TrapFrame). tf.x j) whole) user_stack
        (pc ∙ ap (λ (tf : TrapFrame). tf.elr) whole)
        (pstate ∙ ap (λ (tf : TrapFrame). tf.spsr) whole)
  Exit-Continues k' c' (redirects reason some_reason saved elr spsr) regs user_stack pc pstate =
      let holds : Holds (k'.threads s).user.ctx (el0_frame syndrome address c) =
        subst (λ (t : Thread). Holds t.user.ctx (el0_frame syndrome address c)) (sym saved)
          (subst (λ tf. Holds (save_frame k.frame reason (k.threads s).user).ctx tf) framed
            (save_frame-Holds k.frame reason (k.threads s).user)) in
      later holds.registers holds.stack holds.pc holds.status (pc ∙ elr) (pstate ∙ spsr)

  module _ (h : Handlers) (n : ℕ) (in_table : n < 16) (el0 : 8 ≤ n) (sync : n % 4 ≢ 1) where
    sync_vector :
        exception h n syndrome address c
        ≡ run_el0_sync h.exception_sync_el0 (take_exception syndrome address c)
    unfolding vectors run_label
    sync_vector = ground (arith, el0, sync)

    -- If user code takes an exception through a vector of EL0 that is no interrupt's, EL1's stack
    -- pointer is below 2 ^ 64, the kernel's frame is that of its registers, user task s has trapped
    -- in that state, and the compiled handler does to the frame what the model's handler does and
    -- keeps the stack pointers, then the model's handler ends without a panic and with its
    -- guarantees, EL1's stack pointer is as before, and the user code goes on behind the exception
    -- with a result in x0 and its other registers, stack pointer and status as before, or its
    -- registers are all in the context of s and the kernel's continuation runs at EL1.
    pub el0_exception-Continues :
        Trapped k s
        → c.stack < 2 ^ 64
        → (let c1 = el0_entered syndrome address c in Compiled b k c1 (h.exception_sync_el0 c1))
        → (k' : Kernel) × (exception_sync_el0 b k ≡ done tt k')
          × Served b k s k'
          × Continues b s c k' (exception h n syndrome address c)
          × ((exception h n syndrome address c).stack ≡ c.stack)
    unfolding run_el0_sync
    el0_exception-Continues t lt compiled =
        go (exception_sync_el0 b k) refl (exception_sync_el0-Served b t)
      where
        go :
            (o : Outcome (Unit {0}))
            → exception_sync_el0 b k ≡ o
            → Ensures o (λ _ k'. Served b k s k')
            → (k' : Kernel) × (exception_sync_el0 b k ≡ done tt k')
              × Served b k s k'
              × Continues b s c k' (exception h n syndrome address c)
              × ((exception h n syndrome address c).stack ≡ c.stack)
        go (panicked msg k') e v = elim v [ ]
        go (done tt k') e v =
            let c1 = el0_entered syndrome address c in
            let c2 = h.exception_sync_el0 c1 in
            let entry = save_el0-Saved (take_exception syndrome address c) in
            let (r, pc, pstate) = restore_sync-Restored c2 k'.frame (compiled.frame k' e) in
            subst
              (λ c'.
                (k' : Kernel) × (exception_sync_el0 b k ≡ done tt k')
                × Served b k s k'
                × Continues b s c k' c'
                × (c'.stack ≡ c.stack))
              (sym sync_vector)
              (
                k',
                e,
                v,
                Exit-Continues k' _ v.exit r.registers
                    (r.user_stack ∙ compiled.user_stack ∙ entry.user_stack) pc pstate,
                r.stack ∙ omega (arith, compiled.stack, entry.base),
              )
