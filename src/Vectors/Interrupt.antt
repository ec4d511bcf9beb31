-- ===== src/Vectors/Interrupt.antt =====
-- An interrupt is invisible to the code that it interrupts.
use d_rpi_proto_os.Base.{
  ℕ, ◌*◌, ◌%◌, ◌^◌, ◌<◌, ◌≡◌, ◌∙◌, sym, arith, [], ◌∷◌, ◌++◌, Bool, true, false, ltb, Bool-cases,
  inl, inr, if◌then◌else◌,
}
use mathlib.Core.Path.{subst}
use d_rpi_proto_os.State.{TrapFrame}
use d_rpi_proto_os.Arm.{Cpu, at, exec, take_exception, mov, x, sp, eret}
use d_rpi_proto_os.Vectors.{
  Handlers, vectors, run_label, exception, run_el0_irq, run_el1h_irq, frame_size, save_context,
  save_context_el0, restore_context,
}
use d_rpi_proto_os.Vectors.Frame.{FrameAt, Saved, frame_of, save_el0-Saved, save_el1-Saved}
use d_rpi_proto_os.Vectors.Exit.{restore-Restored}

-- A call of C code keeps the stack pointers, the frame above it, and the registers of the exception.
pub record Keeps (c1 c2 : Cpu) : Type 0 where
  pub stack : c2.stack ≡ c1.stack
  pub user_stack : c2.user_stack ≡ c1.user_stack
  pub frame : (i : ℕ) → i < frame_size → c2.mem (at c1.stack i) ≡ c1.mem (at c1.stack i)
  pub elr : c2.elr ≡ c1.elr
  pub spsr : c2.spsr ≡ c1.spsr

-- The code that was interrupted goes on with its registers.
pub record Resumed (c c' : Cpu) : Type 0 where
  pub registers : (j : ℕ) → j < 31 → c'.regs j ≡ c.regs j
  pub stack : c'.stack ≡ c.stack
  pub user_stack : c'.user_stack ≡ c.user_stack
  pub pc : c'.pc ≡ c.pc
  pub pstate : c'.pstate ≡ c.pstate

FrameAt-Keeps :
    (c1 c2 : Cpu) (tf : TrapFrame)
    → Keeps c1 c2
    → FrameAt c1.mem c1.stack tf
    → FrameAt c2.mem c2.stack tf
FrameAt-Keeps c1 c2 tf k f = rw k.stack (record {
  registers = λ j lt. k.frame (8 * j) (omega arith) ∙ f.registers j lt;
  stack = k.frame 248 (omega arith) ∙ f.stack;
  pc = k.frame 256 (omega arith) ∙ f.pc;
  status = k.frame 264 (omega arith) ∙ f.status;
  syndrome = k.frame 272 (omega arith) ∙ f.syndrome;
  fault = k.frame 280 (omega arith) ∙ f.fault;
})

-- The entry code of the vector at offset 128 * n: the vectors from 8 on are EL0's.
abbrev entry_from : Bool → Cpu → Cpu
entry_from el1 c = exec ((if el1 then save_context else save_context_el0) ++ mov (x 0) sp ∷ []) c

abbrev pub entry_code : ℕ → Cpu → Cpu
entry_code n = entry_from (ltb n 8)

return-Resumed :
    (syndrome address stack : ℕ) (c c1 c2 : Cpu)
    → c.stack < 2 ^ 64
    → Saved (take_exception syndrome address c) stack c1
    → Keeps c1 c2
    → Resumed c (exec (restore_context ++ eret ∷ []) c2)
return-Resumed syndrome address stack c c1 c2 lt s k =
    let tf = frame_of (take_exception syndrome address c) stack in
    let (r, pc, pstate) = restore-Restored c2 tf (FrameAt-Keeps c1 c2 tf k s.frame) in
    record {
      registers = r.registers;
      stack = r.stack ∙ omega (arith, k.stack, s.base);
      user_stack = r.user_stack ∙ k.user_stack ∙ s.user_stack;
      pc = pc ∙ k.elr ∙ s.status.0;
      pstate = pstate ∙ k.spsr ∙ s.status.1;
    }

module _ (h : Handlers) (n syndrome address : ℕ) (c : Cpu) (in_table : n < 16)
    (irq : n % 4 ≡ 1) where
  el1_vector :
      ltb n 8 ≡ true
      → exception h n syndrome address c
        ≡ run_el1h_irq h.exception_irq (take_exception syndrome address c)
  unfolding vectors run_label
  el1_vector e = ground (arith, e, irq)

  el0_vector :
      ltb n 8 ≡ false
      → exception h n syndrome address c
        ≡ run_el0_irq h.exception_irq (take_exception syndrome address c)
  unfolding vectors run_label
  el0_vector e = ground (arith, e, irq)

  -- If an interrupt is taken through any of its four vectors, EL1's stack pointer is below 2 ^ 64,
  -- and the handler in C keeps the stack pointers, the frame and the exception's registers, then
  -- the interrupted code goes on with its 31 registers, both stack pointers, its program counter
  -- and its status as they were.
  pub interrupt-Resumed :
      c.stack < 2 ^ 64
      → (let c1 = entry_code n (take_exception syndrome address c) in Keeps c1 (h.exception_irq c1))
      → Resumed c (exception h n syndrome address c)
  unfolding run_el0_irq run_el1h_irq
  interrupt-Resumed lt keeps =
      let c0 = take_exception syndrome address c in
      let keeps_from = λ (el1 : Bool) (e : ltb n 8 ≡ el1).
        subst (λ el1. Keeps (entry_from el1 c0) (h.exception_irq (entry_from el1 c0))) e keeps in
      elim (Bool-cases (ltb n 8)) [
        | inl e ↦ subst (Resumed c) (sym (el1_vector e)) (
            return-Resumed syndrome address c.stack c _ _ lt (save_el1-Saved c0 lt)
              (keeps_from true e))
        | inr e ↦ subst (Resumed c) (sym (el0_vector e)) (
            return-Resumed syndrome address c.user_stack c _ _ lt (save_el0-Saved c0)
              (keeps_from false e))
      ]
