-- ===== src/Vectors/Frame.antt =====
-- The trap frame that the entry code leaves on the stack.
use d_rpi_proto_os.Base.{ℕ, ◌-◌, ◌*◌, ◌^◌, ◌<◌, ◌≡◌, ◌≢◌, refl, ◌∙◌, [], ◌∷◌, ◌++◌, arith, table-at}
use mathlib.Core.Path.{subst}
use d_rpi_proto_os.State.{TrapFrame}
use d_rpi_proto_os.Arm.{Cpu, mov, x, sp, exec, at}
use d_rpi_proto_os.Arm.Words.{
  Writes, write_all, write_all-at, write_all-outside, last_write, Within,
}
use d_rpi_proto_os.Vectors.{save_context, save_context_el0, frame_size}

-- The words of a frame, in the order of `struct trap_frame`.
abbrev frame_words : Cpu → ℕ → Writes
frame_words c stack =
    (8 * 0, c.regs 0)
    ∷ (8 * 1, c.regs 1)
    ∷ (8 * 2, c.regs 2)
    ∷ (8 * 3, c.regs 3)
    ∷ (8 * 4, c.regs 4)
    ∷ (8 * 5, c.regs 5)
    ∷ (8 * 6, c.regs 6)
    ∷ (8 * 7, c.regs 7)
    ∷ (8 * 8, c.regs 8)
    ∷ (8 * 9, c.regs 9)
    ∷ (8 * 10, c.regs 10)
    ∷ (8 * 11, c.regs 11)
    ∷ (8 * 12, c.regs 12)
    ∷ (8 * 13, c.regs 13)
    ∷ (8 * 14, c.regs 14)
    ∷ (8 * 15, c.regs 15)
    ∷ (8 * 16, c.regs 16)
    ∷ (8 * 17, c.regs 17)
    ∷ (8 * 18, c.regs 18)
    ∷ (8 * 19, c.regs 19)
    ∷ (8 * 20, c.regs 20)
    ∷ (8 * 21, c.regs 21)
    ∷ (8 * 22, c.regs 22)
    ∷ (8 * 23, c.regs 23)
    ∷ (8 * 24, c.regs 24)
    ∷ (8 * 25, c.regs 25)
    ∷ (8 * 26, c.regs 26)
    ∷ (8 * 27, c.regs 27)
    ∷ (8 * 28, c.regs 28)
    ∷ (8 * 29, c.regs 29)
    ∷ (8 * 30, c.regs 30)
    ∷ (248, stack)
    ∷ (256, c.elr)
    ∷ (264, c.spsr)
    ∷ (272, c.esr)
    ∷ (280, c.far)
    ∷ []

-- The frame of a processor whose interrupted code had the given stack pointer.
abbrev pub frame_of : Cpu → ℕ → TrapFrame
frame_of c stack = record {
  x = c.regs;
  sp = stack;
  elr = c.elr;
  spsr = c.spsr;
  esr = c.esr;
  far = c.far;
}

-- The `struct trap_frame` at `base` in memory.
pub record FrameAt (m : ℕ → ℕ) (base : ℕ) (tf : TrapFrame) : Type 0 where
  pub registers : (j : ℕ) → j < 31 → m (at base (8 * j)) ≡ tf.x j
  pub stack : m (at base 248) ≡ tf.sp
  pub pc : m (at base 256) ≡ tf.elr
  pub status : m (at base 264) ≡ tf.spsr
  pub syndrome : m (at base 272) ≡ tf.esr
  pub fault : m (at base 280) ≡ tf.far

abbrev pub frame_base : Cpu → ℕ
frame_base c = at c.stack (2 ^ 64 - frame_size)

frame_words-Within : (c : Cpu) (stack : ℕ) → Within frame_size (frame_words c stack)
frame_words-Within c stack = omega arith

module _ (c : Cpu) (stack base : ℕ) (m : ℕ → ℕ) where
  written :
      (off : ℕ)
      → off < 2 ^ 64
      → write_all base (frame_words c stack) m (at base off)
        ≡ last_write (frame_words c stack) off (m (at base off))
  written off lt = write_all-at (frame_words c stack) base off m (omega arith) lt

  written-FrameAt : FrameAt (write_all base (frame_words c stack) m) base (frame_of c stack)
  written-FrameAt = record {
    registers = λ j lt.
        written (8 * j) (omega arith)
        ∙ table-at 31 (λ j. last_write (frame_words c stack) (8 * j) (m (at base (8 * j)))) c.regs j
            refl lt;
    stack = written 248 (omega arith);
    pc = written 256 (omega arith);
    status = written 264 (omega arith);
    syndrome = written 272 (omega arith);
    fault = written 280 (omega arith);
  }

-- What the handler finds behind the entry code: the frame, and a pointer to it. Only the frame's
-- words have changed.
pub record Saved (c : Cpu) (stack : ℕ) (c1 : Cpu) : Type 0 where
  pub base : c1.stack ≡ frame_base c
  pub argument : c1.regs 0 ≡ c1.stack
  pub frame : FrameAt c1.mem c1.stack (frame_of c stack)
  pub rest : (a : ℕ) → ((i : ℕ) → i < frame_size → at c1.stack i ≢ a) → c1.mem a ≡ c.mem a
  pub user_stack : c1.user_stack ≡ c.user_stack
  pub status : (c1.elr ≡ c.elr) × (c1.spsr ≡ c.spsr)

pub save_el0-Saved :
    (c : Cpu) → Saved c c.user_stack (exec (save_context_el0 ++ mov (x 0) sp ∷ []) c)
unfolding exec save_context_el0
save_el0-Saved c = record {
  base = refl;
  argument = refl;
  frame = written-FrameAt c c.user_stack (frame_base c) c.mem;
  rest = λ a outside.
      write_all-outside (frame_words c c.user_stack) (frame_base c) frame_size a c.mem
        (frame_words-Within c c.user_stack) outside;
  user_stack = refl;
  status = (refl, refl);
}

-- At EL1 the frame has the stack pointer that the interrupted code had.
pub save_el1-Saved :
    (c : Cpu) → c.stack < 2 ^ 64 → Saved c c.stack (exec (save_context ++ mov (x 0) sp ∷ []) c)
unfolding exec save_context
save_el1-Saved c lt =
    let above : at (frame_base c) frame_size ≡ c.stack = omega arith in
    record {
      base = refl;
      argument = refl;
      frame =
          subst
            (λ v.
              FrameAt
                (write_all (frame_base c) (frame_words c (at (frame_base c) frame_size)) c.mem)
                (frame_base c) (frame_of c v))
            above (written-FrameAt c (at (frame_base c) frame_size) (frame_base c) c.mem);
      rest = λ a outside.
          write_all-outside (frame_words c (at (frame_base c) frame_size)) (frame_base c) frame_size
            a c.mem (frame_words-Within c (at (frame_base c) frame_size)) outside;
      user_stack = refl;
      status = (refl, refl);
    }
