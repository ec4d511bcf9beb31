-- ===== src/Vectors/Exit.antt =====
-- The way back from a handler: the registers come from the frame.
use d_rpi_proto_os.Base.{ℕ, ◌*◌, ◌<◌, ◌≡◌, refl, ◌∙◌, [], ◌∷◌, ◌++◌, table-at}
use d_rpi_proto_os.State.{TrapFrame}
use d_rpi_proto_os.Arm.{Cpu, eret, exec, at}
use d_rpi_proto_os.Vectors.{restore_context, restore_sync_context, frame_size}
use d_rpi_proto_os.Vectors.Frame.{FrameAt}

-- The processor behind the return with a frame: the general registers are the frame's, and the frame is
-- off the stack.
pub record Restored (c : Cpu) (tf : TrapFrame) (c' : Cpu) : Type 0 where
  pub registers : (j : ℕ) → j < 31 → c'.regs j ≡ tf.x j
  pub stack : c'.stack ≡ at c.stack frame_size
  pub user_stack : c'.user_stack ≡ c.user_stack
  pub mem : c'.mem ≡ c.mem

module _ (c : Cpu) (tf : TrapFrame) (f : FrameAt c.mem c.stack tf) where
  pub restore_sync-Restored :
      let c' = exec (restore_sync_context ++ eret ∷ []) c in
      Restored c tf c' × (c'.pc ≡ tf.elr) × (c'.pstate ≡ tf.spsr)
  unfolding exec restore_sync_context restore_context
  restore_sync-Restored = (
    record {
      registers = λ j lt.
          table-at 31 (exec (restore_sync_context ++ eret ∷ []) c).regs
            (λ j. c.mem (at c.stack (8 * j))) j refl lt
          ∙ f.registers j lt;
      stack = refl;
      user_stack = refl;
      mem = refl;
    },
    f.pc,
    f.status,
  )

  -- An interrupt's return takes the program counter and the status from their registers.
  pub restore-Restored :
      let c' = exec (restore_context ++ eret ∷ []) c in
      Restored c tf c' × (c'.pc ≡ c.elr) × (c'.pstate ≡ c.spsr)
  unfolding exec restore_context
  restore-Restored = (
    record {
      registers = λ j lt.
          table-at 31 (exec (restore_context ++ eret ∷ []) c).regs (λ j. c.mem (at c.stack (8 * j)))
            j refl lt
          ∙ f.registers j lt;
      stack = refl;
      user_stack = refl;
      mem = refl;
    },
    refl,
    refl,
  )
