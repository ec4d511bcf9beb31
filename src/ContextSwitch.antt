-- ===== src/ContextSwitch.antt =====
-- kernel/arch/aarch64/context_switch.S.
pub mod Registers
pub mod Kernel
use d_rpi_proto_os.Base.{List, [], ◌∷◌}
use d_rpi_proto_os.Arm.{Instr, x, sp, str, ldr, mov, daifset_irq, daifclr_irq, ret}

-- x0 is the old thread's context, and x1 the new one's.
unfoldable pub context_switch : List Instr
context_switch =
    daifset_irq
    ∷ str (x 19) (x 0) 0
    ∷ str (x 20) (x 0) 8
    ∷ str (x 21) (x 0) 16
    ∷ str (x 22) (x 0) 24
    ∷ str (x 23) (x 0) 32
    ∷ str (x 24) (x 0) 40
    ∷ str (x 25) (x 0) 48
    ∷ str (x 26) (x 0) 56
    ∷ str (x 27) (x 0) 64
    ∷ str (x 28) (x 0) 72
    ∷ str (x 29) (x 0) 80
    ∷ mov (x 2) sp
    ∷ str (x 2) (x 0) 88
    ∷ str (x 30) (x 0) 96
    ∷ ldr (x 19) (x 1) 0
    ∷ ldr (x 20) (x 1) 8
    ∷ ldr (x 21) (x 1) 16
    ∷ ldr (x 22) (x 1) 24
    ∷ ldr (x 23) (x 1) 32
    ∷ ldr (x 24) (x 1) 40
    ∷ ldr (x 25) (x 1) 48
    ∷ ldr (x 26) (x 1) 56
    ∷ ldr (x 27) (x 1) 64
    ∷ ldr (x 28) (x 1) 72
    ∷ ldr (x 29) (x 1) 80
    ∷ ldr (x 2) (x 1) 88
    ∷ mov sp (x 2)
    ∷ ldr (x 30) (x 1) 96
    ∷ daifclr_irq
    ∷ ret
    ∷ []
