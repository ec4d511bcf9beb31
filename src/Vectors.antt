-- ===== src/Vectors.antt =====
-- kernel/arch/aarch64/vectors.S: the vector table, and the code around the handlers in C.
pub mod Frame
pub mod Exit
pub mod Interrupt
pub mod Trap
use d_rpi_proto_os.Base.{ℕ, ◌*◌, List, [], ◌∷◌, ◌++◌, ◌==◌, if◌then◌else◌}
use d_rpi_proto_os.Arm.{
  Cpu, Instr, x, sp, str, ldr, stp, ldp, add, sub, mov, mrs, msr, eret, sp_el0, elr_el1, spsr_el1,
  esr_el1, far_el1, vbar_el1, isb, ret, exec, set, take_exception,
}

abbrev pub frame_size : ℕ
frame_size = 36 * 8

unfoldable pub save_context : List Instr
save_context =
    sub sp sp frame_size
    ∷ stp (x 0) (x 1) sp 0
    ∷ stp (x 2) (x 3) sp 16
    ∷ stp (x 4) (x 5) sp 32
    ∷ stp (x 6) (x 7) sp 48
    ∷ stp (x 8) (x 9) sp 64
    ∷ stp (x 10) (x 11) sp 80
    ∷ stp (x 12) (x 13) sp 96
    ∷ stp (x 14) (x 15) sp 112
    ∷ stp (x 16) (x 17) sp 128
    ∷ stp (x 18) (x 19) sp 144
    ∷ stp (x 20) (x 21) sp 160
    ∷ stp (x 22) (x 23) sp 176
    ∷ stp (x 24) (x 25) sp 192
    ∷ stp (x 26) (x 27) sp 208
    ∷ stp (x 28) (x 29) sp 224
    ∷ str (x 30) sp 240
    ∷ add (x 1) sp frame_size
    ∷ str (x 1) sp 248
    ∷ mrs (x 1) elr_el1
    ∷ str (x 1) sp 256
    ∷ mrs (x 1) spsr_el1
    ∷ str (x 1) sp 264
    ∷ mrs (x 1) esr_el1
    ∷ str (x 1) sp 272
    ∷ mrs (x 1) far_el1
    ∷ str (x 1) sp 280
    ∷ []

unfoldable pub save_context_el0 : List Instr
save_context_el0 =
    sub sp sp frame_size
    ∷ stp (x 0) (x 1) sp 0
    ∷ stp (x 2) (x 3) sp 16
    ∷ stp (x 4) (x 5) sp 32
    ∷ stp (x 6) (x 7) sp 48
    ∷ stp (x 8) (x 9) sp 64
    ∷ stp (x 10) (x 11) sp 80
    ∷ stp (x 12) (x 13) sp 96
    ∷ stp (x 14) (x 15) sp 112
    ∷ stp (x 16) (x 17) sp 128
    ∷ stp (x 18) (x 19) sp 144
    ∷ stp (x 20) (x 21) sp 160
    ∷ stp (x 22) (x 23) sp 176
    ∷ stp (x 24) (x 25) sp 192
    ∷ stp (x 26) (x 27) sp 208
    ∷ stp (x 28) (x 29) sp 224
    ∷ str (x 30) sp 240
    ∷ mrs (x 1) sp_el0
    ∷ str (x 1) sp 248
    ∷ mrs (x 1) elr_el1
    ∷ str (x 1) sp 256
    ∷ mrs (x 1) spsr_el1
    ∷ str (x 1) sp 264
    ∷ mrs (x 1) esr_el1
    ∷ str (x 1) sp 272
    ∷ mrs (x 1) far_el1
    ∷ str (x 1) sp 280
    ∷ []

unfoldable pub restore_context : List Instr
restore_context =
    ldp (x 0) (x 1) sp 0
    ∷ ldp (x 2) (x 3) sp 16
    ∷ ldp (x 4) (x 5) sp 32
    ∷ ldp (x 6) (x 7) sp 48
    ∷ ldp (x 8) (x 9) sp 64
    ∷ ldp (x 10) (x 11) sp 80
    ∷ ldp (x 12) (x 13) sp 96
    ∷ ldp (x 14) (x 15) sp 112
    ∷ ldp (x 16) (x 17) sp 128
    ∷ ldp (x 18) (x 19) sp 144
    ∷ ldp (x 20) (x 21) sp 160
    ∷ ldp (x 22) (x 23) sp 176
    ∷ ldp (x 24) (x 25) sp 192
    ∷ ldp (x 26) (x 27) sp 208
    ∷ ldp (x 28) (x 29) sp 224
    ∷ ldr (x 30) sp 240
    ∷ add sp sp frame_size
    ∷ []

unfoldable pub restore_sync_context : List Instr
restore_sync_context =
    ldr (x 0) sp 256 ∷ msr elr_el1 (x 0) ∷ ldr (x 0) sp 264 ∷ msr spsr_el1 (x 0) ∷ restore_context

-- A handler in C stands for its call, the link register included.
unfoldable pub run_el1h_sync : (Cpu → Cpu) → Cpu → Cpu
run_el1h_sync exception_sync_el1 c =
    exec (restore_sync_context ++ eret ∷ [])
      (exception_sync_el1 (exec (save_context ++ mov (x 0) sp ∷ []) c))

unfoldable pub run_el1h_irq : (Cpu → Cpu) → Cpu → Cpu
run_el1h_irq exception_irq c =
    exec (restore_context ++ eret ∷ []) (exception_irq (exec (save_context ++ mov (x 0) sp ∷ []) c))

unfoldable pub run_el0_sync : (Cpu → Cpu) → Cpu → Cpu
run_el0_sync exception_sync_el0 c =
    exec (restore_sync_context ++ eret ∷ [])
      (exception_sync_el0 (exec (save_context_el0 ++ mov (x 0) sp ∷ []) c))

unfoldable pub run_el0_irq : (Cpu → Cpu) → Cpu → Cpu
run_el0_irq exception_irq c =
    exec (restore_context ++ eret ∷ [])
      (exception_irq (exec (save_context_el0 ++ mov (x 0) sp ∷ []) c))

pub record Handlers : Type 0 where
  pub exception_sync_el1 : Cpu → Cpu
  pub exception_sync_el0 : Cpu → Cpu
  pub exception_irq : Cpu → Cpu

pub data Label : Type 0 where
  el1t_sync el1t_irq el1t_fiq el1t_serr : Label
  el1h_sync el1h_irq el1h_fiq el1h_serr : Label
  el0_sync el0_irq el0_fiq el0_serr : Label
  el0_32_sync el0_32_irq el0_32_fiq el0_32_serr : Label

-- The branch at offset 128 * n of the table, for n below 16.
unfoldable pub vectors : ℕ → Label
vectors n =
    if n == 0
    then el1t_sync
    else if n == 1
    then el1t_irq
    else if n == 2
    then el1t_fiq
    else if n == 3
    then el1t_serr
    else if n == 4
    then el1h_sync
    else if n == 5
    then el1h_irq
    else if n == 6
    then el1h_fiq
    else if n == 7
    then el1h_serr
    else if n == 8
    then el0_sync
    else if n == 9
    then el0_irq
    else if n == 10
    then el0_fiq
    else if n == 11
    then el0_serr
    else if n == 12
    then el0_32_sync
    else if n == 13
    then el0_32_irq
    else if n == 14
    then el0_32_fiq
    else el0_32_serr

-- The code at a label, branches followed.
unfoldable pub run_label : Handlers → Label → Cpu → Cpu
run_label h el1t_sync = run_el1h_sync h.exception_sync_el1
run_label h el1t_irq = run_el1h_irq h.exception_irq
run_label h el1t_fiq = run_el1h_sync h.exception_sync_el1
run_label h el1t_serr = run_el1h_sync h.exception_sync_el1
run_label h el1h_sync = run_el1h_sync h.exception_sync_el1
run_label h el1h_irq = run_el1h_irq h.exception_irq
run_label h el1h_fiq = run_el1h_sync h.exception_sync_el1
run_label h el1h_serr = run_el1h_sync h.exception_sync_el1
run_label h el0_sync = run_el0_sync h.exception_sync_el0
run_label h el0_irq = run_el0_irq h.exception_irq
run_label h el0_fiq = run_el0_sync h.exception_sync_el0
run_label h el0_serr = run_el0_sync h.exception_sync_el0
run_label h el0_32_sync = run_el0_sync h.exception_sync_el0
run_label h el0_32_irq = run_el0_irq h.exception_irq
run_label h el0_32_fiq = run_el0_sync h.exception_sync_el0
run_label h el0_32_serr = run_el0_sync h.exception_sync_el0

-- An exception with syndrome and fault address: what the processor does, then the code of its vector.
abbrev pub exception : Handlers → ℕ → ℕ → ℕ → Cpu → Cpu
exception h n syndrome address c = run_label h (vectors n) (take_exception syndrome address c)

-- `adr` gives the place of the label `vectors`.
unfoldable pub vectors_init : ℕ → Cpu → Cpu
vectors_init place c = exec (msr vbar_el1 (x 0) ∷ isb ∷ ret ∷ []) (set (x 0) place c)
