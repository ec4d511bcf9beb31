-- ===== src/Arm.antt =====
-- The part of the AArch64 architecture that the kernel's assembly uses: registers, memory in 64-bit words,
-- and the instructions as steps. A register holds a number below 2 ^ 64, and addresses wrap.
pub mod Words
use d_rpi_proto_os.Base.{ℕ, ◌+◌, ◌-◌, ◌/◌, ◌%◌, ◌^◌, List, [], ◌∷◌, ◌==◌, if◌then◌else◌, update}
use Prim.Native.Nat.{bit_or}

-- `stack` is the stack pointer of EL1, and `user_stack` that of EL0. `pstate` has the form of a saved
-- program status: bit 7 masks interrupts, and bits 2 and 3 are the exception level.
pub record Cpu : Type 0 where
  pub regs : ℕ → ℕ
  pub stack : ℕ
  pub user_stack : ℕ
  pub pc : ℕ
  pub pstate : ℕ
  pub elr : ℕ
  pub spsr : ℕ
  pub esr : ℕ
  pub far : ℕ
  pub vbar : ℕ
  pub mem : ℕ → ℕ

pub data Reg : Type 0 where
  x : ℕ → Reg
  sp : Reg

pub data SysReg : Type 0 where
  sp_el0 elr_el1 spsr_el1 esr_el1 far_el1 vbar_el1 : SysReg

pub data Instr : Type 0 where
  str ldr : Reg → Reg → ℕ → Instr
  stp ldp : Reg → Reg → Reg → ℕ → Instr
  add sub : Reg → Reg → ℕ → Instr
  mov : Reg → Reg → Instr
  mrs : Reg → SysReg → Instr
  msr : SysReg → Reg → Instr
  daifset_irq daifclr_irq isb ret eret : Instr

abbrev pub get : Reg → Cpu → ℕ
get (x n) c = c.regs n
get sp c = c.stack

abbrev pub set : Reg → ℕ → Cpu → Cpu
set (x n) v c = record c { regs = update c.regs n v }
set sp v c = record c { stack = v }

abbrev pub get_sys : SysReg → Cpu → ℕ
get_sys sp_el0 c = c.user_stack
get_sys elr_el1 c = c.elr
get_sys spsr_el1 c = c.spsr
get_sys esr_el1 c = c.esr
get_sys far_el1 c = c.far
get_sys vbar_el1 c = c.vbar

abbrev pub set_sys : SysReg → ℕ → Cpu → Cpu
set_sys sp_el0 v c = record c { user_stack = v }
set_sys elr_el1 v c = record c { elr = v }
set_sys spsr_el1 v c = record c { spsr = v }
set_sys esr_el1 v c = record c { esr = v }
set_sys far_el1 v c = record c { far = v }
set_sys vbar_el1 v c = record c { vbar = v }

-- The address at an offset from a base.
abbrev pub at : ℕ → ℕ → ℕ
at base off = (base + off) % 2 ^ 64

abbrev pub store : ℕ → ℕ → Cpu → Cpu
store addr v c = record c { mem = update c.mem addr v }

abbrev pub clear_irq_mask : ℕ → ℕ
clear_irq_mask p = if p / 2 ^ 7 % 2 == 1 then p - 2 ^ 7 else p

abbrev pub step : Instr → Cpu → Cpu
step (str r base off) c = store (at (get base c) off) (get r c) c
step (ldr r base off) c = set r (c.mem (at (get base c) off)) c
step (stp r s base off) c =
    store (at (get base c) (off + 8)) (get s c) (store (at (get base c) off) (get r c) c)
step (ldp r s base off) c =
    set s (c.mem (at (get base c) (off + 8))) (set r (c.mem (at (get base c) off)) c)
step (add r s n) c = set r (at (get s c) n) c
step (sub r s n) c = set r (at (get s c) (2 ^ 64 - n)) c
step (mov r s) c = set r (get s c) c
step (mrs r s) c = set r (get_sys s c) c
step (msr s r) c = set_sys s (get r c) c
step daifset_irq c = record c { pstate = bit_or c.pstate (2 ^ 7) }
step daifclr_irq c = record c { pstate = clear_irq_mask c.pstate }
step isb c = c
step ret c = record c { pc = c.regs 30 }
step eret c = record c { pc = c.elr; pstate = c.spsr }

unfoldable pub exec : List Instr → Cpu → Cpu
exec [] c = c
exec (i ∷ is) c = exec is (step i c)

-- What the processor does at an exception, before the vector's code: EL1 with its own stack pointer, and
-- exceptions masked.
abbrev pub take_exception : ℕ → ℕ → Cpu → Cpu
take_exception syndrome address c = record c {
  elr = c.pc;
  spsr = c.pstate;
  esr = syndrome;
  far = address;
  pstate = 0x3C5;
}
