-- ===== src/BootCode.antt =====
-- kernel/arch/aarch64/boot.S: from the reset to `kernel_main`.
pub mod Started
use d_rpi_proto_os.Base.{
  ℕ, zero, suc, ◌+◌, ◌-◌, ◌*◌, ◌/◌, ◌%◌, ◌^◌, Option, none, some, ◌==◌, if◌then◌else◌, leb, update,
}
use d_rpi_proto_os.Arm.{Cpu, Reg, x, sp, get, set, at, store}
use Prim.Native.Nat.{bit_or}

-- The places that the linker assigns.
pub record Places : Type 0 where
  pub stack_top : ℕ
  pub bss_start : ℕ
  pub bss_end : ℕ
  pub el1_entry : ℕ

-- The processor at the reset, with the registers of EL2 that the code writes.
pub record Reset : Type 0 where
  pub cpu : Cpu
  pub current_el : ℕ
  pub hcr_el2 : ℕ
  pub cnthctl_el2 : ℕ
  pub cntvoff_el2 : ℕ
  pub spsr_el2 : ℕ
  pub elr_el2 : ℕ

-- `eret` at EL2; the level of the status is in its bits 2 and 3, as it is in CurrentEL.
abbrev eret_el2 : Reset → Reset
eret_el2 r = record r {
  cpu = record (r.cpu) { pc = r.elr_el2; pstate = r.spsr_el2 };
  current_el = r.spsr_el2 / 4 % 4 * 4;
}

unfoldable pub from_el2 : Places → Reset → Reset
from_el2 p r0 =
    let r1 = record r0 { hcr_el2 = 2 ^ 31 } in
    let r2 = record r1 { cnthctl_el2 = bit_or r1.cnthctl_el2 3; cntvoff_el2 = 0 } in
    let r3 = record r2 { spsr_el2 = 0x3C5; cpu = set (x 0) p.el1_entry r2.cpu } in
    eret_el2 (record r3 { elr_el2 = r3.cpu.regs 0 })

-- `str x2, [x0], #8`
abbrev pub clear_word : Cpu → Cpu
clear_word c = set (x 0) (at (c.regs 0) 8) (store (c.regs 0) (c.regs 2) c)

-- `bss_loop` with at most `n` rounds; `none` means that more are left.
unfoldable pub bss_loop : ℕ → Cpu → Option Cpu
bss_loop zero c = none
bss_loop (suc n) c =
    let rest = bss_loop n (clear_word c) in if leb (c.regs 1) (c.regs 0) then some c else rest

-- The code up to the call of `kernel_main`.
unfoldable pub el1_entry : ℕ → Places → Cpu → Option Cpu
el1_entry n p c0 =
    let c1 = set (x 0) p.stack_top c0 in
    let c2 = set sp (c1.regs 0) c1 in
    let c3 = set (x 2) 0 (set (x 1) p.bss_end (set (x 0) p.bss_start c2)) in bss_loop n c3

abbrev pub with_cpu : Reset → Option Cpu → Option Reset
with_cpu r none = none
with_cpu r (some c) = some (record r { cpu = c })

-- At another level than EL2 and EL1 the code stays in a loop of its own, whatever the rounds.
abbrev pub start_at : ℕ → ℕ → Places → Reset → Option Reset
start_at level n p r =
    if level == 2
    then with_cpu (from_el2 p r) (el1_entry n p (from_el2 p r).cpu)
    else if level == 1
    then with_cpu r (el1_entry n p r.cpu)
    else none

unfoldable pub start_code : ℕ → Places → Reset → Option Reset
start_code n p r = start_at (r.current_el / 2 ^ 2) n p r
