-- ===== src/Devices.antt =====
-- The device drivers: kernel/arch/aarch64/gic.c, timer.c, the set-up of uart_pl011.c, and the handler of
-- interrupts in arch.c. A device register is written into a list, the last write first; what a read
-- gives is the hardware's.
pub mod Irq
pub mod Clock
use d_rpi_proto_os.Base.{
  ℕ, ◌+◌, ◌*◌, ◌/◌, ◌%◌, ◌^◌, Bool, true, false, List, [], ◌∷◌, ◌==◌, if◌then◌else◌,
}
use d_rpi_proto_os.Config.{BenchMode, bench_off}
use d_rpi_proto_os.State.{Kernel}
use d_rpi_proto_os.State.Effect.{codes}
use d_rpi_proto_os.State.Output.{print_all}
use d_rpi_proto_os.Printk.{decimal}
use d_rpi_proto_os.Thread.{thread_tick_irq}
use Prim.Native.Nat.{bit_or}

-- The statics of timer.c, the registers of the timer, the writes to device registers, and whether
-- interrupts are let through.
pub record Devices : Type 0 where
  pub ticks : ℕ
  pub counter_freq : ℕ
  pub tick_interval : ℕ
  pub cntkctl_el1 : ℕ
  pub cntv_tval_el0 : ℕ
  pub cntv_ctl_el0 : ℕ
  pub mmio_writes : List (ℕ × ℕ)
  pub irq_enabled : Bool

-- The hardware: the value of a device register behind the writes so far, and the counter's frequency.
pub record Hardware : Type 0 where
  pub mmio_read : List (ℕ × ℕ) → ℕ → ℕ
  pub cntfrq_el0 : ℕ

abbrev pub mmio_write : ℕ → ℕ → Devices → Devices
mmio_write addr value d = record d { mmio_writes = (addr, value) ∷ d.mmio_writes }

abbrev pub gicd_base : ℕ
gicd_base = 0x0800_0000

abbrev pub gicc_base : ℕ
gicc_base = 0x0801_0000

abbrev pub gicc_iar : ℕ
gicc_iar = gicc_base + 0x00C

abbrev pub gicc_eoir : ℕ
gicc_eoir = gicc_base + 0x010

abbrev pub timer_irq_id : ℕ
timer_irq_id = 27

abbrev uart_base : ℕ
uart_base = 0x0900_0000

unfoldable pub uart_init : Devices → Devices
uart_init d0 =
    let d1 = mmio_write (uart_base + 0x30) 0 d0 in
    let d2 = mmio_write (uart_base + 0x44) 0x7FF d1 in
    let d3 = mmio_write (uart_base + 0x24) 13 d2 in
    let d4 = mmio_write (uart_base + 0x28) 1 d3 in
    let d5 = mmio_write (uart_base + 0x2C) (3 * 2 ^ 5) d4 in
    let d6 = mmio_write (uart_base + 0x38) 0 d5 in
    mmio_write (uart_base + 0x30) (bit_or (bit_or (2 ^ 9) (2 ^ 8)) 1) d6

-- The byte of the timer's priority in its register, whose other bytes stay.
unfoldable pub priority_value : ℕ → ℕ
priority_value val = bit_or (val % 2 ^ 24) (0x80 * 2 ^ 24)

unfoldable pub gic_init : Hardware → Devices → Devices
gic_init hw d0 =
    let d1 = mmio_write gicd_base 0 d0 in
    let d2 = mmio_write gicc_base 0 d1 in
    let reg = gicd_base + 0x400 + timer_irq_id / 4 * 4 in
    let val = hw.mmio_read d2.mmio_writes reg % 2 ^ 32 in
    let d3 = mmio_write reg (priority_value val) d2 in
    let d4 = mmio_write (gicd_base + 0x180) (2 ^ timer_irq_id) d3 in
    let d5 = mmio_write (gicd_base + 0x100) (2 ^ timer_irq_id) d4 in
    let d6 = mmio_write (gicc_base + 0x004) 0xFF d5 in
    let d7 = mmio_write gicc_base 1 d6 in mmio_write gicd_base 1 d7

abbrev read_cntfrq : Hardware → ℕ
read_cntfrq hw = hw.cntfrq_el0

abbrev write_cntv_tval : ℕ → Devices → Devices
write_cntv_tval v d = record d { cntv_tval_el0 = v }

abbrev write_cntv_ctl : ℕ → Devices → Devices
write_cntv_ctl v d = record d { cntv_ctl_el0 = v }

abbrev read_cntkctl_el1 : Devices → ℕ
read_cntkctl_el1 d = d.cntkctl_el1

abbrev write_cntkctl_el1 : ℕ → Devices → Devices
write_cntkctl_el1 v d = record d { cntkctl_el1 = v }

unfoldable pub timer_init : Hardware → Devices → Devices
timer_init hw d0 =
    let freq = read_cntfrq hw in
    let interval = if freq / 1000 == 0 then 1 else freq / 1000 in
    let d1 = record d0 { counter_freq = freq; tick_interval = interval } in
    let d2 = write_cntkctl_el1 (bit_or (read_cntkctl_el1 d1) (2 ^ 1)) d1 in
    write_cntv_ctl 1 (write_cntv_tval d2.tick_interval d2)

abbrev pub timer_counter_freq_hz : Devices → ℕ
timer_counter_freq_hz d = d.counter_freq

abbrev pub arch_enable_irq : Devices → Devices
arch_enable_irq d = record d { irq_enabled = true }

abbrev arch_disable_irq : Devices → Devices
arch_disable_irq d = record d { irq_enabled = false }

-- The line of each thousandth tick, which only the mode without measurements prints (DEBUG_TICK is 1).
unfoldable pub report_tick : BenchMode → ℕ → Kernel → Kernel
report_tick bench_off ticks k =
    if ticks % 1000 == 0 then print_all (codes "[tick] " ∷ decimal ticks ∷ codes "\n" ∷ []) k else k
report_tick _ ticks k = k

unfoldable pub timer_handle_irq : BenchMode → Devices → Kernel → Devices × Kernel
timer_handle_irq mode d k =
    let ticks = (d.ticks + 1) % 2 ^ 64 in
    (
      write_cntv_tval d.tick_interval (record d { ticks = ticks }),
      report_tick mode ticks (thread_tick_irq k),
    )

unfoldable pub gic_handle_irq : Hardware → BenchMode → Devices → Kernel → Devices × Kernel
gic_handle_irq hw mode d k =
    let iar = hw.mmio_read d.mmio_writes gicc_iar % 2 ^ 32 in
    let handled = if iar % 2 ^ 10 == timer_irq_id then timer_handle_irq mode d k else (d, k) in
    (mmio_write gicc_eoir iar handled.0, handled.1)

unfoldable pub exception_irq : Hardware → BenchMode → Devices → Kernel → Devices × Kernel
exception_irq hw mode d k = gic_handle_irq hw mode d k
