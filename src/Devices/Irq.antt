-- ===== src/Devices/Irq.antt =====
-- An interrupt as a whole: what it does to the kernel, and what it tells the interrupt controller.
use d_rpi_proto_os.Base.{
  ℕ, ◌+◌, ◌%◌, ◌^◌, ◌≡◌, ◌≢◌, ◌⊎◌, refl, inl, inr, ◌∷◌, ◌==◌, Bool-cases, eq_of_==, arith,
}
use d_rpi_proto_os.Config.{BenchMode, bench_off, bench_latency, bench_recovery}
use d_rpi_proto_os.State.{Kernel}
use d_rpi_proto_os.State.Output.{Prints, print_all-Prints}
use d_rpi_proto_os.Thread.{thread_tick_irq}
use d_rpi_proto_os.Devices.{
  Devices, Hardware, gicc_iar, gicc_eoir, timer_irq_id, report_tick, timer_handle_irq,
  gic_handle_irq, exception_irq,
}

-- What the controller says at an interrupt.
abbrev pub acknowledged : Hardware → Devices → ℕ
acknowledged hw d = hw.mmio_read d.mmio_writes gicc_iar % 2 ^ 32

report_tick-Prints :
    (mode : BenchMode) (ticks : ℕ) (k : Kernel) → Prints k (report_tick mode ticks k)
unfolding report_tick
report_tick-Prints bench_off ticks k = elim (Bool-cases (ticks % 1000 == 0)) [
  | inl e ↦ rw e (print_all-Prints _ k)
  | inr e ↦ rw e ((k.uart, refl))
]
report_tick-Prints bench_latency ticks k = (k.uart, refl)
report_tick-Prints bench_recovery ticks k = (k.uart, refl)

-- A timer interrupt is a tick, behind which the timer counts down again; any other interrupt changes
-- nothing.
abbrev pub OneTick : Hardware → Devices → Kernel → Devices → Kernel → Type 0
OneTick hw d k d' k' =
    (acknowledged hw d % 2 ^ 10 ≡ timer_irq_id)
    × Prints (thread_tick_irq k) k'
    × (d'.ticks ≡ (d.ticks + 1) % 2 ^ 64)
    × (d'.cntv_tval_el0 ≡ d.tick_interval)

abbrev pub NoTick : Hardware → Devices → Kernel → Devices → Kernel → Type 0
NoTick hw d k d' k' =
    (acknowledged hw d % 2 ^ 10 ≢ timer_irq_id)
    × (k' ≡ k)
    × (d'.ticks ≡ d.ticks)
    × (d'.cntv_tval_el0 ≡ d.cntv_tval_el0)

pub exception_irq-cases :
    (hw : Hardware) (mode : BenchMode) (d : Devices) (k : Kernel)
    → (let after = exception_irq hw mode d k in
        OneTick hw d k after.0 after.1 ⊎ NoTick hw d k after.0 after.1)
unfolding exception_irq gic_handle_irq timer_handle_irq
exception_irq-cases hw mode d k = elim (Bool-cases (acknowledged hw d % 2 ^ 10 == timer_irq_id)) [
  | inl e ↦ inl (
    eq_of_== (acknowledged hw d % 2 ^ 10) timer_irq_id e,
    rw e (report_tick-Prints mode _ (thread_tick_irq k)),
    rw e refl,
    rw e refl,
  )
  | inr e ↦ inr (ground arith, rw e refl, rw e refl, rw e refl)
]

-- The handler ends the interrupt once, with the value it has read, and keeps the interval.
pub exception_irq-ends :
    (hw : Hardware) (mode : BenchMode) (d : Devices) (k : Kernel)
    → (let d' = (exception_irq hw mode d k).0 in
        (d'.mmio_writes ≡ (gicc_eoir, acknowledged hw d) ∷ d.mmio_writes)
        × (d'.tick_interval ≡ d.tick_interval))
unfolding exception_irq gic_handle_irq timer_handle_irq
exception_irq-ends hw mode d k = elim (Bool-cases (acknowledged hw d % 2 ^ 10 == timer_irq_id)) [
  | inl e ↦ rw e (refl, refl)
  | inr e ↦ rw e (refl, refl)
]

-- An interrupt is ended once, with the value that was read from the controller, and the timer's
-- interval stays. If that value's identifier is 27, the kernel's state is that behind one tick of
-- the scheduler but for the output, the driver's tick counter goes up by one modulo 2 ^ 64 and the
-- timer is armed with its interval; for any other identifier the kernel, the counter and the timer
-- stay as they are.
pub exception_irq_lem :
    (hw : Hardware) (mode : BenchMode) (d : Devices) (k : Kernel)
    → (let after = exception_irq hw mode d k in
        (after.0.mmio_writes ≡ (gicc_eoir, acknowledged hw d) ∷ d.mmio_writes)
        × (after.0.tick_interval ≡ d.tick_interval)
        × (OneTick hw d k after.0 after.1 ⊎ NoTick hw d k after.0 after.1))
exception_irq_lem hw mode d k =
    let ends = exception_irq-ends hw mode d k in (ends.0, ends.1, exception_irq-cases hw mode d k)
