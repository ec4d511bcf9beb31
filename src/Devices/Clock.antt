-- ===== src/Devices/Clock.antt =====
-- kernel/arch/aarch64/timer.c from its set-up on: a clock that the timer's interrupts drive, and the timer that
-- counts down between them.
use Prim.Native.Nat.{max}
use d_rpi_proto_os.Base.{
  ◌/◌, ℕ, ◌+◌, ◌-◌, ◌%◌, ◌^◌, ◌≡◌, ◌≢◌, refl, ap, sym, ◌∙◌, inl, inr, ◌==◌, Bool-cases, Option,
  none, some, arith,
}
use d_rpi_proto_os.Config.{BenchMode}
use d_rpi_proto_os.State.{Kernel}
use d_rpi_proto_os.Thread.{charge_quantum, thread_tick_irq}
use d_rpi_proto_os.Devices.{
  Devices, Hardware, timer_irq_id, timer_init, timer_handle_irq, gic_handle_irq, exception_irq,
}
use d_rpi_proto_os.Devices.Irq.{acknowledged, exception_irq-cases, exception_irq-ends}

-- The reference: the ticks so far, and what is left of the one that runs.
pub record Clock : Type 0 where
  pub ticks : ℕ
  pub left : ℕ

-- A millisecond of the counter, and at least one of its steps.
abbrev pub period : Hardware → ℕ
period hw = max 1 (hw.cntfrq_el0 / 1000)

-- The timer register counts down to its expiry, where this model leaves it.
abbrev pub count_down : ℕ → Devices → Devices
count_down n d = record d { cntv_tval_el0 = d.cntv_tval_el0 - n }

-- What happens from the set-up on: steps of the counter go by, the kernel works and leaves its ticks alone,
-- a timer interrupt starts the next tick, and another interrupt does not disturb the clock.
pub data Runs (hw : Hardware) (mode : BenchMode) : Clock → Devices → Kernel → Type 0 where
  set_up :
      (d : Devices) (k : Kernel)
      → d.ticks ≡ k.sched_ticks
      → Runs hw mode (record { ticks = d.ticks; left = period hw }) (timer_init hw d) k
  elapses :
      {c : Clock} {d : Devices} {k : Kernel} (n : ℕ)
      → Runs hw mode c d k
      → Runs hw mode (record c { left = c.left - n }) (count_down n d) k
  works :
      {c : Clock} {d : Devices} {k : Kernel} (k' : Kernel)
      → k'.sched_ticks ≡ k.sched_ticks
      → Runs hw mode c d k
      → Runs hw mode c d k'
  ticks_on :
      {c : Clock} {d : Devices} {k : Kernel}
      → acknowledged hw d % 2 ^ 10 ≡ timer_irq_id
      → Runs hw mode c d k
      → Runs hw mode
          (record { ticks = (c.ticks + 1) % 2 ^ 64; left = period hw })
          (exception_irq hw mode d k).0
          (exception_irq hw mode d k).1
  serves_other :
      {c : Clock} {d : Devices} {k : Kernel}
      → acknowledged hw d % 2 ^ 10 ≢ timer_irq_id
      → Runs hw mode c d k
      → Runs hw mode c (exception_irq hw mode d k).0 (exception_irq hw mode d k).1

-- The driver and the scheduler show the clock's ticks, the timer what is left of the tick that runs; its
-- interval is the period, and its control register has only the enable bit set.
pub record Clocked (hw : Hardware) (c : Clock) (d : Devices) (k : Kernel) : Type 0 where
  pub driver : d.ticks ≡ c.ticks
  pub scheduler : k.sched_ticks ≡ c.ticks
  pub timer : d.cntv_tval_el0 ≡ c.left
  pub interval : d.tick_interval ≡ period hw
  pub enabled : d.cntv_ctl_el0 ≡ 1

charge_quantum-ticks :
    (c : Option ℕ) (k : Kernel) → (charge_quantum c k).sched_ticks ≡ k.sched_ticks
unfolding charge_quantum
charge_quantum-ticks none k = refl
charge_quantum-ticks (some c) k = elim (Bool-cases ((k.threads c).quantum_left - 1 == 0)) [
  | inl e ↦ rw e refl
  | inr e ↦ rw e refl
]

thread_tick_irq-ticks :
    (k : Kernel) → (thread_tick_irq k).sched_ticks ≡ (k.sched_ticks + 1) % 2 ^ 64
unfolding thread_tick_irq
thread_tick_irq-ticks k = charge_quantum-ticks k.current _

exception_irq-ctl :
    (hw : Hardware) (mode : BenchMode) (d : Devices) (k : Kernel)
    → (exception_irq hw mode d k).0.cntv_ctl_el0 ≡ d.cntv_ctl_el0
unfolding exception_irq gic_handle_irq timer_handle_irq
exception_irq-ctl hw mode d k = elim (Bool-cases (acknowledged hw d % 2 ^ 10 == timer_irq_id)) [
  | inl e ↦ rw e refl
  | inr e ↦ rw e refl
]

module _ (hw : Hardware) (mode : BenchMode) {c : Clock} {d : Devices} {k : Kernel}
    (h : Clocked hw c d k) where
  tick-Clocked :
      acknowledged hw d % 2 ^ 10 ≡ timer_irq_id
      → (let after = exception_irq hw mode d k in
          Clocked hw (record { ticks = (c.ticks + 1) % 2 ^ 64; left = period hw }) after.0 after.1)
  tick-Clocked id = elim (exception_irq-cases hw mode d k) [
    | inl (timer, (out, prints), counted, armed) ↦ record {
      driver = counted ∙ ap (λ n. (n + 1) % 2 ^ 64) h.driver;
      scheduler =
          ap (λ k'. k'.sched_ticks) prints
          ∙ thread_tick_irq-ticks k
          ∙ ap (λ n. (n + 1) % 2 ^ 64) h.scheduler;
      timer = armed ∙ h.interval;
      interval = (exception_irq-ends hw mode d k).1 ∙ h.interval;
      enabled = exception_irq-ctl hw mode d k ∙ h.enabled;
    }
    | inr (other, same, counted, kept) ↦ absurd (other id)
  ]

  other-Clocked :
      acknowledged hw d % 2 ^ 10 ≢ timer_irq_id
      → (let after = exception_irq hw mode d k in Clocked hw c after.0 after.1)
  other-Clocked id = elim (exception_irq-cases hw mode d k) [
    | inl (timer, prints, counted, armed) ↦ absurd (id timer)
    | inr (other, same, counted, kept) ↦ record {
      driver = counted ∙ h.driver;
      scheduler = ap (λ k'. k'.sched_ticks) same ∙ h.scheduler;
      timer = kept ∙ h.timer;
      interval = (exception_irq-ends hw mode d k).1 ∙ h.interval;
      enabled = exception_irq-ctl hw mode d k ∙ h.enabled;
    }
  ]

set_up-Clocked :
    (hw : Hardware) (d : Devices) (k : Kernel)
    → d.ticks ≡ k.sched_ticks
    → Clocked hw (record { ticks = d.ticks; left = period hw }) (timer_init hw d) k
unfolding timer_init
set_up-Clocked hw d k agree = record {
  driver = refl;
  scheduler = sym agree;
  timer = ground arith;
  interval = ground arith;
  enabled = refl;
}

-- If at the set-up of the timer the driver's and the scheduler's tick counters agree, then after
-- any run of steps of the counter, work of the kernel that leaves the scheduler's ticks alone, and
-- interrupts of any identifier, both counters show the reference clock's ticks, which go up by one
-- modulo 2 ^ 64 with each timer interrupt and not otherwise. The timer register shows what is left
-- of the tick that runs: each timer interrupt sets it to the period, a thousandth of the counter's
-- frequency and at least 1, and it counts down with the counter. The driver's interval is that
-- period, and the timer's control register has its enable bit alone set.
pub Runs-Clocked :
    (hw : Hardware) (mode : BenchMode) (c : Clock) (d : Devices) (k : Kernel)
    → Runs hw mode c d k
    → Clocked hw c d k
Runs-Clocked hw mode _ _ _ (set_up d k agree) = set_up-Clocked hw d k agree
Runs-Clocked hw mode _ _ _ (elapses n run) =
    let h = Runs-Clocked hw mode _ _ _ run in
    record {
      driver = h.driver;
      scheduler = h.scheduler;
      timer = ap (λ v. v - n) h.timer;
      interval = h.interval;
      enabled = h.enabled;
    }
Runs-Clocked hw mode _ _ _ (works k' same run) =
    let h = Runs-Clocked hw mode _ _ _ run in
    record {
      driver = h.driver;
      scheduler = same ∙ h.scheduler;
      timer = h.timer;
      interval = h.interval;
      enabled = h.enabled;
    }
Runs-Clocked hw mode _ _ _ (ticks_on id run) =
    tick-Clocked hw mode (Runs-Clocked hw mode _ _ _ run) id
Runs-Clocked hw mode _ _ _ (serves_other id run) =
    other-Clocked hw mode (Runs-Clocked hw mode _ _ _ run) id
