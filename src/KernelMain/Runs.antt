-- ===== src/KernelMain/Runs.antt =====
-- `kernel_main` runs to its end: the first user task runs, on the kernel's map, with the timer armed.
use d_rpi_proto_os.Base.{ℕ, ◌%◌, ◌≡◌, refl, ap, ◌∙◌, [], ◌∷◌, update, ◌++◌}
use d_rpi_proto_os.Config.{BenchMode, bench_off, bench_latency, bench_recovery, thread_slot_task_a}
use d_rpi_proto_os.State.{Kernel, Build}
use d_rpi_proto_os.State.Effect.{Outcome, done, panicked, Ensures, codes}
use d_rpi_proto_os.State.Output.{Prints, Prints-trans, print_all, print_all-Prints}
use d_rpi_proto_os.Printk.{decimal}
use d_rpi_proto_os.Syscall.{el1_origin, syscall_dispatch}
use d_rpi_proto_os.Syscall.Direct.{syscall_dispatch-El1}
use d_rpi_proto_os.Trap.{syscall_to_x0, exception_sync_el1}
use d_rpi_proto_os.Boot.{kernel_setup}
use d_rpi_proto_os.Boot.Sound.{LaidOut}
use d_rpi_proto_os.Boot.Start.{Booted, printed-Booted, kernel_setup-Booted, thread_start-Running}
use d_rpi_proto_os.Return.{thread_start}
use d_rpi_proto_os.Return.Alive.{Linked, Running}
use d_rpi_proto_os.Mmu.{MmuState, Layout, returns, mmu_init}
use d_rpi_proto_os.Mmu.Blocks.{Placed}
use d_rpi_proto_os.Mmu.Enabled.{Inside, Enabled, mmu_init-Enabled}
use d_rpi_proto_os.Devices.{Hardware, uart_init, gic_init, timer_init, arch_enable_irq}
use d_rpi_proto_os.System.{Reached, started}
use d_rpi_proto_os.KernelMain.{
  Machine, MachineOutcome, goes_on, stops, B, ◌>>=◌, with_kernel, with_mmu, on_kernel, on_mmu,
  svc_frame, svc_call2, svc_write, svc_time_ticks, greet, announce_mmu, announce_bench, kernel_main,
}
use d_rpi_proto_os.User.Text.{flavor_str}

-- A run that ends without a panic, as an equation.
ends :
    {A : Type 0} (P : A → Kernel → Type 0) (o : Outcome A)
    → Ensures o P
    → (a : A) × (k : Kernel) × (o ≡ done a k) × P a k
ends P (done a k) h = (a, k, refl, h)
ends P (panicked msg k) h = elim h [ ]

-- The kernel's own system calls do not panic.
svc_call2-returns :
    (b : Build) (nr arg0 arg1 : ℕ) (k : Kernel)
    → Ensures (svc_call2 b nr arg0 arg1 k) (λ _ _. Unit {0})
unfolding svc_call2 exception_sync_el1 syscall_to_x0
svc_call2-returns b nr arg0 arg1 k =
    go (syscall_dispatch b el1_origin (record k { frame = svc_frame nr arg0 arg1 k.frame }))
      (syscall_dispatch-El1 b (record k { frame = svc_frame nr arg0 arg1 k.frame }))
  where
    go :
        (o : Outcome ℕ)
        → Ensures o (λ _ k'. Prints (record k { frame = svc_frame nr arg0 arg1 k.frame }) k')
        → Ensures {A = ℕ}
            (elim (elim o as (λ _. Outcome (Unit {0})) [
              | done a k' ↦
                  done tt (record k' { frame = record (k'.frame) { x = update k'.frame.x 0 a } })
              | panicked msg k' ↦ panicked msg k'
            ])
              as (λ _. Outcome ℕ) [
                | done a k' ↦ done (k'.frame.x 0) k'
                | panicked msg k' ↦ panicked msg k'
              ])
            (λ _ _. Unit {0})
    go (done a k') h = tt
    go (panicked msg k') h = elim h [ ]

-- What changes the kernel only.
abbrev KernelOnly : MachineOutcome (Unit {0}) → Machine → (Kernel → Type 0) → Type 0
KernelOnly o s P = (k : Kernel) × (o ≡ goes_on tt (record s { kernel = k })) × P k

-- A part that goes on, and what follows it.
step :
    {A C : Type 0} (m : B A) (f : A → B C) {s s' : Machine} {a : A}
    → m s ≡ goes_on a s'
    → (m >>= f) s ≡ f a s'
step {A} {C} m f e =
    ap
      (λ (o : MachineOutcome A). elim o as (λ _. MachineOutcome C) [
        | goes_on a s' ↦ f a s'
        | stops msg s' ↦ stops msg s'
      ])
      e

-- The kernel behind the first messages.
abbrev banner : Build → Kernel → Kernel
banner b k = print_all (codes "[boot] entered kernel_main\n" ∷ []) (
    print_all ((codes "[boot] proto-os (" ++ flavor_str b.flavor ++ codes ")\n") ∷ [])
      (print_all (codes "BOOT\n" ∷ []) k))

abbrev banner_machine : Build → Machine → Machine
banner_machine b s = record s { kernel = banner b s.kernel }

greet_in_turn :
    (b : Build) (svc_ok : ℕ) (s : Machine) (a1 a2 ticks : ℕ) (k1 k2 k3 : Kernel)
    → svc_call2 b 2 svc_ok 9 (banner b s.kernel) ≡ done a1 k1
    → svc_call2 b 0 0 0 k1 ≡ done a2 k2
    → svc_call2 b 1 0 0 k2 ≡ done ticks k3
    → greet b bench_off svc_ok s
      ≡ goes_on tt (record s {
        kernel = print_all (codes "[svc] ticks " ∷ decimal ticks ∷ codes "\n" ∷ []) k3;
      })
unfolding greet
greet_in_turn b svc_ok s a1 a2 ticks k1 k2 k3 e1 e2 e3 =
    step (on_kernel (svc_write b svc_ok 9)) _ (ap (with_kernel (banner_machine b s)) e1)
    ∙ step (on_kernel (svc_call2 b 0 0 0)) _ (ap (with_kernel (record s { kernel = k1 })) e2)
    ∙ step (on_kernel (svc_time_ticks b)) _ (ap (with_kernel (record s { kernel = k2 })) e3)

greet-KernelOnly :
    (b : Build) (mode : BenchMode) (svc_ok : ℕ) (s : Machine)
    → KernelOnly (greet b mode svc_ok s) s (λ _. Unit {0})
unfolding greet
greet-KernelOnly b bench_latency svc_ok s = (s.kernel, refl, tt)
greet-KernelOnly b bench_recovery svc_ok s = (s.kernel, refl, tt)
greet-KernelOnly b bench_off svc_ok s =
    let (a1, k1, e1, h1) = returned b 2 svc_ok 9 (banner b s.kernel) in
    let (a2, k2, e2, h2) = returned b 0 0 0 k1 in
    let (ticks, k3, e3, h3) = returned b 1 0 0 k2 in
    (_, greet_in_turn b svc_ok s a1 a2 ticks k1 k2 k3 e1 e2 e3, tt)
  where
    returned :
        (b : Build) (nr arg0 arg1 : ℕ) (k : Kernel)
        → (a : ℕ) × (k' : Kernel) × (svc_call2 b nr arg0 arg1 k ≡ done a k') × Unit {0}
    returned b nr arg0 arg1 k = ends (λ _ _. Unit {0}) _ (svc_call2-returns b nr arg0 arg1 k)

announce_mmu-KernelOnly :
    (b : Build) (mode : BenchMode) (s : Machine)
    → KernelOnly (announce_mmu b mode s) s (Prints s.kernel)
unfolding announce_mmu
announce_mmu-KernelOnly b bench_off s = (_, refl, print_all-Prints _ s.kernel)
announce_mmu-KernelOnly b bench_latency s = (s.kernel, refl, (s.kernel.uart, refl))
announce_mmu-KernelOnly b bench_recovery s = (s.kernel, refl, (s.kernel.uart, refl))

announce_bench-KernelOnly :
    (b : Build) (mode : BenchMode) (s : Machine)
    → KernelOnly (announce_bench b mode s) s (Prints s.kernel)
unfolding announce_bench
announce_bench-KernelOnly b bench_off s = (s.kernel, refl, (s.kernel.uart, refl))
announce_bench-KernelOnly b bench_latency s = (_, refl, print_all-Prints _ s.kernel)
announce_bench-KernelOnly b bench_recovery s = (_, refl, print_all-Prints _ s.kernel)

-- The machine behind the start.
pub record Up (b : Build) (layout : Layout) (hw : Hardware) (before after : Machine) : Type 0 where
  pub runs : Running b after.kernel thread_slot_task_a
  pub reached : Reached b after.kernel
  pub mapped : Enabled layout before.mmu after.mmu
  pub devices :
      after.devices ≡ arch_enable_irq (timer_init hw (gic_init hw (uart_init before.devices)))

-- The parts in their order.
in_turn :
    (b : Build) (layout : Layout) (hw : Hardware) (svc_ok : ℕ) (s : Machine)
    (k1 k2 k4 k6 k7 : Kernel) (m : MmuState)
    → (let s0 = record s { devices = uart_init s.devices } in
        greet b b.mode svc_ok s0 ≡ goes_on tt (record s0 { kernel = k1 }))
    → kernel_setup b k1 ≡ done tt k2
    → mmu_init layout s.mmu ≡ returns m
    → (let s3 : Machine = record { kernel = k2; mmu = m; devices = uart_init s.devices } in
        announce_mmu b b.mode s3 ≡ goes_on tt (record s3 { kernel = k4 }))
    → (let s5 : Machine = record {
      kernel = k4;
      mmu = m;
      devices = timer_init hw (gic_init hw (uart_init s.devices));
    } in
        announce_bench b b.mode s5 ≡ goes_on tt (record s5 { kernel = k6 }))
    → thread_start b k6 ≡ done tt k7
    → kernel_main b layout hw svc_ok s
      ≡ goes_on tt (record {
        kernel = k7;
        mmu = m;
        devices = arch_enable_irq (timer_init hw (gic_init hw (uart_init s.devices)));
      })
unfolding kernel_main
in_turn b layout hw svc_ok s k1 k2 k4 k6 k7 m e1 e2 e3 e4 e6 e7 =
    let s0 : Machine = record s { devices = uart_init s.devices } in
    let timed = timer_init hw (gic_init hw (uart_init s.devices)) in
    step (greet b b.mode svc_ok) _ e1
    ∙ step (on_kernel (kernel_setup b)) _ (ap (with_kernel (record s0 { kernel = k1 })) e2)
    ∙ step (on_mmu layout) _ (ap (with_mmu (record s0 { kernel = k2 })) e3)
    ∙ step (announce_mmu b b.mode) _ e4
    ∙ step (announce_bench b b.mode) _ e6
    ∙ ap (with_kernel (record { kernel = k6; mmu = m; devices = arch_enable_irq timed })) e7

-- If the addresses of the build are right, the MMU is off, the stack and the tables lie in the
-- kernel's window and the second-level tables at different addresses of pages, then kernel_main
-- does not panic in any mode, whatever the hardware's registers hold: task A runs in a reached
-- state, the MMU is on with the kernel's memory map, and the devices are as the set-up of the UART,
-- the interrupt controller and the timer leaves them, with interrupts let through.
pub kernel_main-Up :
    (b : Build) (layout : Layout) (hw : Hardware) (svc_ok : ℕ) (s : Machine)
    → LaidOut b
    → Linked b
    → Inside layout
    → Placed layout
    → s.mmu.sctlr_el1 % 2 ≡ 0
    → (s' : Machine) × (kernel_main b layout hw svc_ok s ≡ goes_on tt s') × Up b layout hw s s'
kernel_main-Up b layout hw svc_ok s laid linked inside placed off =
    let s0 = record s { devices = uart_init s.devices } in
    let (k1, e1, h1) = greet-KernelOnly b b.mode svc_ok s0 in
    let (a2, k2, e2, booted) = ends (λ _ k. Booted b k) _ (kernel_setup-Booted b k1 laid linked) in
    let (m, e3, mapped, again) = mmu_init-Enabled layout s.mmu off inside placed in
    let s3 = record s0 { kernel = k2; mmu = m } in
    let (k4, e4, printed4) = announce_mmu-KernelOnly b b.mode s3 in
    let s5 = record s3 {
      kernel = k4;
      devices = timer_init hw (gic_init hw (uart_init s.devices));
    } in
    let (k6, e6, printed6) = announce_bench-KernelOnly b b.mode s5 in
    let printed = Prints-trans k2 printed4 printed6 in
    let ready = printed-Booted printed booted in
    let (a7, k7, e7, runs) =
      ends (λ _ k. Running b k thread_slot_task_a) _ (thread_start-Running linked ready) in
    (
      record s5 { kernel = k7; devices = arch_enable_irq s5.devices },
      in_turn b layout hw svc_ok s k1 k2 k4 k6 k7 m e1 e2 e3 e4 e6 e7,
      record {
        runs = runs;
        reached = started k1 k2 k6 k7 e2 printed e7;
        mapped = mapped;
        devices = refl;
      },
    )
