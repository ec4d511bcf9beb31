-- ===== src/KernelMain.antt =====
-- kernel/core/init.c: `kernel_main`, on the whole machine: the kernel, the MMU and the devices.
pub mod Runs
use d_rpi_proto_os.Base.{ℕ, ◌*◌, ◌^◌, List, [], ◌∷◌, ◌++◌, update}
use d_rpi_proto_os.Config.{BenchMode, bench_off, bench_iterations}
use d_rpi_proto_os.State.{Kernel, TrapFrame, Build}
use d_rpi_proto_os.State.Effect
use d_rpi_proto_os.State.Effect.{M, Outcome, done, panicked, codes, uart_puts, panic}
use d_rpi_proto_os.State.Output.{print_all}
use d_rpi_proto_os.Printk.{decimal}
use d_rpi_proto_os.Trap.{exception_sync_el1}
use d_rpi_proto_os.Boot.{kernel_setup}
use d_rpi_proto_os.Return.{thread_start}
use d_rpi_proto_os.Mmu.{MmuState, MmuResult, returns, panics, Layout, mmu_init}
use d_rpi_proto_os.Devices.{
  Devices, Hardware, uart_init, gic_init, timer_init, timer_counter_freq_hz, arch_enable_irq,
}
use d_rpi_proto_os.User.Text.{flavor_str, mode_str}
use Prim.Native.String.{String}

pub record Machine : Type 0 where
  pub kernel : Kernel
  pub mmu : MmuState
  pub devices : Devices

pub data MachineOutcome (A : Type 0) : Type 0 where
  goes_on : A → Machine → MachineOutcome A
  stops : String → Machine → MachineOutcome A

abbrev pub B : Type 0 → Type 0
B A = Machine → MachineOutcome A

infixl 5 ◌>>=◌ ◌>>◌
abbrev pub ◌>>=◌ : {A C : Type 0} → B A → (A → B C) → B C
◌>>=◌ m f s = elim (m s) [ goes_on a s' ↦ f a s' | stops msg s' ↦ stops msg s' ]

abbrev pub ◌>>◌ : {C : Type 0} → B (Unit {0}) → B C → B C
m >> n = m >>= λ _. n

-- The parts that work on one of the three.
abbrev pub with_kernel : {A : Type 0} → Machine → Outcome A → MachineOutcome A
with_kernel s (done a k) = goes_on a (record s { kernel = k })
with_kernel s (panicked msg k) = stops msg (record s { kernel = k })

abbrev pub on_kernel : {A : Type 0} → M A → B A
on_kernel m s = with_kernel s (m s.kernel)

abbrev pub on_devices : (Devices → Devices) → B (Unit {0})
on_devices f s = goes_on tt (record s { devices = f s.devices })

abbrev pub with_mmu : Machine → MmuResult → MachineOutcome (Unit {0})
with_mmu s (returns m) = goes_on tt (record s { mmu = m })
with_mmu s (panics msg) = with_kernel s (panic msg s.kernel)

abbrev pub on_mmu : Layout → B (Unit {0})
on_mmu layout s = with_mmu s (mmu_init layout s.mmu)

abbrev pub puts : List (List ℕ) → B (Unit {0})
puts texts s = goes_on tt (record s { kernel = print_all texts s.kernel })

-- The frame that the vector saves for `svc`: the class of SVC, and the three registers that are set.
abbrev pub svc_frame : ℕ → ℕ → ℕ → TrapFrame → TrapFrame
svc_frame nr arg0 arg1 f = record f {
  x = update (update (update f.x 0 arg0) 1 arg1) 8 nr;
  esr = 0x15 * 2 ^ 26;
}

module _ (b : Build) where
  unfoldable pub svc_call2 : ℕ → ℕ → ℕ → M ℕ
  svc_call2 nr arg0 arg1 =
      Effect.◌>>=◌ (Effect.modify (λ k. record k { frame = svc_frame nr arg0 arg1 k.frame }))
        (λ _. Effect.◌>>=◌ (exception_sync_el1 b) (λ _. Effect.gets (λ k. k.frame.x 0)))

  abbrev pub svc_write : ℕ → ℕ → M ℕ
  svc_write buf len = svc_call2 2 buf len

  abbrev pub svc_time_ticks : M ℕ
  svc_time_ticks = svc_call2 1 0 0

  -- The first messages, and the three system calls of the kernel itself; `svc_ok` is the address of
  -- the text of the first one.
  unfoldable pub greet : BenchMode → ℕ → B (Unit {0})
  greet bench_off svc_ok = do
    puts (codes "BOOT\n" ∷ [])
    puts ((codes "[boot] proto-os (" ++ flavor_str b.flavor ++ codes ")\n") ∷ [])
    puts (codes "[boot] entered kernel_main\n" ∷ [])
    _ ← on_kernel (svc_write svc_ok 9)
    _ ← on_kernel (svc_call2 0 0 0)
    sample_ticks ← on_kernel svc_time_ticks
    puts (codes "[svc] ticks " ∷ decimal sample_ticks ∷ codes "\n" ∷ [])
  greet _ svc_ok = goes_on tt

  unfoldable pub announce_mmu : BenchMode → B (Unit {0})
  announce_mmu bench_off =
      puts (codes "[mmu] enabled identity map\n" ∷ codes "[mmu] caches on\n" ∷ [])
  announce_mmu _ = goes_on tt

  abbrev start_line : BenchMode → ℕ → List (List ℕ)
  start_line mode freq =
      (codes "BENCH_META schema=1 phase=start flavor="
        ++ flavor_str b.flavor
        ++ codes " mode="
        ++ mode_str mode
        ++ codes " cntfrq_hz=")
      ∷ decimal freq
      ∷ codes " iterations="
      ∷ decimal bench_iterations
      ∷ codes "\n"
      ∷ []

  unfoldable pub announce_bench : BenchMode → B (Unit {0})
  announce_bench bench_off s = goes_on tt s
  announce_bench mode s = puts (start_line mode (timer_counter_freq_hz s.devices)) s

  -- `thread_start` does not return; the panic behind it is not reached.
  unfoldable pub kernel_main : Layout → Hardware → ℕ → B (Unit {0})
  kernel_main layout hw svc_ok = do
    on_devices uart_init
    greet b.mode svc_ok
    on_kernel (kernel_setup b)
    on_mmu layout
    announce_mmu b.mode
    on_devices (gic_init hw)
    on_devices (timer_init hw)
    announce_bench b.mode
    on_devices arch_enable_irq
    on_kernel (thread_start b)
