-- ===== src/Examples/Platform.antt =====
-- Tests of the devices and of the MMU.
use d_rpi_proto_os.Base.{◌≡◌, ◌⊎◌, refl, ◌∷◌, [], true, false, arith}
use d_rpi_proto_os.Config.{micro, bench_off}
use d_rpi_proto_os.Devices.{Devices, gicc_eoir, timer_init, exception_irq}
use d_rpi_proto_os.Devices.Clock.{
  period, Clocked, count_down, set_up, elapses, ticks_on, Runs-Clocked,
}
use d_rpi_proto_os.Devices.Irq.{acknowledged, OneTick, NoTick, exception_irq_lem}
use d_rpi_proto_os.Examples.{build, build-LaidOut, powered_on}
use d_rpi_proto_os.Examples.Blank.{timer_hardware, quiet_devices}
use d_rpi_proto_os.Examples.Returns.{build-Linked}
use d_rpi_proto_os.KernelMain.{Machine, goes_on, kernel_main}
use d_rpi_proto_os.KernelMain.Runs.{Up, kernel_main-Up}
use d_rpi_proto_os.Mmu.{Tables, Layout, MmuState, clear_tables, build_identity_map}
use d_rpi_proto_os.Mmu.Walk.{Page, leads, walk, memory_map}
use d_rpi_proto_os.Mmu.Blocks.{Placed}
use d_rpi_proto_os.Mmu.Identity.{walk-memory_map}
use d_rpi_proto_os.Mmu.Enabled.{Inside}
use d_rpi_proto_os.Mmu.Isolation.{Result-Isolated, walk-Isolated}

exception_irq_example :
    (let after = exception_irq timer_hardware bench_off quiet_devices powered_on in
      (after.0.mmio_writes ≡ (gicc_eoir, acknowledged timer_hardware quiet_devices) ∷ [])
      × (after.0.tick_interval ≡ 0)
      × (OneTick timer_hardware quiet_devices powered_on after.0 after.1
          ⊎ NoTick timer_hardware quiet_devices powered_on after.0 after.1))
exception_irq_example = exception_irq_lem timer_hardware bench_off quiet_devices powered_on

abbrev armed : Devices
armed = count_down 3 (timer_init timer_hardware quiet_devices)

-- The set-up, three steps of the counter, and a tick.
Runs-Clocked_example :
    (let after = exception_irq timer_hardware bench_off armed powered_on in
      Clocked timer_hardware (record { ticks = 1; left = period timer_hardware }) after.0 after.1)
Runs-Clocked_example =
    Runs-Clocked timer_hardware bench_off _ _ _
      (ticks_on refl (elapses 3 (set_up quiet_devices powered_on refl)))

-- Tables in the kernel's memory.
abbrev layout : Layout
layout = record {
  l1_addr = 0x4002_0000;
  l2_low_addr = 0x4002_1000;
  l2_kernel_addr = 0x4002_2000;
  stack_top_addr = 0x4003_0000;
}

layout-Placed : Placed layout
layout-Placed = record {
  low_page = 0x4_0021;
  low_at = refl;
  low_fits = omega arith;
  kernel_page = 0x4_0022;
  kernel_at = refl;
  kernel_fits = omega arith;
  apart = λ e. absurd (omega (arith, e));
}

layout-Inside : Inside layout
layout-Inside = record {
  stack_in = omega arith;
  l1_in = omega arith;
  l2_low_in = omega arith;
  l2_kernel_in = omega arith;
}

abbrev tables : Tables
tables = record { l1 = λ _. 7; l2_low = λ _. 7; l2_kernel = λ _. 7 }

abbrev mmu_off : MmuState
mmu_off = record {
  tables = tables;
  mair_el1 = 0;
  ttbr0_el1 = 0;
  ttbr1_el1 = 0;
  tcr_el1 = 0;
  sctlr_el1 = 0x30D0_0800;
}

walk-memory_map_example :
    walk layout (build_identity_map layout (clear_tables tables)) 0x40E0_1234
    ≡ memory_map 0x40E0_1234
walk-memory_map_example = walk-memory_map layout tables 0x40E0_1234 layout-Placed (omega arith)

abbrev expected : Page
expected = record {
  pa = 0x40E0_1234;
  attr_index = 0;
  el0_read = true;
  el0_write = true;
  el1_write = true;
  el1_exec = false;
  el0_exec = true;
}

sandbox_mapped : memory_map 0x40E0_1234 ≡ leads expected
unfolding memory_map
sandbox_mapped = refl

walk-Isolated_example :
    Result-Isolated 0x4000_0000
      (walk layout (build_identity_map layout (clear_tables tables)) 0x4000_0000)
walk-Isolated_example = walk-Isolated layout tables 0x4000_0000 layout-Placed (omega arith)

abbrev machine : Machine
machine = record { kernel = powered_on; mmu = mmu_off; devices = quiet_devices }

kernel_main-Up_example :
    (s' : Machine) × (kernel_main (build micro) layout timer_hardware 0x4001_0000 machine
      ≡ goes_on tt s')
    × Up (build micro) layout timer_hardware machine s'
kernel_main-Up_example =
    kernel_main-Up (build micro) layout timer_hardware 0x4001_0000 machine (build-LaidOut micro)
      (build-Linked micro) layout-Inside layout-Placed refl
