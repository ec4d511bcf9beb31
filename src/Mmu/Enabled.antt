-- ===== src/Mmu/Enabled.antt =====
-- `mmu_init`: what holds with the MMU on, and what the map lets EL0 do.
use d_rpi_proto_os.Base.{ℕ, ◌-◌, ◌/◌, ◌%◌, ◌^◌, ◌<◌, ◌≡◌, refl, arith}
use d_rpi_proto_os.Base.Bits.{bit, bit-bit_or, bit_or_low}
use d_rpi_proto_os.Mmu.{
  Layout, MmuState, returns, kernel_limit, stack_outside, tables_outside, enable, mmu_init,
}
use d_rpi_proto_os.Mmu.Walk.{walk, memory_map}
use d_rpi_proto_os.Mmu.Blocks.{Placed}
use d_rpi_proto_os.Mmu.Identity.{walk-memory_map}
use Prim.Native.Nat.{max}

-- The stack and the tables lie below the end of the kernel's window.
pub record Inside (layout : Layout) : Type 0 where
  pub stack_in : layout.stack_top_addr < kernel_limit
  pub l1_in : layout.l1_addr < kernel_limit
  pub l2_low_in : layout.l2_low_addr < kernel_limit
  pub l2_kernel_in : layout.l2_kernel_addr < kernel_limit

-- The state of a kernel that runs on its map.
pub record Enabled (layout : Layout) (before after : MmuState) : Type 0 where
  pub translates : (va : ℕ) → va < 2 ^ 39 → walk layout after.tables va ≡ memory_map va
  pub root : after.ttbr0_el1 ≡ layout.l1_addr
  pub address_bits : 64 - after.tcr_el1 % 64 ≡ 39
  pub second_root_off : bit 23 after.tcr_el1 ≡ 1
  pub normal_type : after.mair_el1 % 256 ≡ 0xFF
  pub device_type : after.mair_el1 / 256 % 256 ≡ 0
  pub control : (k : ℕ) → bit k after.sctlr_el1 ≡ max (bit k before.sctlr_el1) (bit k 0x1005)

enable-Enabled :
    (layout : Layout) (m : MmuState) → Placed layout → Enabled layout m (enable layout m)
unfolding enable bit
enable-Enabled layout m placed = record {
  translates = λ va lt. walk-memory_map layout m.tables va placed lt;
  root = refl;
  address_bits = refl;
  second_root_off = refl;
  normal_type = refl;
  device_type = refl;
  control = λ k. bit-bit_or k m.sctlr_el1 0x1005;
}

on-returns : (layout : Layout) (m : MmuState) → m.sctlr_el1 % 2 ≡ 1 → mmu_init layout m ≡ returns m
unfolding mmu_init
on-returns layout m e = ground (arith, e)

off-enables :
    (layout : Layout) (m : MmuState)
    → m.sctlr_el1 % 2 ≡ 0
    → Inside layout
    → mmu_init layout m ≡ returns (enable layout m)
unfolding mmu_init stack_outside tables_outside
off-enables layout m off inside = ground (arith, inside.stack_in)

enabled_is_on : (layout : Layout) (m : MmuState) → (enable layout m).sctlr_el1 % 2 ≡ 1
unfolding enable
enabled_is_on layout m = omega (arith, bit_or_low m.sctlr_el1 0x1005)

-- If the MMU is off, the stack and the tables lie in the kernel's window and the second-level tables
-- at different addresses of pages, then mmu_init turns the MMU on
pub mmu_init-Enabled :
    (layout : Layout) (m : MmuState)
    → m.sctlr_el1 % 2 ≡ 0
    → Inside layout
    → Placed layout
    → (m' : MmuState) × (mmu_init layout m ≡ returns m')
      × Enabled layout m m'
      × (mmu_init layout m' ≡ returns m')
mmu_init-Enabled layout m off inside placed = (
  enable layout m,
  off-enables layout m off inside,
  enable-Enabled layout m placed,
  on-returns layout (enable layout m) (enabled_is_on layout m),
)
