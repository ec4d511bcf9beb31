-- ===== src/Mmu.antt =====
-- kernel/mm/mmu.c: the page tables and the registers of the MMU.
pub mod Flags
pub mod Walk
pub mod Blocks
pub mod Identity
pub mod Enabled
pub mod Isolation
use d_rpi_proto_os.Base.{
  ℕ, zero, suc, ◌+◌, ◌-◌, ◌*◌, ◌/◌, ◌%◌, ◌^◌, Bool, true, false, ◌&&◌, ◌||◌, not, ltb, leb, ◌==◌,
  if◌then◌else◌, update,
}
use d_rpi_proto_os.Config.{kernel_load_addr, kernel_idmap_size, el0_sandbox_base, el0_sandbox_end}
use d_rpi_proto_os.Mmu.Flags.{
  mmu_table_entries, mmu_page_shift, mmu_l2_block_shift, desc_valid, desc_table, desc_af,
  desc_sh_inner, desc_ap_el0_rw, desc_uxn, desc_pxn, mair_attr_normal_wb_wa, mair_attr_device_ngnre,
  attr_idx_normal, attr_idx_device, tcr_t0sz_39bit, tcr_epd1, tcr_tg0_4k, tcr_sh0_inner,
  tcr_orgn0_wb_wa, tcr_irgn0_wb_wa, tcr_ips_40bit, sctlr_m, sctlr_c, sctlr_i,
}
use Prim.Native.Nat.{bit_or}
use Prim.Native.String.{String}

-- g_l1_table, g_l2_low_table and g_l2_kernel_table
pub record Tables : Type 0 where
  pub l1 : ℕ → ℕ
  pub l2_low : ℕ → ℕ
  pub l2_kernel : ℕ → ℕ

-- The addresses that the linker gives the tables and `__stack_top`.
pub record Layout : Type 0 where
  pub l1_addr : ℕ
  pub l2_low_addr : ℕ
  pub l2_kernel_addr : ℕ
  pub stack_top_addr : ℕ

-- The tables and the system registers.
pub record MmuState : Type 0 where
  pub tables : Tables
  pub mair_el1 : ℕ
  pub ttbr0_el1 : ℕ
  pub ttbr1_el1 : ℕ
  pub tcr_el1 : ℕ
  pub sctlr_el1 : ℕ

pub data MmuResult : Type 0 where
  returns : MmuState → MmuResult
  panics : String → MmuResult

abbrev pub block_size : ℕ
block_size = 2 ^ mmu_l2_block_shift

abbrev gic_map_base : ℕ
gic_map_base = 0x0800_0000

abbrev pl011_map_base : ℕ
pl011_map_base = 0x0900_0000

abbrev pub l1_index : ℕ → ℕ
l1_index va = va / 2 ^ 30 % 512

abbrev pub l2_index : ℕ → ℕ
l2_index va = va / 2 ^ mmu_l2_block_shift % 512

infixl 20 ◌or◌
abbrev ◌or◌ : ℕ → ℕ → ℕ
a or b = bit_or a b

abbrev pub table_desc : ℕ → ℕ
table_desc pa = pa / 2 ^ mmu_page_shift * 2 ^ mmu_page_shift or desc_valid or desc_table

unfoldable pub block_desc_normal : ℕ → Bool → ℕ
block_desc_normal pa el0_access =
    let desc =
      pa / block_size * block_size
      or desc_valid
      or desc_af
      or desc_sh_inner
      or attr_idx_normal * 2 ^ 2 in
    if el0_access then desc or desc_ap_el0_rw or desc_pxn else desc or desc_uxn

unfoldable pub block_desc_device : ℕ → ℕ
block_desc_device pa =
    pa / block_size * block_size
    or desc_valid
    or desc_af
    or attr_idx_device * 2 ^ 2
    or desc_uxn
    or desc_pxn

-- The loop of `clear_tables` from place i.
unfoldable pub clear_from : ℕ → ℕ → Tables → Tables
clear_from zero i t = t
clear_from (suc left) i t = clear_from left (suc i) (record {
  l1 = update t.l1 i 0;
  l2_low = update t.l2_low i 0;
  l2_kernel = update t.l2_kernel i 0;
})

unfoldable pub clear_tables : Tables → Tables
clear_tables t = clear_from mmu_table_entries 0 t

unfoldable pub map_2m_block : (ℕ → ℕ) → ℕ → ℕ → Bool → Bool → ℕ → ℕ
map_2m_block l2_table va pa is_device el0_access =
    update l2_table (l2_index va)
      (if is_device then block_desc_device pa else block_desc_normal pa el0_access)

-- The loop over the kernel's blocks from an offset.
unfoldable pub map_kernel_from : ℕ → ℕ → (ℕ → ℕ) → ℕ → ℕ
map_kernel_from zero offset l2_table = l2_table
map_kernel_from (suc left) offset l2_table =
    let va = kernel_load_addr + offset in
    let el0_access = leb el0_sandbox_base va && ltb va el0_sandbox_end in
    map_kernel_from left (offset + block_size) (map_2m_block l2_table va va false el0_access)

unfoldable pub build_identity_map : Layout → Tables → Tables
build_identity_map layout t = record {
  l1 =
      update (update t.l1 (l1_index gic_map_base) (table_desc layout.l2_low_addr))
        (l1_index kernel_load_addr) (table_desc layout.l2_kernel_addr);
  l2_low =
      map_2m_block (map_2m_block t.l2_low gic_map_base gic_map_base true false) pl011_map_base
        pl011_map_base true false;
  l2_kernel = map_kernel_from (kernel_idmap_size / block_size) 0 t.l2_kernel;
}

abbrev pub kernel_limit : ℕ
kernel_limit = kernel_load_addr + kernel_idmap_size

unfoldable pub stack_outside : Layout → Bool
stack_outside layout = leb kernel_limit layout.stack_top_addr

unfoldable pub tables_outside : Layout → Bool
tables_outside layout =
    leb kernel_limit layout.l1_addr
    || leb kernel_limit layout.l2_low_addr
    || leb kernel_limit layout.l2_kernel_addr

-- The checks, in front of what follows them.
abbrev pub validate_kernel_window : Layout → MmuResult → MmuResult
validate_kernel_window layout rest =
    if stack_outside layout
    then panics "MMU kernel map window too small"
    else if tables_outside layout
    then panics "MMU page tables outside kernel map"
    else rest

-- What is written behind `validate_kernel_window`; barriers and invalidations change no value here.
unfoldable pub enable : Layout → MmuState → MmuState
enable layout m = record {
  tables = build_identity_map layout (clear_tables m.tables);
  mair_el1 =
      mair_attr_normal_wb_wa * 2 ^ (attr_idx_normal * 8)
      or mair_attr_device_ngnre * 2 ^ (attr_idx_device * 8);
  ttbr0_el1 = layout.l1_addr;
  ttbr1_el1 = 0;
  tcr_el1 =
      tcr_t0sz_39bit or tcr_epd1 or tcr_tg0_4k or tcr_sh0_inner or tcr_orgn0_wb_wa
      or tcr_irgn0_wb_wa or tcr_ips_40bit;
  sctlr_el1 = m.sctlr_el1 or (sctlr_m or sctlr_c or sctlr_i);
}

unfoldable pub mmu_init : Layout → MmuState → MmuResult
mmu_init layout m =
    if m.sctlr_el1 % 2 == 1
    then returns m
    else validate_kernel_window layout (returns (enable layout m))
