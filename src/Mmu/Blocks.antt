-- ===== src/Mmu/Blocks.antt =====
-- The entries of the tables of kernel/mm/mmu.c one by one, and the memory map block by block.
use d_rpi_proto_os.Base.{
  ℕ, zero, suc, ◌+◌, ◌*◌, ◌/◌, ◌%◌, ◌^◌, ◌<◌, ◌≤◌, not, ◌≡◌, ◌≢◌, ◌⊎◌, refl, ap, inl, inr, Bool,
  true, false, ◌==◌, some, arith,
}
use d_rpi_proto_os.Base.Bits.{bit_or_one, bit_or_two}
use d_rpi_proto_os.Mmu.{
  Tables, Layout, l1_index, table_desc, block_desc_normal, block_desc_device, clear_from,
  map_2m_block, map_kernel_from,
}
use d_rpi_proto_os.Mmu.Walk.{
  Page, faults, leads, limits, no_limits, is_set, read_block, table_at, second_level, walk,
  memory_map,
}

-- `clear_tables` leaves no entry.
pub clear_from-zero :
    (left i : ℕ) (t : Tables) (j : ℕ)
    → j < i + left
    → (j < i → (t.l1 j ≡ 0) × (t.l2_low j ≡ 0) × (t.l2_kernel j ≡ 0))
    → (let t' = clear_from left i t in (t'.l1 j ≡ 0) × (t'.l2_low j ≡ 0) × (t'.l2_kernel j ≡ 0))
unfolding clear_from
clear_from-zero zero i t j lt before = before (omega arith)
clear_from-zero (suc left) i t j lt before =
    clear_from-zero left (suc i) _ j (omega arith) (λ below. ground (arith, before))

-- A table descriptor keeps the address of an aligned table.
table_desc_lem : (q : ℕ) → table_desc (q * 2 ^ 12) ≡ q * 2 ^ 12 + 3
table_desc_lem q = ground (arith, bit_or_one (q * 2048), bit_or_two (q * 1024))

-- A block of normal memory: the sandbox, or the kernel's own.
unfoldable pub normal_page : ℕ → Bool → Page
normal_page pa el0 = record {
  pa = pa;
  attr_index = 0;
  el0_read = el0;
  el0_write = el0;
  el1_write = true;
  el1_exec = not el0;
  el0_exec = el0;
}

-- Each of the numbers below 8.
below_eight :
    (P : ℕ → Type 0) → P 0 → P 1 → P 2 → P 3 → P 4 → P 5 → P 6 → P 7 → (j : ℕ) → j < 8 → P j
below_eight P a b c d e f g h zero lt = a
below_eight P a b c d e f g h (suc zero) lt = b
below_eight P a b c d e f g h (suc (suc zero)) lt = c
below_eight P a b c d e f g h (suc (suc (suc zero))) lt = d
below_eight P a b c d e f g h (suc (suc (suc (suc zero)))) lt = e
below_eight P a b c d e f g h (suc (suc (suc (suc (suc zero))))) lt = f
below_eight P a b c d e f g h (suc (suc (suc (suc (suc (suc zero)))))) lt = g
below_eight P a b c d e f g h (suc (suc (suc (suc (suc (suc (suc zero))))))) lt = h
below_eight P a b c d e f g h (suc (suc (suc (suc (suc (suc (suc (suc j)))))))) lt =
    absurd (omega arith)

pub kernel_read :
    (t : ℕ → ℕ) (va j : ℕ)
    → j < 8
    → read_block 21 no_limits (map_kernel_from 8 0 t j) va
      ≡ leads (normal_page (0x4000_0000 + j * 2 ^ 21 + va % 2 ^ 21) (j == 7))
unfolding read_block block_desc_normal map_kernel_from map_2m_block normal_page
kernel_read t va j lt =
    below_eight
      (λ j'.
        read_block 21 no_limits (map_kernel_from 8 0 t j') va
        ≡ leads (normal_page (0x4000_0000 + j' * 2 ^ 21 + va % 2 ^ 21) (j' == 7)))
      refl refl refl refl refl refl refl refl j lt

pub kernel_kept : (t : ℕ → ℕ) (j : ℕ) → 8 ≤ j → map_kernel_from 8 0 t j ≡ t j
unfolding map_kernel_from map_2m_block
kernel_kept t j le = ground arith

unfoldable pub device_at : ℕ → Page
device_at pa = record {
  pa = pa;
  attr_index = 1;
  el0_read = false;
  el0_write = false;
  el1_write = true;
  el1_exec = false;
  el0_exec = false;
}

-- The second-level table of the devices.
unfoldable pub low_table : (ℕ → ℕ) → ℕ → ℕ
low_table t =
    map_2m_block (map_2m_block t 0x0800_0000 0x0800_0000 true false) 0x0900_0000 0x0900_0000 true
      false

pub gic_read :
    (t : ℕ → ℕ) (va : ℕ)
    → read_block 21 no_limits (low_table t 64) va ≡ leads (device_at (0x0800_0000 + va % 2 ^ 21))
unfolding read_block block_desc_device map_2m_block low_table device_at
gic_read t va = refl

pub pl011_read :
    (t : ℕ → ℕ) (va : ℕ)
    → read_block 21 no_limits (low_table t 72) va ≡ leads (device_at (0x0900_0000 + va % 2 ^ 21))
unfolding read_block block_desc_device map_2m_block low_table device_at
pl011_read t va = refl

pub low_kept : (t : ℕ → ℕ) (j : ℕ) → j ≢ 64 → j ≢ 72 → low_table t j ≡ t j
unfolding map_2m_block low_table
low_kept t j a b = ground arith

pub no_block : (va : ℕ) → read_block 21 no_limits 0 va ≡ faults
unfolding read_block
no_block va = refl

-- The tables lie at different addresses of pages, below 2 ^ 48.
pub record Placed (layout : Layout) : Type 0 where
  pub low_page : ℕ
  pub low_at : layout.l2_low_addr ≡ low_page * 2 ^ 12
  pub low_fits : low_page < 2 ^ 36
  pub kernel_page : ℕ
  pub kernel_at : layout.l2_kernel_addr ≡ kernel_page * 2 ^ 12
  pub kernel_fits : kernel_page < 2 ^ 36
  pub apart : layout.l2_low_addr ≢ layout.l2_kernel_addr

limits_of_table : (q : ℕ) → q < 2 ^ 36 → limits (q * 2 ^ 12 + 3) ≡ no_limits
limits_of_table q fits =
    let a : is_set 61 (q * 2 ^ 12 + 3) ≡ false = ground arith in
    let b : is_set 62 (q * 2 ^ 12 + 3) ≡ false = ground arith in
    let c : is_set 59 (q * 2 ^ 12 + 3) ≡ false = ground arith in
    let d : is_set 60 (q * 2 ^ 12 + 3) ≡ false = ground arith in rw (a, b, c, d) refl

-- A table descriptor leads to its table, an empty entry nowhere.
pub walk_table :
    (layout : Layout) (t : Tables) (va q : ℕ)
    → q < 2 ^ 36
    → t.l1 (l1_index va) ≡ table_desc (q * 2 ^ 12)
    → walk layout t va ≡ second_level no_limits va (table_at layout t (q * 2 ^ 12))
unfolding walk
walk_table layout t va q fits e =
    rw (e, table_desc_lem q)
      (ground (
        arith,
        ap (λ l. second_level l va (table_at layout t (q * 2 ^ 12))) (limits_of_table q fits),
      ))

pub walk_empty :
    (layout : Layout) (t : Tables) (va : ℕ) → t.l1 (l1_index va) ≡ 0 → walk layout t va ≡ faults
unfolding walk read_block
walk_empty layout t va e = rw e refl

pub table_at_low :
    (layout : Layout) (t : Tables) → table_at layout t layout.l2_low_addr ≡ some t.l2_low
unfolding table_at
table_at_low layout t = ground arith

pub table_at_kernel :
    (layout : Layout) (t : Tables)
    → layout.l2_low_addr ≢ layout.l2_kernel_addr
    → table_at layout t layout.l2_kernel_addr ≡ some t.l2_kernel
unfolding table_at
table_at_kernel layout t apart = ground arith

-- The map, by the number of the block that an address lies in.
pub map_device :
    (va : ℕ) → (va / 2 ^ 21 ≡ 64) ⊎ (va / 2 ^ 21 ≡ 72) → memory_map va ≡ leads (device_at va)
unfolding memory_map device_at
map_device va (inl e) = ground arith
map_device va (inr e) = ground arith

pub map_kernel :
    (va : ℕ)
    → 512 ≤ va / 2 ^ 21
    → va / 2 ^ 21 < 520
    → memory_map va ≡ leads (normal_page va (va / 2 ^ 21 == 519))
unfolding memory_map normal_page
map_kernel va low high = ground arith

pub map_nothing :
    (va : ℕ)
    → va / 2 ^ 21 ≢ 64
    → va / 2 ^ 21 ≢ 72
    → (va / 2 ^ 21 < 512) ⊎ (520 ≤ va / 2 ^ 21)
    → memory_map va ≡ faults
unfolding memory_map
map_nothing va a b (inl lt) = ground arith
map_nothing va a b (inr le) = ground arith
