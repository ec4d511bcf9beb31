-- ===== src/Mmu/Walk.antt =====
-- What a translation table means: the walk of the architecture for 39-bit addresses and 4 KB granules,
-- with blocks of 1 GB at the first level and of 2 MB at the second, and the memory map that the kernel
-- wants.
use d_rpi_proto_os.Base.{
  ℕ, ◌+◌, ◌*◌, ◌/◌, ◌%◌, ◌^◌, Bool, true, false, ◌&&◌, ◌||◌, not, ◌-◌, ltb, leb, ◌==◌,
  if◌then◌else◌, Option, none, some,
}
use d_rpi_proto_os.Config.{kernel_load_addr, el0_sandbox_base, el0_sandbox_end}
use d_rpi_proto_os.Mmu.{Tables, Layout, l1_index, l2_index, kernel_limit}

-- Where an address leads, the index of its memory type in MAIR_EL1, and who may do what.
pub record Page : Type 0 where
  pub pa : ℕ
  pub attr_index : ℕ
  pub el0_read : Bool
  pub el0_write : Bool
  pub el1_write : Bool
  pub el1_exec : Bool
  pub el0_exec : Bool

-- The end of a walk: a fault, a page, or a table that is none of the kernel's, about which nothing is
-- known.
pub data Walked : Type 0 where
  faults : Walked
  leads : Page → Walked
  strays : Walked

-- What a table descriptor forbids below it: APTable in bits 61 and 62, PXNTable and UXNTable.
pub record Limits : Type 0 where
  pub no_el0 : Bool
  pub no_write : Bool
  pub no_el1_exec : Bool
  pub no_el0_exec : Bool

abbrev pub is_set : ℕ → ℕ → Bool
is_set bit desc = desc / 2 ^ bit % 2 == 1

abbrev pub limits : ℕ → Limits
limits desc = record {
  no_el0 = is_set 61 desc;
  no_write = is_set 62 desc;
  no_el1_exec = is_set 59 desc;
  no_el0_exec = is_set 60 desc;
}

abbrev pub no_limits : Limits
no_limits = record { no_el0 = false; no_write = false; no_el1_exec = false; no_el0_exec = false }

-- A block of 2 ^ bits bytes: AP[1] in bit 6 lets EL0 in, AP[2] in bit 7 makes it read-only for both,
-- PXN in bit 53 and UXN in bit 54 forbid the execution in EL1 and in EL0.
abbrev pub block_page : ℕ → Limits → ℕ → ℕ → Page
block_page bits l desc va =
    let el0 = is_set 6 desc && not l.no_el0 in
    let writable = not (is_set 7 desc || l.no_write) in
    record {
      pa = desc / 2 ^ bits % 2 ^ (48 - bits) * 2 ^ bits + va % 2 ^ bits;
      attr_index = desc / 2 ^ 2 % 8;
      el0_read = el0;
      el0_write = el0 && writable;
      el1_write = writable;
      el1_exec = not (is_set 53 desc || l.no_el1_exec);
      el0_exec = not (is_set 54 desc || l.no_el0_exec);
    }

-- A descriptor where a block may stand: it is valid with bit 0, a table with bit 1, and a block
-- without the access flag in bit 10 faults.
unfoldable pub read_block : ℕ → Limits → ℕ → ℕ → Walked
read_block bits l desc va =
    if desc % 4 == 3
    then strays
    else if desc % 2 == 1 && is_set 10 desc
    then leads (block_page bits l desc va)
    else faults

-- The table at an address.
unfoldable pub table_at : Layout → Tables → ℕ → Option (ℕ → ℕ)
table_at layout t addr =
    if addr == layout.l2_low_addr
    then some t.l2_low
    else if addr == layout.l2_kernel_addr
    then some t.l2_kernel
    else none

unfoldable pub second_level : Limits → ℕ → Option (ℕ → ℕ) → Walked
second_level l va none = strays
second_level l va (some table) = read_block 21 l (table (l2_index va)) va

unfoldable pub walk : Layout → Tables → ℕ → Walked
walk layout t va =
    let desc = t.l1 (l1_index va) in
    if desc % 4 == 3
    then second_level (limits desc) va (table_at layout t (desc / 2 ^ 12 % 2 ^ 36 * 2 ^ 12))
    else read_block 30 no_limits desc va

-- The map: two blocks of device registers, the kernel's memory, and the sandbox at its end. All of it
-- may be written by the kernel.
abbrev device_page : ℕ → Page
device_page va = record {
  pa = va;
  attr_index = 1;
  el0_read = false;
  el0_write = false;
  el1_write = true;
  el1_exec = false;
  el0_exec = false;
}

abbrev kernel_page : ℕ → Page
kernel_page va = record {
  pa = va;
  attr_index = 0;
  el0_read = false;
  el0_write = false;
  el1_write = true;
  el1_exec = true;
  el0_exec = false;
}

abbrev sandbox_page : ℕ → Page
sandbox_page va = record {
  pa = va;
  attr_index = 0;
  el0_read = true;
  el0_write = true;
  el1_write = true;
  el1_exec = false;
  el0_exec = true;
}

abbrev pub within : ℕ → ℕ → ℕ → Bool
within low high va = leb low va && ltb va high

unfoldable pub memory_map : ℕ → Walked
memory_map va =
    if within 0x0800_0000 0x0820_0000 va || within 0x0900_0000 0x0920_0000 va
    then leads (device_page va)
    else if within el0_sandbox_base el0_sandbox_end va
    then leads (sandbox_page va)
    else if within kernel_load_addr kernel_limit va
    then leads (kernel_page va)
    else faults
