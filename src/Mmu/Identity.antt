-- ===== src/Mmu/Identity.antt =====
-- The walk of the tables that `build_identity_map` makes gives the kernel's memory map.
use d_rpi_proto_os.Base.{
  ℕ, ◌+◌, ◌/◌, ◌^◌, ◌<◌, ◌≡◌, refl, ap, sym, ◌∙◌, inl, inr, ltb, ◌==◌, Bool-cases, eq_of_==, some,
  arith,
}
use d_rpi_proto_os.Mmu.{
  Tables, Layout, l1_index, l2_index, table_desc, clear_tables, map_kernel_from, build_identity_map,
}
use d_rpi_proto_os.Mmu.Walk.{leads, no_limits, read_block, table_at, second_level, walk, memory_map}
use d_rpi_proto_os.Mmu.Blocks.{
  Placed, clear_from-zero, normal_page, kernel_read, kernel_kept, device_at, low_table, gic_read,
  pl011_read, low_kept, no_block, walk_table, walk_empty, table_at_low, table_at_kernel, map_device,
  map_kernel, map_nothing,
}
use mathlib.Core.Path.{subst}

cleared-zero :
    (before : Tables) (j : ℕ)
    → j < 512
    → (let t = clear_tables before in (t.l1 j ≡ 0) × (t.l2_low j ≡ 0) × (t.l2_kernel j ≡ 0))
unfolding clear_tables
cleared-zero before j lt = clear_from-zero 512 0 before j lt (λ below. absurd (omega arith))

l1_low :
    (layout : Layout) (t : Tables)
    → (build_identity_map layout t).l1 0 ≡ table_desc layout.l2_low_addr
unfolding build_identity_map
l1_low layout t = refl

l1_kernel :
    (layout : Layout) (t : Tables)
    → (build_identity_map layout t).l1 1 ≡ table_desc layout.l2_kernel_addr
unfolding build_identity_map
l1_kernel layout t = refl

l1_kept :
    (layout : Layout) (t : Tables) (j : ℕ) → 1 < j → (build_identity_map layout t).l1 j ≡ t.l1 j
unfolding build_identity_map
l1_kept layout t j lt = ground arith

l2_tables :
    (layout : Layout) (t : Tables)
    → (let built = build_identity_map layout t in
        (built.l2_low ≡ low_table t.l2_low) × (built.l2_kernel ≡ map_kernel_from 8 0 t.l2_kernel))
unfolding build_identity_map low_table
l2_tables layout t = (refl, refl)

-- The blocks of the devices in a table that was clear.
low_window :
    (t : ℕ → ℕ) (va j : ℕ)
    → va < 2 ^ 30
    → va / 2 ^ 21 ≡ j
    → t j ≡ 0
    → read_block 21 no_limits (low_table t j) va ≡ memory_map va
unfolding device_at
low_window t va j lt at clear = elim (Bool-cases (j == 64)) [
  | inl e ↦
      subst (λ i. read_block 21 no_limits (low_table t i) va ≡ memory_map va)
        (sym (eq_of_== j 64 e))
        (gic_read t va
          ∙ ap (λ pa. leads (device_at pa)) (ground arith)
          ∙ sym (map_device va (inl (ground arith))))
  | inr gic ↦ elim (Bool-cases (j == 72)) [
    | inl e ↦
        subst (λ i. read_block 21 no_limits (low_table t i) va ≡ memory_map va)
          (sym (eq_of_== j 72 e))
          (pl011_read t va
            ∙ ap (λ pa. leads (device_at pa)) (ground arith)
            ∙ sym (map_device va (inr (ground arith))))
    | inr pl011 ↦
        ap (λ d. read_block 21 no_limits d va) (low_kept t j (ground arith) (ground arith) ∙ clear)
        ∙ no_block va
        ∙ sym (map_nothing va (ground arith) (ground arith) (inl (omega arith)))
  ]
]

-- The kernel's blocks in a table that was clear.
kernel_window :
    (t : ℕ → ℕ) (va j : ℕ)
    → va < 2 ^ 31
    → va / 2 ^ 21 ≡ 512 + j
    → t j ≡ 0
    → read_block 21 no_limits (map_kernel_from 8 0 t j) va ≡ memory_map va
kernel_window t va j lt at clear = elim (Bool-cases (ltb j 8)) [
  | inl e ↦
      kernel_read t va j (ground arith)
      ∙ ap (λ pa. leads (normal_page pa (j == 7))) (ground arith)
      ∙ ap (λ b. leads (normal_page va b)) (ground arith)
      ∙ sym (map_kernel va (ground arith) (ground arith))
  | inr e ↦
      ap (λ d. read_block 21 no_limits d va) (kernel_kept t j (ground arith) ∙ clear)
      ∙ no_block va
      ∙ sym (map_nothing va (ground arith) (ground arith) (inr (ground arith)))
]

second_level-some :
    (va : ℕ) (table : ℕ → ℕ)
    → second_level no_limits va (some table) ≡ read_block 21 no_limits (table (l2_index va)) va
unfolding second_level
second_level-some va table = refl

-- If the two second-level tables lie at different addresses of pages below 2 ^ 48, then for every
-- address below 2 ^ 39 the architecture's walk over the tables that build_identity_map makes of any
-- cleared tables gives what the memory map says, with the rights of EL0 and EL1 to read, write and
-- execute and the memory type: the two device blocks and the kernel's memory, each at its own
-- address, with the sandbox at its end, and a fault at every other address. The walk reads blocks
-- of 1 GB at the first level and of 2 MB at the second.
pub walk-memory_map :
    (layout : Layout) (before : Tables) (va : ℕ)
    → Placed layout
    → va < 2 ^ 39
    → walk layout (build_identity_map layout (clear_tables before)) va ≡ memory_map va
walk-memory_map layout before va placed lt =
    let cleared = clear_tables before in
    let built = build_identity_map layout cleared in
    let tables = l2_tables layout cleared in
    elim (Bool-cases (va / 2 ^ 30 == 0)) [
      | inl e ↦
          walk_table layout built va placed.low_page placed.low_fits
            (ap built.l1 (ground arith) ∙ l1_low layout cleared ∙ ap table_desc placed.low_at)
          ∙ ap (second_level no_limits va)
              (ap (table_at layout built) (sym placed.low_at) ∙ table_at_low layout built)
          ∙ second_level-some va built.l2_low
          ∙ ap (λ (f : ℕ → ℕ). read_block 21 no_limits (f (l2_index va)) va) tables.0
          ∙ low_window cleared.l2_low va (l2_index va) (ground arith) (ground arith)
              (cleared-zero before (l2_index va) (omega arith)).1
      | inr past ↦ elim (Bool-cases (va / 2 ^ 30 == 1)) [
        | inl e ↦
            walk_table layout built va placed.kernel_page placed.kernel_fits (
              ap built.l1 (ground arith)
              ∙ l1_kernel layout cleared
              ∙ ap table_desc placed.kernel_at)
            ∙ ap (second_level no_limits va) (
                ap (table_at layout built) (sym placed.kernel_at)
                ∙ table_at_kernel layout built placed.apart)
            ∙ second_level-some va built.l2_kernel
            ∙ ap (λ (f : ℕ → ℕ). read_block 21 no_limits (f (l2_index va)) va) tables.1
            ∙ kernel_window cleared.l2_kernel va (l2_index va) (ground arith) (ground arith)
                (cleared-zero before (l2_index va) (omega arith)).2
        | inr high ↦
            walk_empty layout built va (
              l1_kept layout cleared (l1_index va) (ground arith)
              ∙ (cleared-zero before (l1_index va) (omega arith)).0)
            ∙ sym (map_nothing va (ground arith) (ground arith) (inr (ground arith)))
      ]
    ]
