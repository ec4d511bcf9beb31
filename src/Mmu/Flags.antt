-- ===== src/Mmu/Flags.antt =====
-- The constants of kernel/mm/mmu.c.
use d_rpi_proto_os.Base.{ℕ, ◌*◌, ◌^◌}

abbrev pub mmu_table_entries : ℕ
mmu_table_entries = 512

abbrev pub mmu_page_shift : ℕ
mmu_page_shift = 12

abbrev pub mmu_l2_block_shift : ℕ
mmu_l2_block_shift = 21

abbrev pub desc_valid : ℕ
desc_valid = 2 ^ 0

abbrev pub desc_table : ℕ
desc_table = 2 ^ 1

abbrev pub desc_af : ℕ
desc_af = 2 ^ 10

abbrev pub desc_sh_inner : ℕ
desc_sh_inner = 3 * 2 ^ 8

abbrev pub desc_ap_el0_rw : ℕ
desc_ap_el0_rw = 2 ^ 6

abbrev pub desc_uxn : ℕ
desc_uxn = 2 ^ 54

abbrev pub desc_pxn : ℕ
desc_pxn = 2 ^ 53

abbrev pub mair_attr_normal_wb_wa : ℕ
mair_attr_normal_wb_wa = 0xFF

abbrev pub mair_attr_device_ngnre : ℕ
mair_attr_device_ngnre = 0x00

abbrev pub attr_idx_normal : ℕ
attr_idx_normal = 0

abbrev pub attr_idx_device : ℕ
attr_idx_device = 1

abbrev pub tcr_t0sz_39bit : ℕ
tcr_t0sz_39bit = 25

abbrev pub tcr_epd1 : ℕ
tcr_epd1 = 2 ^ 23

abbrev pub tcr_tg0_4k : ℕ
tcr_tg0_4k = 0 * 2 ^ 14

abbrev pub tcr_sh0_inner : ℕ
tcr_sh0_inner = 3 * 2 ^ 12

abbrev pub tcr_orgn0_wb_wa : ℕ
tcr_orgn0_wb_wa = 2 ^ 10

abbrev pub tcr_irgn0_wb_wa : ℕ
tcr_irgn0_wb_wa = 2 ^ 8

abbrev pub tcr_ips_40bit : ℕ
tcr_ips_40bit = 2 * 2 ^ 32

abbrev pub sctlr_m : ℕ
sctlr_m = 2 ^ 0

abbrev pub sctlr_c : ℕ
sctlr_c = 2 ^ 2

abbrev pub sctlr_i : ℕ
sctlr_i = 2 ^ 12
