-- ===== src/Mmu/Isolation.antt =====
-- What the map of kernel/mm/mmu.c lets EL0 and the kernel do.
use d_rpi_proto_os.Base.{
  ℕ, ◌^◌, ◌<◌, ◌≡◌, refl, sym, inl, inr, Bool, false, ◌&&◌, ◌||◌, ltb, leb, ◌==◌, Bool-cases, arith,
}
use d_rpi_proto_os.Config.{kernel_load_addr, el0_sandbox_base, el0_sandbox_end}
use d_rpi_proto_os.Mmu.{Tables, Layout, kernel_limit, clear_tables, build_identity_map}
use d_rpi_proto_os.Mmu.Walk.{Page, Walked, faults, leads, strays, within, walk, memory_map}
use d_rpi_proto_os.Mmu.Blocks.{Placed}
use d_rpi_proto_os.Mmu.Identity.{walk-memory_map}
use mathlib.Core.Path.{subst}

abbrev pub in_sandbox : ℕ → Bool
in_sandbox va = leb el0_sandbox_base va && ltb va el0_sandbox_end

-- What a page of the map lets happen at an address.
pub record Isolated (va : ℕ) (page : Page) : Type 0 where
  pub identity : page.pa ≡ va
  pub el0_reads : page.el0_read ≡ in_sandbox va
  pub el0_writes : page.el0_write ≡ in_sandbox va
  pub el0_executes : page.el0_exec ≡ in_sandbox va
  pub kernel_executes : page.el1_exec && page.el0_write ≡ false
  pub devices : page.attr_index == 1 && page.el1_exec ≡ false

-- The same for a walk, which may fault outside the sandbox, and never finds a foreign table.
abbrev pub Result-Isolated : ℕ → Walked → Type 0
Result-Isolated va faults = in_sandbox va ≡ false
Result-Isolated va (leads page) = Isolated va page
Result-Isolated va strays = ⊥

memory_map-Isolated : (va : ℕ) → Result-Isolated va (memory_map va)
unfolding memory_map
memory_map-Isolated va =
    elim (Bool-cases (within 0x0800_0000 0x0820_0000 va || within 0x0900_0000 0x0920_0000 va)) [
      | inl e ↦ rw e (record {
        identity = refl;
        el0_reads = ground arith;
        el0_writes = ground arith;
        el0_executes = ground arith;
        kernel_executes = refl;
        devices = refl;
      })
      | inr not_device ↦ rw not_device (elim (Bool-cases (in_sandbox va)) [
        | inl e ↦ rw e (record {
          identity = refl;
          el0_reads = sym e;
          el0_writes = sym e;
          el0_executes = sym e;
          kernel_executes = refl;
          devices = refl;
        })
        | inr outside ↦ rw outside (elim (Bool-cases (within kernel_load_addr kernel_limit va)) [
          | inl e ↦ rw e (record {
            identity = refl;
            el0_reads = sym outside;
            el0_writes = sym outside;
            el0_executes = sym outside;
            kernel_executes = refl;
            devices = refl;
          })
          | inr e ↦ rw e outside
        ])
      ])
    ]

-- If the two second-level tables lie at different addresses of pages below 2 ^ 48, then the walk
-- for an address below 2 ^ 39 leads to that same address or nowhere, and not nowhere in the
-- sandbox. EL0 may read, write and execute in the sandbox and nothing outside it; nothing that EL0
-- may write can be executed by the kernel, and no device register can.
pub walk-Isolated :
    (layout : Layout) (before : Tables) (va : ℕ)
    → Placed layout
    → va < 2 ^ 39
    → Result-Isolated va (walk layout (build_identity_map layout (clear_tables before)) va)
walk-Isolated layout before va placed lt =
    subst (Result-Isolated va) (sym (walk-memory_map layout before va placed lt))
      (memory_map-Isolated va)
