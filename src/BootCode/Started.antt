-- ===== src/BootCode/Started.antt =====
-- The start reaches `kernel_main` at EL1, with its stack and with cleared static data.
use d_rpi_proto_os.Base.{
  ℕ, zero, suc, ◌+◌, ◌*◌, ◌/◌, ◌^◌, ◌≤◌, ◌<◌, ◌≡◌, ◌≢◌, ◌⊎◌, inl, inr, refl, ap, ◌∙◌, arith, some,
  leb, update, update_ne, update_self, Bool-cases,
}
use mathlib.Core.Path.{subst}
use d_rpi_proto_os.Config.{spsr_el1h_masked}
use d_rpi_proto_os.Arm.{Cpu, x, sp, set, at}
use d_rpi_proto_os.BootCode.{
  Places, Reset, bss_loop, clear_word, el1_entry, start_code, from_el2, with_cpu, start_at,
}

-- The words from `cur` up to `end` are 0, and the memory at all other addresses is as before.
pub record Cleared (cur end : ℕ) (m m' : ℕ → ℕ) : Type 0 where
  pub zeros : (i : ℕ) → cur + 8 * i < end → m' (cur + 8 * i) ≡ 0
  pub rest : (a : ℕ) → ((i : ℕ) → cur + 8 * i < end → a ≢ cur + 8 * i) → m' a ≡ m a

Cleared-first :
    (cur end : ℕ) (m m' : ℕ → ℕ)
    → cur < end
    → Cleared (cur + 8) end (update m cur 0) m'
    → Cleared cur end m m'
Cleared-first cur end m m' lt later = record {
  zeros = zero_at;
  rest = λ a free.
      later.rest a (λ i small same. free (suc i) (omega (arith, small)) (omega (arith, same)))
      ∙ update_ne m cur 0 a (λ e. free 0 (omega (arith, lt)) (omega (arith, e)));
}
  where
    zero_at : (i : ℕ) → cur + 8 * i < end → m' (cur + 8 * i) ≡ 0
    zero_at zero small =
        let here : cur + 8 * 0 ≡ cur = omega arith in
        ap m' here ∙ later.rest cur (λ i _ same. absurd (omega (arith, same))) ∙ update_self m cur 0
    zero_at (suc i) small =
        let there : cur + 8 * suc i ≡ cur + 8 + 8 * i = omega arith in
        ap m' there ∙ later.zeros i (omega (arith, small))

-- What the loop leaves alone.
record BssCleared (c c' : Cpu) : Type 0 where
  mem : Cleared (c.regs 0) (c.regs 1) c.mem c'.mem
  stack : c'.stack ≡ c.stack
  pstate : c'.pstate ≡ c.pstate

bss_loop-Cleared :
    (n : ℕ) (c : Cpu)
    → c.regs 2 ≡ 0
    → c.regs 1 + 8 < 2 ^ 64
    → c.regs 0 < c.regs 1 + 8
    → c.regs 1 + 8 ≤ c.regs 0 + 8 * n
    → (c' : Cpu) × (bss_loop n c ≡ some c') × BssCleared c c'
unfolding bss_loop
bss_loop-Cleared zero c zero_x2 fits near enough = absurd (omega arith)
bss_loop-Cleared (suc n) c zero_x2 fits near enough =
    elim (Bool-cases (leb (c.regs 1) (c.regs 0))) [
      | inl done ↦ (
        c,
        rw done refl,
        record {
          mem = record { zeros = λ i lt. absurd (ground (arith, done)); rest = λ a _. refl };
          stack = refl;
          pstate = refl;
        },
      )
      | inr more ↦
          let next : at (c.regs 0) 8 ≡ c.regs 0 + 8 = ground (arith, more) in
          let (c', e, cleared) =
            bss_loop-Cleared n (clear_word c) zero_x2 fits (ground (arith, next, more))
              (omega (arith, next)) in
          (
            c',
            rw more e,
            record {
              mem = Cleared-first (c.regs 0) (c.regs 1) c.mem c'.mem (ground (arith, more)) (
                  subst (λ v. Cleared (c.regs 0 + 8) (c.regs 1) (update c.mem (c.regs 0) v) c'.mem)
                    zero_x2
                    (subst (λ v. Cleared v (c.regs 1) (update c.mem (c.regs 0) (c.regs 2)) c'.mem)
                      next cleared.mem));
              stack = cleared.stack;
              pstate = cleared.pstate;
            },
          )
    ]

-- `kernel_main` is called at EL1, on its stack, with cleared static data.
pub record Started (p : Places) (r r' : Reset) : Type 0 where
  pub level : r'.current_el ≡ 4
  pub stack : r'.cpu.stack ≡ p.stack_top
  pub bss : Cleared p.bss_start p.bss_end r.cpu.mem r'.cpu.mem
  pub dropped :
      r.current_el ≡ 8
      → (r'.hcr_el2 ≡ 2 ^ 31) × (r'.cntvoff_el2 ≡ 0) × (r'.cpu.pstate ≡ spsr_el1h_masked)

module _ (p : Places) (r : Reset) (n : ℕ) (fits : p.bss_end + 8 < 2 ^ 64)
    (near : p.bss_start < p.bss_end + 8) (enough : p.bss_end + 8 ≤ p.bss_start + 8 * n) where
  el1_entry-Cleared :
      (c : Cpu)
      → (c' : Cpu) × (el1_entry n p c ≡ some c')
        × Cleared p.bss_start p.bss_end c.mem c'.mem
        × (c'.stack ≡ p.stack_top)
        × (c'.pstate ≡ c.pstate)
  unfolding el1_entry
  el1_entry-Cleared c =
      let (c', e, cleared) =
        bss_loop-Cleared n
          (set (x 2) 0 (
            set (x 1) p.bss_end
              (set (x 0) p.bss_start (set sp p.stack_top (set (x 0) p.stack_top c)))))
          refl fits near enough in
      (c', e, cleared.mem, cleared.stack, cleared.pstate)

  -- If the static data end before 2 ^ 64 - 8 and start at most 7 bytes behind their end, and there
  -- are as many rounds as they have words and one more, then from EL2 or EL1 the start reaches the
  -- call of kernel_main at EL1, with the kernel's stack, with the static data's words 0 and all
  -- other memory as before. From EL2, HCR_EL2 has bit 31 alone, the virtual timer has no offset,
  -- and the status is that of EL1 with interrupts masked.
  pub start_code-Started :
      (r.current_el ≡ 8) ⊎ (r.current_el ≡ 4)
      → (r' : Reset) × (start_code n p r ≡ some r') × Started p r r'
  unfolding start_code from_el2
  start_code-Started (inl el2) =
      let (c', e, cleared, stack, pstate) = el1_entry-Cleared (from_el2 p r).cpu in
      (
        record (from_el2 p r) { cpu = c' },
        ap (λ (el : ℕ). start_at (el / 2 ^ 2) n p r) el2 ∙ ap (with_cpu (from_el2 p r)) e,
        record { level = refl; stack = stack; bss = cleared; dropped = λ _. (refl, refl, pstate) },
      )
  start_code-Started (inr el1) =
      let (c', e, cleared, stack, pstate) = el1_entry-Cleared r.cpu in
      (
        record r { cpu = c' },
        ap (λ (el : ℕ). start_at (el / 2 ^ 2) n p r) el1 ∙ ap (with_cpu r) e,
        record {
          level = el1;
          stack = stack;
          bss = cleared;
          dropped = λ el2. absurd (omega (arith, el1, el2));
        },
      )
