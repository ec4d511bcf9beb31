-- ===== src/ContextSwitch/Kernel.antt =====
-- `context_switch` on the table of threads is what the kernel's model says of a switch.
use d_rpi_proto_os.Base.{
  ℕ, ◌+◌, ◌*◌, ◌/◌, ◌%◌, ◌^◌, ◌≤◌, ◌<◌, ◌≡◌, ◌≢◌, ◌⊎◌, inl, inr, refl, ap, sym, ◌∙◌, arith, Option,
  none, some, ◌==◌, Bool-cases, eq_of_==,
}
use mathlib.Core.Path.{subst}
use d_rpi_proto_os.Config.{thread_count}
use d_rpi_proto_os.State.{Kernel, ThreadCtx, Build}
use d_rpi_proto_os.Thread.{save_ctx}
use d_rpi_proto_os.Arm.{Cpu, exec}
use d_rpi_proto_os.ContextSwitch.{context_switch}
use d_rpi_proto_os.ContextSwitch.Registers.{
  live_ctx, ctx_at, ctx_size, Apart, context_switch-Switched,
}

-- sizeof(struct thread), whose first member is the context.
abbrev pub thread_size : ℕ
thread_size = 464

-- The address of a thread's context; that of `g_boot_ctx` for the null pointer.
abbrev pub ctx_addr : Build → ℕ → Option ℕ → ℕ
ctx_addr b boot none = boot
ctx_addr b boot (some s) = b.threads_base + thread_size * s

-- `g_threads` and `g_boot_ctx` lie apart and do not wrap.
abbrev pub Separate : Build → ℕ → Type 0
Separate b boot =
    (b.threads_base + thread_size * thread_count ≤ 2 ^ 64)
    × (boot + ctx_size ≤ 2 ^ 64)
    × ((boot + ctx_size ≤ b.threads_base) ⊎ (b.threads_base + thread_size * thread_count ≤ boot))

-- The contexts in memory are the model's.
pub record Contexts (b : Build) (boot : ℕ) (m : ℕ → ℕ) (k : Kernel) : Type 0 where
  pub threads : (s : ℕ) → s < thread_count → ctx_at m (ctx_addr b boot (some s)) ≡ (k.threads s).ctx
  pub boot_ctx : ctx_at m boot ≡ k.boot_ctx

module _ (b : Build) (boot : ℕ) (sep : Separate b boot) where
  threads-Apart :
      (s t : ℕ)
      → s < thread_count
      → t < thread_count
      → s ≢ t
      → Apart (ctx_addr b boot (some s)) (ctx_addr b boot (some t))
  threads-Apart s t ls lt ne i j li lj same = absurd (ground (arith, sep, ne, same))

  boot-Apart : (s : ℕ) → s < thread_count → Apart boot (ctx_addr b boot (some s))
  boot-Apart s ls i j li lj same = absurd (ground (arith, sep, same))

  ctx-Apart :
      (old : Option ℕ) (s : ℕ)
      → ((o : ℕ) → old ≡ some o → o < thread_count × (s ≢ o))
      → s < thread_count
      → Apart (ctx_addr b boot old) (ctx_addr b boot (some s))
  ctx-Apart none s other lt = boot-Apart s lt
  ctx-Apart (some o) s other lt =
      threads-Apart o s (other o refl).0 lt (λ e. (other o refl).1 (sym e))

  module _ (k : Kernel) (c : Cpu) (at_rest : Contexts b boot c.mem k)
      (regs : b.live_regs k ≡ live_ctx c) where
    saved-Contexts :
        (old : Option ℕ) (c' : Cpu)
        → ((o : ℕ) → old ≡ some o → o < thread_count)
        → ctx_at c'.mem (ctx_addr b boot old) ≡ live_ctx c
        → ((p : ℕ) → Apart (ctx_addr b boot old) p → ctx_at c'.mem p ≡ ctx_at c.mem p)
        → Contexts b boot c'.mem (save_ctx b old k)
    unfolding save_ctx
    saved-Contexts none c' small saved rest = record {
      threads = λ s lt. rest (ctx_addr b boot (some s)) (boot-Apart s lt) ∙ at_rest.threads s lt;
      boot_ctx = saved ∙ sym regs;
    }
    saved-Contexts (some o) c' small saved rest = record {
      threads = λ s lt. elim (Bool-cases (o == s)) [
        | inl e ↦ rw e (
            subst (λ (v : ℕ). ctx_at c'.mem (ctx_addr b boot (some v)) ≡ b.live_regs k)
              (eq_of_== o s e) (saved ∙ sym regs))
        | inr e ↦ rw e (
            rest (ctx_addr b boot (some s))
              (threads-Apart o s (small o refl) lt (λ eq. ground (arith, e, eq)))
            ∙ at_rest.threads s lt)
      ];
      boot_ctx =
          rest boot (λ i j li lj same. boot-Apart o (small o refl) j i lj li (sym same))
          ∙ at_rest.boot_ctx;
    }

    -- If the table of threads and the boot context lie apart without wrapping, hold the contexts of
    -- the kernel's model, and context_switch is called with the addresses of an old context and of
    -- another thread's, with the live registers that the model saves, then afterwards the memory
    -- holds the contexts of the model behind save_ctx, the live registers are the new thread's
    -- context, the code goes on at its return address, and interrupts are let through.
    pub context_switch-Refines :
        (old : Option ℕ) (next : ℕ)
        → ((o : ℕ) → old ≡ some o → o < thread_count × (next ≢ o))
        → next < thread_count
        → c.regs 0 ≡ ctx_addr b boot old
        → c.regs 1 ≡ ctx_addr b boot (some next)
        → (let c' = exec context_switch c in
            Contexts b boot c'.mem (save_ctx b old k)
            × (live_ctx c' ≡ (k.threads next).ctx)
            × (c'.pc ≡ (k.threads next).ctx.lr)
            × (c'.pstate / 2 ^ 7 % 2 ≡ 0))
    context_switch-Refines old next other lt from to =
        let apart : Apart (c.regs 0) (c.regs 1) = rw (from, to) (ctx-Apart old next other lt) in
        let sw = context_switch-Switched c apart in
        let there = at_rest.threads next lt in
        (
          saved-Contexts old (exec context_switch c) (λ o e. (other o e).0)
              (subst (λ p. ctx_at (exec context_switch c).mem p ≡ live_ctx c) from sw.saved)
              (λ p free. sw.rest p (rw from free)),
          sw.loaded ∙ ap (ctx_at c.mem) to ∙ there,
          sw.returns ∙ ap (λ (p : ℕ). (ctx_at c.mem p).lr) to ∙ ap (λ (t : ThreadCtx). t.lr) there,
          sw.interrupts,
        )
