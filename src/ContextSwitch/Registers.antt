-- ===== src/ContextSwitch/Registers.antt =====
-- What `context_switch` writes and loads.
use d_rpi_proto_os.Base.{ℕ, ◌*◌, ◌/◌, ◌%◌, ◌^◌, ◌<◌, ◌≡◌, ◌≢◌, refl, [], ◌∷◌, arith}
use d_rpi_proto_os.State.{ThreadCtx}
use d_rpi_proto_os.Arm.{Cpu, at, exec}
use d_rpi_proto_os.Arm.Words.{Writes, write_all, write_all-at, write_all-outside, Within}
use d_rpi_proto_os.ContextSwitch.{context_switch}

-- The registers that a call keeps, the stack pointer and the return address.
abbrev pub live_ctx : Cpu → ThreadCtx
live_ctx c = record {
  x19 = c.regs 19;
  x20 = c.regs 20;
  x21 = c.regs 21;
  x22 = c.regs 22;
  x23 = c.regs 23;
  x24 = c.regs 24;
  x25 = c.regs 25;
  x26 = c.regs 26;
  x27 = c.regs 27;
  x28 = c.regs 28;
  x29 = c.regs 29;
  sp = c.stack;
  lr = c.regs 30;
}

-- The `struct thread_ctx` at `p`.
abbrev pub ctx_at : (ℕ → ℕ) → ℕ → ThreadCtx
ctx_at m p = record {
  x19 = m (at p 0);
  x20 = m (at p 8);
  x21 = m (at p 16);
  x22 = m (at p 24);
  x23 = m (at p 32);
  x24 = m (at p 40);
  x25 = m (at p 48);
  x26 = m (at p 56);
  x27 = m (at p 64);
  x28 = m (at p 72);
  x29 = m (at p 80);
  sp = m (at p 88);
  lr = m (at p 96);
}

abbrev pub ctx_size : ℕ
ctx_size = 13 * 8

abbrev pub Apart : ℕ → ℕ → Type 0
Apart p q = (i j : ℕ) → i < ctx_size → j < ctx_size → at p i ≢ at q j

abbrev ctx_words : Cpu → Writes
ctx_words c =
    (0, c.regs 19)
    ∷ (8, c.regs 20)
    ∷ (16, c.regs 21)
    ∷ (24, c.regs 22)
    ∷ (32, c.regs 23)
    ∷ (40, c.regs 24)
    ∷ (48, c.regs 25)
    ∷ (56, c.regs 26)
    ∷ (64, c.regs 27)
    ∷ (72, c.regs 28)
    ∷ (80, c.regs 29)
    ∷ (88, c.stack)
    ∷ (96, c.regs 30)
    ∷ []

-- A context whose words are the same is the same.
ctx_at-same :
    (m m' : ℕ → ℕ) (p : ℕ)
    → ((j : ℕ) → j < ctx_size → m' (at p j) ≡ m (at p j))
    → ctx_at m' p ≡ ctx_at m p
ctx_at-same m m' p same = λ i. record {
  x19 = same 0 (omega arith) i;
  x20 = same 8 (omega arith) i;
  x21 = same 16 (omega arith) i;
  x22 = same 24 (omega arith) i;
  x23 = same 32 (omega arith) i;
  x24 = same 40 (omega arith) i;
  x25 = same 48 (omega arith) i;
  x26 = same 56 (omega arith) i;
  x27 = same 64 (omega arith) i;
  x28 = same 72 (omega arith) i;
  x29 = same 80 (omega arith) i;
  sp = same 88 (omega arith) i;
  lr = same 96 (omega arith) i;
}

pub record Switched (c c' : Cpu) : Type 0 where
  pub saved : ctx_at c'.mem (c.regs 0) ≡ live_ctx c
  pub loaded : live_ctx c' ≡ ctx_at c.mem (c.regs 1)
  pub returns : c'.pc ≡ c.mem (at (c.regs 1) 96)
  pub rest : (p : ℕ) → Apart (c.regs 0) p → ctx_at c'.mem p ≡ ctx_at c.mem p
  pub interrupts : c'.pstate / 2 ^ 7 % 2 ≡ 0

ctx_words-Within : (c : Cpu) → Within ctx_size (ctx_words c)
ctx_words-Within c = omega arith

switched-mem : (c : Cpu) → (exec context_switch c).mem ≡ write_all (c.regs 0) (ctx_words c) c.mem
unfolding exec context_switch
switched-mem c = refl

-- A context apart from the old thread's stays.
switch-rest :
    (c : Cpu) (p : ℕ)
    → Apart (c.regs 0) p
    → (j : ℕ) → j < ctx_size
    → (exec context_switch c).mem (at p j) ≡ c.mem (at p j)
unfolding exec context_switch
switch-rest c p apart j lt =
    write_all-outside (ctx_words c) (c.regs 0) ctx_size (at p j) c.mem (ctx_words-Within c)
      (λ i small. apart i j small lt)

switch-saved : (c : Cpu) → ctx_at (exec context_switch c).mem (c.regs 0) ≡ live_ctx c
unfolding exec context_switch
switch-saved c =
    let word =
      λ (j : ℕ) (lt : j < 2 ^ 64). write_all-at (ctx_words c) (c.regs 0) j c.mem (omega arith) lt in
    λ i. record {
      x19 = word 0 (omega arith) i;
      x20 = word 8 (omega arith) i;
      x21 = word 16 (omega arith) i;
      x22 = word 24 (omega arith) i;
      x23 = word 32 (omega arith) i;
      x24 = word 40 (omega arith) i;
      x25 = word 48 (omega arith) i;
      x26 = word 56 (omega arith) i;
      x27 = word 64 (omega arith) i;
      x28 = word 72 (omega arith) i;
      x29 = word 80 (omega arith) i;
      sp = word 88 (omega arith) i;
      lr = word 96 (omega arith) i;
    }

pub context_switch-Switched :
    (c : Cpu) → Apart (c.regs 0) (c.regs 1) → Switched c (exec context_switch c)
unfolding exec context_switch
context_switch-Switched c apart = record {
  saved = switch-saved c;
  loaded =
      ctx_at-same c.mem (exec context_switch c).mem (c.regs 1) (switch-rest c (c.regs 1) apart);
  returns = switch-rest c (c.regs 1) apart 96 (omega arith);
  rest = λ p free. ctx_at-same c.mem (exec context_switch c).mem p (switch-rest c p free);
  interrupts = ground arith;
}
