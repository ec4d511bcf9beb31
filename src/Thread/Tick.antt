-- ===== src/Thread/Tick.antt =====
-- `thread_tick_irq`: the current thread's quantum.
use d_rpi_proto_os.Base.{ℕ, zero, suc, ◌-◌, ◌<◌, ◌≡◌, refl, true, some, arith}
use d_rpi_proto_os.Config.{thread_quantum_ticks}
use d_rpi_proto_os.State.{Kernel}
use d_rpi_proto_os.Thread.{charge_quantum, thread_tick_irq}

-- A number of ticks in a row.
unfoldable pub ticks : ℕ → Kernel → Kernel
ticks zero k = k
ticks (suc n) k = ticks n (thread_tick_irq k)

module _ (c : ℕ) where
  -- One tick before the last one of the quantum.
  tick_before :
      (k : Kernel)
      → k.current ≡ some c
      → 1 < (k.threads c).quantum_left
      → ((thread_tick_irq k).current ≡ some c)
        × ((thread_tick_irq k).resched_pending ≡ k.resched_pending)
        × (((thread_tick_irq k).threads c).quantum_left ≡ (k.threads c).quantum_left - 1)
  unfolding thread_tick_irq charge_quantum
  tick_before k cur more = ground (arith, cur)

  -- For fewer ticks than the current thread's quantum, the thread stays current, the request for a
  -- switch stays as it was, and the quantum is smaller by the number of ticks.
  ticks-before :
      (n : ℕ) (k : Kernel)
      → k.current ≡ some c
      → n < (k.threads c).quantum_left
      → ((ticks n k).current ≡ some c)
        × ((ticks n k).resched_pending ≡ k.resched_pending)
        × (((ticks n k).threads c).quantum_left ≡ (k.threads c).quantum_left - n)
  unfolding ticks
  ticks-before zero k cur more = (cur, refl, omega arith)
  ticks-before (suc n) k cur more =
      let one = tick_before k cur (omega arith) in
      ground (arith, ticks-before n (thread_tick_irq k) one.0 (omega (arith, one.2)), one)

ticks-suc : (n : ℕ) (k : Kernel) → ticks (suc n) k ≡ thread_tick_irq (ticks n k)
unfolding ticks
ticks-suc zero k = refl
ticks-suc (suc n) k = ticks-suc n (thread_tick_irq k)

tick_last :
    (c : ℕ) (k : Kernel)
    → k.current ≡ some c
    → (k.threads c).quantum_left ≡ 1
    → ((thread_tick_irq k).resched_pending ≡ true)
      × (((thread_tick_irq k).threads c).quantum_left ≡ thread_quantum_ticks)
unfolding thread_tick_irq charge_quantum
tick_last c k cur last = ground (arith, cur)

-- As many ticks as the current thread's quantum, which is not 0, leave a request for a switch and a
-- new quantum.
ticks-expiry :
    (c n : ℕ) (k : Kernel)
    → k.current ≡ some c
    → (k.threads c).quantum_left ≡ suc n
    → ((ticks (suc n) k).resched_pending ≡ true)
      × (((ticks (suc n) k).threads c).quantum_left ≡ thread_quantum_ticks)
ticks-expiry c n k cur left =
    let before = ticks-before c n k cur (omega arith) in
    rw (ticks-suc n k) (tick_last c (ticks n k) before.0 (omega (arith, before.2)))
