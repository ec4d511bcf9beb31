-- ===== src/Thread/Switch.antt =====
-- `thread_switch_to`: one thread runs afterwards, with a quantum.
use d_rpi_proto_os.Base.{ℕ, ◌<◌, ◌≡◌, ◌≢◌, false, some, ◌==◌, arith}
use d_rpi_proto_os.Config.{thread_count}
use d_rpi_proto_os.State.{Kernel, Build, is_running}
use d_rpi_proto_os.State.Effect.{Ensures, done}
use d_rpi_proto_os.Thread.{demote, promote, save_ctx, thread_switch_to}

-- Thread `next` is the only one that runs, its quantum is not used up, and thread `old` goes on from
-- the registers that were live.
pub record Switched (b : Build) (k : Kernel) (old next : ℕ) (k' : Kernel) : Type 0 where
  pub current : k'.current ≡ some next
  pub only : (s : ℕ) → s < thread_count → is_running (k'.threads s).state ≡ (s == next)
  pub quantum : 0 < (k'.threads next).quantum_left
  pub saved : (k'.threads old).ctx ≡ b.live_regs (promote next (demote (some old) k))
  pub task : (s : ℕ) → (k'.threads s).user ≡ (k.threads s).user
  pub rest : (k'.endpoints ≡ k.endpoints) × (k'.mem ≡ k.mem) × (k'.current_task ≡ k.current_task)

unfoldable pub exchanged : Build → ℕ → ℕ → Kernel → Kernel
exchanged b old next k = save_ctx b (some old) (promote next (demote (some old) k))

pub thread_switch_to-exchanged :
    (b : Build) (k : Kernel) (old next : ℕ)
    → k.current ≡ some old
    → next ≢ old
    → (k.threads next).ctx.lr ≢ 0
    → (k.threads next).ctx.sp ≢ 0
    → thread_switch_to b (some next) k ≡ done tt (exchanged b old next k)
unfolding thread_switch_to exchanged demote promote
thread_switch_to-exchanged b k old next cur ne lr sp = ground (arith, cur)

-- If the current thread is exchanged for another one whose context has a return address and a
-- stack, and no third thread runs, the switch does not panic: the new thread is current, it alone
-- runs, its quantum is not 0, the old thread's context holds the live registers, and tasks,
-- endpoints and memory are unchanged.
pub thread_switch_to-Switched :
    (b : Build) (k : Kernel) (old next : ℕ)
    → k.current ≡ some old
    → next ≢ old
    → ((s : ℕ) → s < thread_count → s ≢ old → is_running (k.threads s).state ≡ false)
    → (k.threads next).ctx.lr ≢ 0
    → (k.threads next).ctx.sp ≢ 0
    → Ensures (thread_switch_to b (some next) k) (λ _ k'. Switched b k old next k')
unfolding exchanged demote promote save_ctx
thread_switch_to-Switched b k old next cur ne others lr sp =
    rw (thread_switch_to-exchanged b k old next cur ne lr sp, Ensures)
      (record {
        current = ground (arith, cur);
        only = λ s lt. ground (arith, others s lt);
        quantum = ground arith;
        saved = ground arith;
        task = λ s. ground arith;
        rest = ground arith;
      })
