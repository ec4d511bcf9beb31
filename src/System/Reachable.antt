-- ===== src/System/Reachable.antt =====
-- Every state that the kernel reaches is alive, and no step from it can end in `panic`.
use d_rpi_proto_os.Base.{ℕ, ◌<◌, ◌≡◌, refl, sym, ◌∙◌, some, arith}
use mathlib.Core.Path.{subst}
use d_rpi_proto_os.Config.{thread_slot_idle}
use d_rpi_proto_os.State.{Kernel, TrapFrame, Build}
use d_rpi_proto_os.Ipc.Range.{InSandbox}
use d_rpi_proto_os.Handling.{Outside}
use d_rpi_proto_os.State.Effect.{Outcome, Ensures, done, panicked}
use d_rpi_proto_os.Boot.Sound.{LaidOut}
use d_rpi_proto_os.Boot.Start.{Booted, printed-Booted, kernel_setup-Booted, thread_start-Running}
use d_rpi_proto_os.Return.Alive.{Linked, Running, Idling, Alive, runs, idles}
use d_rpi_proto_os.System.Steps.{serve_el0-Alive}
use d_rpi_proto_os.System.Interrupted.{exception_irq-Alive}
use d_rpi_proto_os.System.Alive.{idle_round-Alive}
use d_rpi_proto_os.System.{serve_el0, entered, Reached, started, interrupted, idle_woken, trapped}

-- What a run ensures holds of the state that it ends in.
ensured :
    {A : Type 0} (P : A → Kernel → Type 0) {o : Outcome A} {a : A} {k : Kernel}
    → Ensures o P
    → o ≡ done a k
    → P a k
ensured P h e = subst (λ o. Ensures o P) e h

-- A run without a panic, and what follows from the state that it ends in.
Ensures-self :
    (P Q : Unit {0} → Kernel → Type 0) (o : Outcome (Unit {0}))
    → Ensures o P
    → ((a : Unit {0}) (k : Kernel) → o ≡ done a k → Q a k)
    → Ensures o Q
Ensures-self P Q (done a k) h next = next a k refl
Ensures-self P Q (panicked msg k) h next = h

some-injective : {a b : ℕ} → some a ≡ some b → a ≡ b
some-injective e = cc

-- The thread that is current says which thread runs.
Alive-Idling : {b : Build} {k : Kernel} → Alive b k → k.current ≡ some thread_slot_idle → Idling b k
Alive-Idling (idles h) e = h
Alive-Idling (runs c h) e =
    let same : c ≡ thread_slot_idle = some-injective (sym h.current.current_eq ∙ e) in
    elim (absurd h.small same) [ ]
  where
    absurd : {c : ℕ} → c < thread_slot_idle → c ≡ thread_slot_idle → ⊥
    absurd lt e = omega arith

Alive-Running :
    {b : Build} {k : Kernel} {c : ℕ}
    → Alive b k
    → k.current ≡ some c
    → c < thread_slot_idle
    → Running b k c
Alive-Running {b} {k} (runs d h) e lt =
    subst (Running b k) (some-injective (sym h.current.current_eq ∙ e)) h
Alive-Running (idles h) e lt =
    let same : thread_slot_idle ≡ _ = some-injective (sym h.current ∙ e) in
    elim (absurd lt same) [ ]
  where
    absurd : {c : ℕ} → c < thread_slot_idle → thread_slot_idle ≡ c → ⊥
    absurd lt e = omega arith

-- If the addresses of the build are right, then in every state that the kernel reaches from its
-- start by any sequence of interrupts, turns of the idle thread and exceptions of user tasks, with
-- any frames whose program counter is in the sandbox and any bytes in the sandbox, one user task or
-- the idle thread runs, all other threads are parked, and the invariant holds; in particular no
-- endpoint keeps a message that a task waits for, and each kept message fits the kernel's array.
pub Reached-Alive : {b : Build} {k : Kernel} → LaidOut b → Linked b → Reached b k → Alive b k
Reached-Alive {b} a l (started k k' k1 k2 set_up printed start) = runs _ (
    ensured (λ _ k. Running b k _)
      (thread_start-Running l
        (printed-Booted printed (ensured (λ _ k. Booted b k) (kernel_setup-Booted b k a l) set_up)))
      start)
Reached-Alive a l (interrupted hw d k r) = exception_irq-Alive hw _ d (Reached-Alive a l r)
Reached-Alive a l (idle_woken k k' r cur turn) =
    ensured (λ _ k. Alive _ k) (idle_round-Alive l (Alive-Idling (Reached-Alive a l r) cur)) turn
Reached-Alive a l (trapped k k' c tf m r cur lt inside outside served) =
    ensured (λ _ k. Alive _ k)
      (serve_el0-Alive l (Alive-Running (Reached-Alive a l r) cur lt) tf m inside) served

-- If the addresses of the build are right, then in every reached state in which user task c is
-- current, an exception with any frame whose program counter is in the sandbox, and any bytes in
-- the sandbox, is served without a panic and ends in a reached state.
pub Reached-serves :
    {b : Build} {k : Kernel} (c : ℕ) (tf : TrapFrame) (m : ℕ → ℕ)
    → LaidOut b
    → Linked b
    → Reached b k
    → k.current ≡ some c
    → c < thread_slot_idle
    → InSandbox tf.elr
    → ((a : ℕ) → Outside a → m a ≡ k.mem a)
    → Ensures (serve_el0 b (entered tf m k)) (λ _ k'. Reached b k')
Reached-serves {b} {k} c tf m a l r cur lt inside outside =
    Ensures-self (λ _ k'. Alive b k') (λ _ k'. Reached b k') (serve_el0 b (entered tf m k))
      (serve_el0-Alive l (Alive-Running (Reached-Alive a l r) cur lt) tf m inside)
      (λ _ k' e. trapped k k' c tf m r cur lt inside outside e)
