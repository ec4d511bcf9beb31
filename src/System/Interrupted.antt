-- ===== src/System/Interrupted.antt =====
-- The timer's tick and the rest of an interrupt keep the kernel alive.
use d_rpi_proto_os.Base.{
  update_all, update_self, ℕ, ◌-◌, ◌<◌, ◌≡◌, ◌≢◌, inl, inr, refl, some, arith, ◌==◌, eq_of_==, ap,
  sym, ◌∙◌, update, update_ne, Bool-cases,
}
use mathlib.Core.Path.{subst}
use d_rpi_proto_os.Config.{thread_count, thread_slot_idle}
use d_rpi_proto_os.State.{Kernel, Thread, Build}
use d_rpi_proto_os.Thread.{charge_quantum, thread_tick_irq}
use d_rpi_proto_os.Waits.{waiting, is_task_running}
use d_rpi_proto_os.Waits.Table.{Agree-ext}
use d_rpi_proto_os.Invariant.{ThreadOk, Inv}
use d_rpi_proto_os.Handling.{Asleep}
use d_rpi_proto_os.Config.{BenchMode}
use d_rpi_proto_os.State.Output.{Prints}
use d_rpi_proto_os.Devices.{Devices, Hardware, exception_irq}
use d_rpi_proto_os.Devices.Irq.{exception_irq_lem}
use d_rpi_proto_os.Return.Alive.{Parked, Running, Idling, Alive, runs, idles}

-- A tick of the timer changes the current thread's quantum.
record Ticked (k : Kernel) (c : ℕ) (k' : Kernel) : Type 0 where
  pub quantum : ℕ
  pub threads : k'.threads ≡ update k.threads c (record (k.threads c) { quantum_left = quantum })
  pub endpoints : k'.endpoints ≡ k.endpoints
  pub supervisor : k'.blocked_supervisor_slot ≡ k.blocked_supervisor_slot
  pub current : k'.current ≡ some c
  pub task : k'.current_task ≡ k.current_task

thread_tick_irq-Ticked : (k : Kernel) (c : ℕ) → k.current ≡ some c → Ticked k c (thread_tick_irq k)
unfolding thread_tick_irq charge_quantum
thread_tick_irq-Ticked k c cur = elim (Bool-cases ((k.threads c).quantum_left - 1 == 0)) [
  | inl e ↦ rw cur (
      rw e (record {
        quantum = _;
        threads = refl;
        endpoints = refl;
        supervisor = refl;
        current = refl;
        task = refl;
      }))
  | inr e ↦ rw cur (
      rw e (record {
        quantum = _;
        threads = refl;
        endpoints = refl;
        supervisor = refl;
        current = refl;
        task = refl;
      }))
]

-- A thread with another quantum.
module _ (t : Thread) (n : ℕ) where
  abbrev requantum : Thread
  requantum = record t { quantum_left = n }

  requantum-ThreadOk : (s : ℕ) → ThreadOk s t → ThreadOk s requantum
  requantum-ThreadOk s ok = record {
    kind = ok.kind;
    slot = ok.slot;
    lr = ok.lr;
    sp = ok.sp;
    elr = ok.elr;
    entry = ok.entry;
    dead = ok.dead;
    idle_lives = ok.idle_lives;
  }

-- The tick keeps the invariant, and the other threads.
module _ {k : Kernel} {c : ℕ} {k' : Kernel} (t : Ticked k c k') where
  ticked-Sound : c < thread_count → Inv k → Inv k'
  ticked-Sound lt h =
      rw (t.threads, t.endpoints, t.supervisor)
        (record {
          threads_ok =
              update_all ThreadOk thread_count k.threads c _ h.threads_ok
                (requantum-ThreadOk (k.threads c) t.quantum c (h.threads_ok c lt));
          endpoints_ok = h.endpoints_ok;
          waits =
              Agree-ext h.waits (λ p _. refl) (λ s _. ground (arith, eq_of_== c s, ap (waiting k)));
        })

  ticked_other : (s : ℕ) → s ≢ c → k'.threads s ≡ k.threads s
  ticked_other s ne = rw t.threads (update_ne k.threads c _ s (λ e. ne (sym e)))

  ticked_own : k'.threads c ≡ record (k.threads c) { quantum_left = t.quantum }
  ticked_own = rw t.threads (update_self k.threads c _)

tick-Running : {b : Build} {k : Kernel} {c : ℕ} → Running b k c → Running b (thread_tick_irq k) c
tick-Running {b} {k} {c} h =
    let t = thread_tick_irq-Ticked k c h.current.current_eq in
    let own = ticked_own t in
    record {
      sound = ticked-Sound t (ground (arith, h.small)) h.sound;
      current = record {
        current_eq = t.current;
        task_eq = t.task ∙ h.current.task_eq;
        kind = ap (λ x. x.kind) own ∙ h.current.kind;
        slot = ap (λ x. x.slot) own ∙ h.current.slot;
      };
      small = h.small;
      thread_running = ap (λ x. x.state) own ∙ h.thread_running;
      task_runs = ap (λ x. x.user.state) own ∙ h.task_runs;
      no_reason = ap (λ x. x.user.return_reason) own ∙ h.no_reason;
      asleep = λ s lt ne. subst Asleep (sym (ticked_other t s ne)) (h.asleep s lt ne);
      parked = λ s lt ne. subst (Parked b s) (sym (ticked_other t s ne)) (h.parked s lt ne);
    }

tick-Idling : {b : Build} {k : Kernel} → Idling b k → Idling b (thread_tick_irq k)
tick-Idling {b} {k} h =
    let t = thread_tick_irq-Ticked k thread_slot_idle h.current in
    let own = ticked_own t in
    record {
      sound = ticked-Sound t (omega arith) h.sound;
      current = t.current;
      thread_running = ap (λ x. x.state) own ∙ h.thread_running;
      rests = ap (λ x. is_task_running x.user.state) own ∙ h.rests;
      asleep = λ s lt ne. subst Asleep (sym (ticked_other t s ne)) (h.asleep s lt ne);
      parked = λ s lt ne. subst (Parked b s) (sym (ticked_other t s ne)) (h.parked s lt ne);
    }

tick-Alive : {b : Build} {k : Kernel} → Alive b k → Alive b (thread_tick_irq k)
tick-Alive (runs c h) = runs c (tick-Running h)
tick-Alive (idles h) = idles (tick-Idling h)

-- Output makes no difference.
printed-Alive : {b : Build} {k k' : Kernel} → Prints k k' → Alive b k → Alive b k'
printed-Alive {b} {k} {k'} (out, e) (runs c h) = subst (Alive b) (sym e) (
    runs c (record {
      sound = h.sound;
      current = record {
        current_eq = h.current.current_eq;
        task_eq = h.current.task_eq;
        kind = h.current.kind;
        slot = h.current.slot;
      };
      small = h.small;
      thread_running = h.thread_running;
      task_runs = h.task_runs;
      no_reason = h.no_reason;
      asleep = h.asleep;
      parked = h.parked;
    }))
printed-Alive {b} {k} {k'} (out, e) (idles h) = subst (Alive b) (sym e) (
    idles (record {
      sound = h.sound;
      current = h.current;
      thread_running = h.thread_running;
      rests = h.rests;
      asleep = h.asleep;
      parked = h.parked;
    }))

-- An interrupt, whatever the controller says.
pub exception_irq-Alive :
    {b : Build} {k : Kernel} (hw : Hardware) (mode : BenchMode) (d : Devices)
    → Alive b k
    → Alive b (exception_irq hw mode d k).1
exception_irq-Alive {b} {k} hw mode d h = elim ((exception_irq_lem hw mode d k).2) [
  | inl (timer, prints, counted, armed) ↦ printed-Alive prints (tick-Alive h)
  | inr (other, same, counted, kept) ↦ subst (Alive b) (sym same) h
]
