-- ===== src/Return/Settle.antt =====
-- The first half of `user_task_return_step`: the task that trapped is made ready, is blocked or dies.
use d_rpi_proto_os.Base.{
  ℕ, List, ◌<◌, ◌≡◌, ◌≢◌, refl, false, arith, ==_refl, update_ne, ap, sym, eq_of_==, ==_of_ne,
}
use mathlib.Core.Path.{subst}
use d_rpi_proto_os.Config.{thread_count, thread_slot_idle}
use d_rpi_proto_os.State.{
  Kernel, ThreadState, TaskState, ReturnReason, is_stopped, is_dead, runnable, running, stopped,
  task_runnable, task_running, task_blocked, task_dead, return_none, return_yield, return_exit,
  return_fault, return_ipc_block, return_notify_block,
}
use d_rpi_proto_os.State.Effect.{Ensures, Ensures->>=, Ensures-map, ◌>>◌}
use d_rpi_proto_os.State.Output.{print_all-Prints}
use d_rpi_proto_os.Thread.Current.{IsCurrent}
use d_rpi_proto_os.Waits.{waiting, is_waiting, is_block_reason, is_task_running}
use d_rpi_proto_os.Invariant.{ThreadOk, Inv, Sound-put_thread, Sound-ext}
use d_rpi_proto_os.Handling.{Asleep, Kept}
use d_rpi_proto_os.Handling.Ahead.{Ahead, Ahead-start}
use d_rpi_proto_os.Ipc.{ipc_handle_task_death}
use d_rpi_proto_os.Ipc.Death.{ipc_handle_task_death-Ahead}
use d_rpi_proto_os.Supervisor.{supervisor_note_task_death}
use d_rpi_proto_os.Supervisor.Death.{supervisor_note_task_death-Ahead}
use d_rpi_proto_os.Return.{put_states, exit_texts, bury, settle}

-- User task `c` has trapped and comes back to the kernel for reason `r`.
pub record Leaving (k : Kernel) (c : ℕ) (r : ReturnReason) : Type 0 where
  pub sound : Inv k
  pub current : IsCurrent k c
  pub small : c < thread_slot_idle
  pub thread_running : (k.threads c).state ≡ running
  pub task_runs : (k.threads c).user.state ≡ task_running
  pub reason : (k.threads c).user.return_reason ≡ r
  pub asleep : (s : ℕ) → s < thread_count → s ≢ c → Asleep (k.threads s)

-- No thread and no task runs any more.
pub record Settled (k : Kernel) (c : ℕ) (k' : Kernel) : Type 0 where
  pub sound : Inv k'
  pub current : IsCurrent k' c
  pub rests : is_task_running (k'.threads c).user.state ≡ false
  pub asleep : (s : ℕ) → s < thread_count → s ≢ c → Asleep (k'.threads s)
  pub kept : (s : ℕ) → s ≢ c → Kept (k.threads s) (k'.threads s)

module _ {k : Kernel} {c : ℕ} {r : ReturnReason} (h : Leaving k c r) (state : ThreadState)
    (task : TaskState) (same : is_dead task ≡ is_stopped state) where
  put_states-ThreadOk :
      ThreadOk c (record (k.threads c) {
        state = state;
        user = record ((k.threads c).user) { state = task };
      })
  put_states-ThreadOk =
      let ok = h.sound.threads_ok c (ground (arith, h.small)) in
      record {
        kind = ok.kind;
        slot = ok.slot;
        lr = ok.lr;
        sp = ok.sp;
        elr = ok.elr;
        entry = ok.entry;
        dead = λ _. same;
        idle_lives = λ e. ground (arith, h.small, e);
      }

  -- The states are written, and the task waits afterwards exactly if its reason blocks it.
  put_states-Settled :
      is_waiting (record (k.threads c) {
        state = state;
        user = record ((k.threads c).user) { state = task };
      })
        ≡ is_block_reason r
      → is_task_running task ≡ false
      → Settled k c (put_states c state task k)
  put_states-Settled waits rests = record {
    sound =
        Sound-ext (put_states c state task k) (Sound-put_thread k c _ h.sound put_states-ThreadOk)
          (λ s lt. ground (
            arith,
            waits,
            h.thread_running,
            h.task_runs,
            h.reason,
            eq_of_== c s,
            ap (λ n. waiting k n),
          ));
    current = rw (==_refl c) (record {
      current_eq = h.current.current_eq;
      task_eq = h.current.task_eq;
      kind = h.current.kind;
      slot = h.current.slot;
    });
    rests = rw (==_refl c) rests;
    asleep = λ s lt ne. rw (==_of_ne c s (λ e. ne (sym e))) (h.asleep s lt ne);
    kept = λ s ne. rw (==_of_ne c s (λ e. ne (sym e))) (refl, λ e. e);
  }

-- The dead task waits nowhere, so that the records and the other tasks still agree afterwards.
module _ {k : Kernel} {c : ℕ} {r : ReturnReason} (h : Leaving k c r)
    (no_block : is_block_reason r ≡ false) where
  dead : Kernel
  dead = put_states c stopped task_dead k

  dead-Settled : Settled k c dead
  unfolding dead
  dead-Settled = put_states-Settled h stopped task_dead refl (sym no_block) refl

  dead-Ahead : Ahead dead c dead false
  unfolding dead
  dead-Ahead =
      Ahead-start dead-Settled.sound dead-Settled.current dead-Settled.asleep (rw (==_refl c) refl)

  buried-Settled : {k' : Kernel} → Ahead dead c k' false → Settled k c k'
  unfolding dead
  buried-Settled {k'} a =
      let g = a.stage in
      let at : (k'.threads c) ≡ (dead.threads c) = g.thread in
      record {
        sound = Sound-ext k' g.sound (λ s lt.
            ground (arith, a.agree s lt, g.others s lt, ap is_waiting at, a.own_eq, eq_of_== c s));
        current = g.current;
        rests = rw at (rw (==_refl c) refl);
        asleep = g.asleep;
        kept = λ s ne.
            subst (λ t. Kept t (k'.threads s)) (update_ne k.threads c _ s (λ e. ne (sym e)))
              (g.kept s ne);
      }

  death-Settled :
      (slot : ℕ)
      → slot ≡ c
      → Ensures
          ((ipc_handle_task_death slot >> supervisor_note_task_death slot) dead)
          (λ _ k'. Settled k c k')
  death-Settled slot e = rw e (
      Ensures->>= (λ _ k'. Ahead dead c k' false) _ (ipc_handle_task_death c)
        (λ _. supervisor_note_task_death c) dead (ipc_handle_task_death-Ahead h.small dead-Ahead)
        (λ _ k' a.
          Ensures-map (λ _ _ a'. buried-Settled a') (supervisor_note_task_death c k')
            (supervisor_note_task_death-Ahead h.small a)))

  bury-Settled : Ensures (bury c k) (λ _ k'. Settled k c k')
  unfolding bury dead
  bury-Settled = death-Settled _ (rw (==_refl c) h.current.slot)

-- The task is made ready, is blocked or dies, as its reason says.
pub settle-Settled :
    {k : Kernel} {c : ℕ} (r : ReturnReason)
    → r ≢ return_none
    → Leaving k c r
    → Ensures (settle r c k) (λ _ k'. Settled k c k')
unfolding settle
settle-Settled return_none bad h = elim (bad refl) [ ]
settle-Settled return_yield bad h = put_states-Settled h runnable task_runnable refl refl refl
settle-Settled return_ipc_block bad h = put_states-Settled h runnable task_blocked refl refl refl
settle-Settled return_notify_block bad h = put_states-Settled h runnable task_blocked refl refl refl
settle-Settled return_fault bad h = bury-Settled h refl
settle-Settled {k} {c} return_exit bad h =
    let (out, e) = print_all-Prints (exit_texts (k.threads c).user.name) k in
    rw e (Ensures-map (λ _ k' s. of_printed out k' s) _ (bury-Settled (printed out) refl))
  where
    printed : (out : List ℕ) → Leaving (record k { uart = out }) c return_exit
    printed out = record {
      sound = h.sound;
      current = h.current;
      small = h.small;
      thread_running = h.thread_running;
      task_runs = h.task_runs;
      reason = h.reason;
      asleep = h.asleep;
    }

    of_printed :
        (out : List ℕ) (k' : Kernel) → Settled (record k { uart = out }) c k' → Settled k c k'
    of_printed out k' s = record {
      sound = s.sound;
      current = s.current;
      rests = s.rests;
      asleep = s.asleep;
      kept = s.kept;
    }
