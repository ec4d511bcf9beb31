-- ===== src/Return/Resume.antt =====
-- A chosen thread goes on: behind its scheduling point, or at its start.
use d_rpi_proto_os.Base.{
  ℕ, ◌<◌, ◌≡◌, refl, Bool, true, some, arith, ◌==◌, Bool-cases, inl, inr, ==_refl, ap, sym,
  ==_of_ne, eq_of_==,
}
use d_rpi_proto_os.Config.{thread_slot_idle}
use d_rpi_proto_os.State.{Kernel, Thread, Build, running, task_running, return_none}
use d_rpi_proto_os.State.Effect.{Ensures, done, ◌>>◌, put_thread}
use d_rpi_proto_os.Task.Registers.{thread_current_user_ctx_lem}
use d_rpi_proto_os.Invariant.{ThreadOk, Sound-put_thread, Sound-ext}
use d_rpi_proto_os.Return.{
  return_step_second, resume_el0, thread_entry_user_task, thread_bootstrap, continue_thread,
}
use d_rpi_proto_os.Return.Alive.{Linked, Parked, Running, Idling, Chosen}

abbrev pub going : Bool → Thread → Thread
going started t = record t {
  state = running;
  user = record (t.user) { state = task_running; return_reason = return_none; started = started };
}

-- The current thread's user task is set going.
abbrev pub set_going : Bool → ℕ → Kernel → Kernel
set_going started c k = record (put_thread c (going started (k.threads c)) k) {
  current_task = some c;
}

-- `el0_resume` loads the context of a running task.
resume_el0-Running :
    {b : Build} {k : Kernel} {c : ℕ}
    → Linked b
    → Running b k c
    → Ensures (resume_el0 b k) (λ _ k'. Running b k' c)
unfolding resume_el0
resume_el0-Running {b} {k} {c} l r =
    let ok = r.sound.threads_ok c (ground (arith, r.small)) in
    rw (thread_current_user_ctx_lem b k c l.in_map r.small r.current (ok.elr r.small), Ensures)
      (record {
        sound = r.sound;
        current = r.current;
        small = r.small;
        thread_running = r.thread_running;
        task_runs = r.task_runs;
        no_reason = r.no_reason;
        asleep = r.asleep;
        parked = r.parked;
      })

module _ {b : Build} {k : Kernel} {c : ℕ} (h : Chosen b k c) (small : c < thread_slot_idle) where
  going-ThreadOk : (started : Bool) → ThreadOk c (going started (k.threads c))
  going-ThreadOk started =
      let ok = h.sound.threads_ok c (omega arith) in
      record {
        kind = ok.kind;
        slot = ok.slot;
        lr = ok.lr;
        sp = ok.sp;
        elr = ok.elr;
        entry = ok.entry;
        dead = λ _. refl;
        idle_lives = λ _. refl;
      }

  pub set_going-Running : (started : Bool) → Running b (set_going started c k) c
  set_going-Running started =
      let ok = h.sound.threads_ok c (omega arith) in
      record {
        sound =
            Sound-ext (set_going started c k)
              (Sound-put_thread k c _ h.sound (going-ThreadOk started))
              (λ s lt. ground (arith, h.awake small, eq_of_== c s, ap k.threads));
        current = rw (==_refl c) (record {
          current_eq = h.current;
          task_eq = refl;
          kind = ground (arith, ok.kind);
          slot = ok.slot;
        });
        small = small;
        thread_running = rw (==_refl c) refl;
        task_runs = rw (==_refl c) refl;
        no_reason = rw (==_refl c) refl;
        asleep = λ s lt ne. ground (arith, h.asleep s lt ne);
        parked = λ s lt ne. rw (==_of_ne c s (λ e. ne (sym e))) (h.parked s lt ne);
      }

  return_step_second-going :
      return_step_second c k ≡ done tt (set_going (k.threads c).user.started c k)
  unfolding return_step_second
  return_step_second-going =
      let ok = h.sound.threads_ok c (omega arith) in
      ground (arith, h.current, ok.kind, h.live, h.ready small)

  -- The thread goes on behind its scheduling point, in its user task.
  pub return_step_second-Running :
      Linked b → Ensures ((return_step_second c >> resume_el0 b) k) (λ _ k'. Running b k' c)
  return_step_second-Running l =
      rw (return_step_second-going, Ensures)
        (resume_el0-Running l (set_going-Running (k.threads c).user.started))

  module _ (p : Parked b c (k.threads c)) (fresh : (k.threads c).ctx.lr ≡ b.thread_bootstrap) where
    thread_entry_user_task-going :
        thread_entry_user_task b (k.threads c).ctx.x20 k
        ≡ done tt (record (set_going true c k) { el0 = (k.threads c).user.ctx })
    unfolding thread_entry_user_task
    thread_entry_user_task-going =
        let ok = h.sound.threads_ok c (omega arith) in
        rw (==_of_ne _ 0 (p.user_some fresh small), p.user_arg fresh small, ok.kind)
          (rw (==_of_ne c thread_slot_idle (omega arith), p.user_reason fresh small) refl)

    thread_bootstrap-going :
        thread_bootstrap b c k
        ≡ done tt (record (set_going true c k) { el0 = (k.threads c).user.ctx })
    unfolding thread_bootstrap
    thread_bootstrap-going = ground (arith, p.user_entry fresh small, thread_entry_user_task-going)

  -- The thread starts its user task.
  pub continue_thread-Running :
      Linked b → Parked b c (k.threads c) → Ensures (continue_thread b c k) (λ _ k'. Running b k' c)
  unfolding continue_thread
  continue_thread-Running l p =
      let ok = h.sound.threads_ok c (omega arith) in
      elim (Bool-cases ((k.threads c).ctx.lr == b.thread_bootstrap)) [
        | inr going_on ↦
            rw (going_on, ok.kind)
              (rw (==_of_ne c thread_slot_idle (omega arith)) (return_step_second-Running l))
        | inl fresh ↦
            let r = set_going-Running true in
            rw (fresh, thread_bootstrap-going p (eq_of_== _ _ fresh), Ensures)
              (record {
                sound = r.sound;
                current = r.current;
                small = r.small;
                thread_running = r.thread_running;
                task_runs = r.task_runs;
                no_reason = r.no_reason;
                asleep = r.asleep;
                parked = r.parked;
              })
      ]

-- The idle thread goes on, or starts: neither changes anything.
pub continue_thread-Idling :
    {b : Build} {k : Kernel}
    → Chosen b k thread_slot_idle
    → (k.threads thread_slot_idle).state ≡ running
    → Parked b thread_slot_idle (k.threads thread_slot_idle)
    → Ensures (continue_thread b thread_slot_idle k) (λ _ k'. Idling b k')
unfolding continue_thread thread_bootstrap
continue_thread-Idling {b} {k} h on p =
    let ok = h.sound.threads_ok thread_slot_idle (omega arith) in
    let idling : Idling b k = record {
      sound = h.sound;
      current = h.current;
      thread_running = on;
      rests = h.rests refl;
      asleep = h.asleep;
      parked = h.parked;
    } in
    elim (Bool-cases ((k.threads thread_slot_idle).ctx.lr == b.thread_bootstrap)) [
      | inr going_on ↦ rw (going_on, ok.kind) idling
      | inl fresh ↦ rw (fresh, ==_of_ne _ _ (p.idle_entry (eq_of_== _ _ fresh) refl)) idling
    ]
