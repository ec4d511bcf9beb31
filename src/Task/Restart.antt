-- ===== src/Task/Restart.antt =====
-- The restart of a dead task.
use d_rpi_proto_os.Base.{
  ℕ, ◌<◌, ◌≡◌, ◌≢◌, ◌↔◌, Bool, true, false, arith, refl, sym, inl, inr, ==_refl, update_ne,
  Bool-cases,
}
use mathlib.Core.Path.{subst}
use d_rpi_proto_os.Config.{thread_count}
use d_rpi_proto_os.State.{Kernel, Thread, runnable, stopped, user_task, task_runnable, task_dead}
use d_rpi_proto_os.Task.{user_task_init, may_restart, has_name, thread_user_restart}
use d_rpi_proto_os.State.Effect.{put_thread}
use d_rpi_proto_os.Thread.{thread_request_resched}
use d_rpi_proto_os.Task.Registers.{clear_regs_lem}
use d_rpi_proto_os.Waits.{is_waiting}
use d_rpi_proto_os.Invariant.{ThreadOk}
use d_rpi_proto_os.Handling.{Asleep, Kept}

abbrev pub restarted : Thread → Thread
restarted t = record (user_task_init t.user.name t.user.user_entry t.user.user_sp t) {
  state = runnable;
}

pub restarted-ThreadOk :
    (s : ℕ) (t : Thread) → ThreadOk s t → may_restart t ≡ true → ThreadOk s (restarted t)
unfolding user_task_init
restarted-ThreadOk s t ok may = record {
  kind = ok.kind;
  slot = ok.slot;
  lr = ok.lr;
  sp = ok.sp;
  elr = ok.entry;
  entry = ok.entry;
  dead = λ _. refl;
  idle_lives = λ _. refl;
}

-- Neither the dead task nor the restarted one waits.
pub restarted-waiting :
    (t : Thread) → may_restart t ≡ true → is_waiting (restarted t) ≡ is_waiting t
unfolding user_task_init may_restart
restarted-waiting t may = ground arith

pub restarted-Asleep : (t : Thread) → Asleep (restarted t)
unfolding user_task_init
restarted-Asleep t = (refl, refl)

pub restarted-Kept : (t : Thread) → Kept t (restarted t)
unfolding user_task_init
restarted-Kept t = (refl, λ e. refl)

-- The conditions of `thread_user_restart`.
pub record Restartable (slot : ℕ) (t : Thread) : Type 0 where
  pub in_range : slot < thread_count
  pub kind : t.kind ≡ user_task
  pub dead : t.user.state ≡ task_dead
  pub thread_stopped : t.state ≡ stopped
  pub entry : t.user.user_entry ≢ 0
  pub sp : t.user.user_sp ≢ 0
  pub named : has_name t.user.name ≡ true

-- A restart succeeds exactly if the slot is in range and holds a user task that is dead, whose
-- thread has stopped, and that has an entry, a stack pointer and a name.
thread_user_restart_iff :
    (slot : ℕ) (k : Kernel)
    → ((thread_user_restart slot k).0 ≡ true) ↔ Restartable slot (k.threads slot)
unfolding thread_user_restart may_restart
thread_user_restart_iff slot k = (
  λ h. ground arith,
  λ r. ground (arith, r.in_range, r.kind, r.dead, r.thread_stopped, r.entry, r.sp, r.named),
)

-- A restarted task starts at its entry with its own stack pointer and all registers zero.
pub record Fresh (t new : Thread) : Type 0 where
  pub registers : (j : ℕ) → j < 31 → new.user.ctx.x j ≡ 0
  pub pc : new.user.ctx.elr ≡ t.user.user_entry
  pub stack : new.user.ctx.sp_el0 ≡ t.user.user_sp
  pub thread_state : new.state ≡ runnable
  pub task_state : new.user.state ≡ task_runnable

thread_user_restart-restarted :
    (slot : ℕ) (k : Kernel)
    → (thread_user_restart slot k).0 ≡ true
    → thread_user_restart slot k
      ≡ (true, thread_request_resched (put_thread slot (restarted (k.threads slot)) k))
unfolding thread_user_restart
thread_user_restart-restarted slot k ok = ground arith

restarted-Fresh : (t : Thread) → Fresh t (restarted t)
unfolding user_task_init
restarted-Fresh t = record {
  registers = λ j lt. ground (arith, clear_regs_lem 31 0 t.user.ctx.x j);
  pc = refl;
  stack = refl;
  thread_state = refl;
  task_state = refl;
}

-- What a restart of a slot gives: success on a restartable task, or failure without a change.
pub data Restarts (slot : ℕ) (k : Kernel) : Bool × Kernel → Type 0 where
  restarts :
      (k' : Kernel)
      → Restartable slot (k.threads slot)
      → Fresh (k.threads slot) (k'.threads slot)
      → k'.resched_pending ≡ true
      → ((s : ℕ) → s ≢ slot → k'.threads s ≡ k.threads s)
      → Restarts slot k (true, k')
  refuses : ¬ Restartable slot (k.threads slot) → Restarts slot k (false, k)

thread_user_restart-refused :
    (slot : ℕ) (k : Kernel)
    → (thread_user_restart slot k).0 ≡ false
    → thread_user_restart slot k ≡ (false, k)
unfolding thread_user_restart
thread_user_restart-refused slot k no_restart = ground arith

-- A restart either fails and changes nothing, and then the slot is out of range or holds no user
-- task that is dead, whose thread has stopped, and that has an entry, a stack pointer and a name;
-- or it succeeds on such a task, which then is ready at its entry with its stack pointer and 31
-- registers that are 0, a switch is requested, and the other threads are unchanged.
pub thread_user_restart-Restarts :
    (slot : ℕ) (k : Kernel) → Restarts slot k (thread_user_restart slot k)
unfolding thread_request_resched
thread_user_restart-Restarts slot k = elim (Bool-cases (thread_user_restart slot k).0) [
  | inl ok ↦ subst (Restarts slot k) (sym (thread_user_restart-restarted slot k ok)) (
      restarts _ ((thread_user_restart_iff slot k).0 ok)
        (rw (==_refl slot) (restarted-Fresh (k.threads slot))) refl
        (λ s ne. update_ne k.threads slot _ s (λ e. ne (sym e))))
  | inr refused ↦
      subst (Restarts slot k) (sym (thread_user_restart-refused slot k refused))
        (refuses (λ r. cc ((thread_user_restart_iff slot k).1 r, refused)))
]
