-- ===== src/Return/Step.antt =====
-- `user_task_return_to_kernel`: from a redirected trap to the next user code, or to the idle loop.
use d_rpi_proto_os.Base.{
  ℕ, ◌<◌, ◌≡◌, ◌≢◌, refl, true, false, Option, some, none, arith, ◌==◌, ==_refl, if◌then◌else◌, sym,
  ap, ◌∙◌, ==_of_ne, eq_of_==, Bool-cases, inl, inr,
}
use mathlib.Core.Path.{subst}
use d_rpi_proto_os.Config.{thread_count, thread_slot_idle}
use d_rpi_proto_os.State.{Kernel, Thread, Build, ReturnReason, return_none, running}
use d_rpi_proto_os.State.Effect.{M, Ensures, Ensures->>=, Ensures-map, ◌>>◌, skip}
use d_rpi_proto_os.Thread.{
  thread_is_selectable, thread_request_resched, thread_resched_point, points_to,
}
use d_rpi_proto_os.Thread.Current.{IsCurrent, current_user_task_lem}
use d_rpi_proto_os.Handling.{Kept}
use d_rpi_proto_os.Return.Alive.{Linked, Parked, Alive, runs, idles, Chosen}
use d_rpi_proto_os.Return.Resume.{
  return_step_second-Running, continue_thread-Running, continue_thread-Idling,
}
use d_rpi_proto_os.Return.Exchange.{AtPoint}
use d_rpi_proto_os.Return.Schedule.{Scheduled, stays_on, switches, thread_resched_point-Scheduled}
use d_rpi_proto_os.Return.Settle.{Leaving, Settled, settle-Settled}
use d_rpi_proto_os.Return.{
  settle, return_step_first, return_step_second, resume_el0, continue_thread,
  user_task_return_to_kernel,
}

-- What another thread was parked with is kept.
pub Parked-Kept : {b : Build} {s : ℕ} {t t' : Thread} → Kept t t' → Parked b s t → Parked b s t'
Parked-Kept k p = record {
  user_entry = rw (k.0) p.user_entry;
  user_arg = rw (k.0) p.user_arg;
  user_some = rw (k.0) p.user_some;
  user_reason = λ fresh lt. k.1 (p.user_reason (ap (λ x. x.lr) (sym k.0) ∙ fresh) lt);
  idle_entry = rw (k.0) p.idle_entry;
}

-- A chosen thread goes on.
pub continue_thread-Alive :
    {b : Build} {k : Kernel} (next : ℕ)
    → Linked b
    → next < thread_count
    → (k.threads next).state ≡ running
    → Parked b next (k.threads next)
    → Chosen b k next
    → Ensures (continue_thread b next k) (λ _ k'. Alive b k')
continue_thread-Alive {b} {k} next l lt on p h = elim (Bool-cases (next == thread_slot_idle)) [
  | inl e ↦
      let at : next ≡ thread_slot_idle = eq_of_== next thread_slot_idle e in
      subst (λ n. Ensures (continue_thread b n k) (λ _ k'. Alive b k')) (sym at)
        (Ensures-map (λ _ _ i. idles i) _
          (continue_thread-Idling (subst (Chosen b k) at h)
            (subst (λ n. (k.threads n).state ≡ running) at on)
            (subst (λ n. Parked b n (k.threads n)) at p)))
  | inr e ↦ Ensures-map (λ _ _ r. runs next r) _ (continue_thread-Running h (ground arith) l p)
]

module _ {b : Build} (l : Linked b) {k : Kernel} {c : ℕ} {r : ReturnReason} (h : Leaving k c r)
    (parked : (s : ℕ) → s < thread_count → s ≢ c → Parked b s (k.threads s)) where
  -- The point that the scheduling starts from, and what it has come to.
  pub record Returned (k' : Kernel) : Type 0 where
    pub before : Kernel
    pub point : AtPoint b before c
    pub task : IsCurrent before c
    pub scheduled : Scheduled b before c k'

  at_point : {k' : Kernel} → Settled k c k' → AtPoint b (thread_request_resched k') c
  unfolding thread_request_resched
  at_point s = record {
    sound = s.sound;
    current = s.current.current_eq;
    small = ground (arith, h.small);
    rests = s.rests;
    asleep = s.asleep;
    parked = λ n lt ne. Parked-Kept (s.kept n ne) (parked n lt ne);
  }

  rescheduled :
      {k' : Kernel}
      → Settled k c k'
      → Ensures (thread_resched_point b (thread_request_resched k')) (λ _ k''. Returned k'')
  unfolding thread_request_resched
  rescheduled {k'} s =
      let p = at_point s in
      Ensures-map {Q = λ _ k''. Returned k''}
        (λ _ k'' sched. record {
          before = record (thread_request_resched k') { resched_pending = false };
          point = record {
            sound = p.sound;
            current = p.current;
            small = p.small;
            rests = p.rests;
            asleep = p.asleep;
            parked = p.parked;
          };
          task = record {
            current_eq = s.current.current_eq;
            task_eq = s.current.task_eq;
            kind = s.current.kind;
            slot = s.current.slot;
          };
          scheduled = sched;
        })
        _ (thread_resched_point-Scheduled l p refl)

  own-Leaving : Leaving k c (k.threads c).user.return_reason
  own-Leaving = record {
    sound = h.sound;
    current = h.current;
    small = h.small;
    thread_running = h.thread_running;
    task_runs = h.task_runs;
    reason = refl;
    asleep = h.asleep;
  }

  return_step_first-Returned :
      r ≢ return_none → Ensures (return_step_first b k) (λ _ k'. Returned k')
  unfolding return_step_first
  return_step_first-Returned some_reason =
      rw
        (
          current_user_task_lem "invalid current user task" k c h.current,
          Ensures,
          return_step_first,
        )
        (Ensures->>= (λ _ k'. Settled k c k') (λ _ k'. Returned k')
          (settle (k.threads c).user.return_reason c) _ k
          (settle-Settled _ (λ e. some_reason (sym h.reason ∙ e)) own-Leaving)
          (λ _ k' s. rescheduled s))

  -- The thread itself goes on.
  again-Chosen :
      {k' : Kernel} → AtPoint b k' c → thread_is_selectable (k'.threads c) ≡ true → Chosen b k' c
  unfolding thread_is_selectable
  again-Chosen {k'} p ready =
      let ok = p.sound.threads_ok c p.small in
      record {
        sound = p.sound;
        current = p.current;
        live = ground arith;
        ready = λ lt. ground (arith, ok.kind);
        awake = λ lt. ground (arith, ok.kind, p.rests);
        rests = λ _. p.rests;
        asleep = p.asleep;
        parked = p.parked;
      }

  finish : Option ℕ → M (Unit {0})
  finish after = elim after [
    | none ↦ skip
    | some n ↦
        if points_to k.current n
        then (do return_step_second n; resume_el0 b)
        else continue_thread b n
  ]

  finish-Alive :
      {before k' : Kernel}
      → AtPoint b before c
      → Scheduled b before c k'
      → Ensures (finish k'.current k') (λ _ k''. Alive b k'')
  unfolding finish
  finish-Alive {before} p (stays_on (inl e)) = elim (ℕ-absurd e) [ ]
    where
      ℕ-absurd : c ≡ thread_slot_idle → ⊥
      ℕ-absurd e = ground (arith, h.small, e)
  finish-Alive {before} p (stays_on (inr ready)) =
      subst (λ after. Ensures (finish after before) (λ _ k''. Alive b k'')) (sym p.current)
        (rw (h.current.current_eq, ==_refl c)
          (Ensures-map {Q = λ _ k''. Alive b k''} (λ _ _ run. runs c run) _
            (return_step_second-Running (again-Chosen p ready) h.small l)))
  finish-Alive {before} {k'} p (switches next lt ne on at chosen) =
      subst (λ after. Ensures (finish after k') (λ _ k''. Alive b k'')) (sym chosen.current)
        (rw (h.current.current_eq, ==_of_ne c next (λ e. ne (sym e)))
          (continue_thread-Alive next l lt on at chosen))

  -- If user task c comes back for a reason other than none, the other threads are parked and the
  -- addresses of the build are right, the return step and what follows it do not panic: one user
  -- task or the idle thread runs afterwards, all others are parked, and the invariant holds.
  pub user_task_return_to_kernel-Alive :
      r ≢ return_none → Ensures (user_task_return_to_kernel b k) (λ _ k'. Alive b k')
  unfolding user_task_return_to_kernel finish
  user_task_return_to_kernel-Alive some_reason =
      Ensures->>= (λ _ k'. Returned k') (λ _ k''. Alive b k'') (return_step_first b)
        (λ _ k'. finish k'.current k') k (return_step_first-Returned some_reason)
        (λ _ k' ret. finish-Alive ret.point ret.scheduled)
