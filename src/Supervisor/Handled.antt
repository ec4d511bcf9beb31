-- ===== src/Supervisor/Handled.antt =====
-- The system calls of core/supervisor.c, made by a running user task in a sound kernel, do not panic and keep
-- the kernel sound.
use d_rpi_proto_os.Base.{
  ℕ, ◌≡◌, refl, inl, inr, false, arith, ◌==◌, Bool-cases, eq_of_==, if◌then◌else◌,
}
use d_rpi_proto_os.Config.{slot_none, minus_one, thread_slot_task_b, thread_slot_task_c}
use d_rpi_proto_os.State.{Kernel, Build, return_notify_block}
use d_rpi_proto_os.State.Effect.{Ensures, done}
use d_rpi_proto_os.Thread.Current.{thread_current_user_slot_lem}
use d_rpi_proto_os.Task.{thread_user_restart, may_restart}
use d_rpi_proto_os.Task.Restart.{
  restarted-ThreadOk, restarted-waiting, restarted-Asleep, restarted-Kept,
}
use d_rpi_proto_os.Handling.{Trapped, Handled}
use d_rpi_proto_os.Handling.Ahead.{
  Ahead, Trapped-start, Ahead-death, Ahead-supervisor, Ahead-thread, Ahead-request,
}
use d_rpi_proto_os.Handling.Woken.{Ahead-goes_on, Ahead-leaves}
use d_rpi_proto_os.Supervisor.{supervisor_syscall_wait, supervisor_syscall_restart}

module _ {k : Kernel} {c : ℕ} (b : Build) (t : Trapped k c) where
  start : Ahead k c k false
  start = Trapped-start t

  refused : (r : ℕ) → Ensures (done r k) (λ _ k'. Handled b k c k')
  refused r = Ahead-goes_on b t start

  -- `SYS_supervise_wait`.
  pub supervisor_syscall_wait-Handled :
      Ensures (supervisor_syscall_wait b k) (λ _ k'. Handled b k c k')
  unfolding supervisor_syscall_wait
  supervisor_syscall_wait-Handled =
      rw (thread_current_user_slot_lem k c t.current, Ensures, supervisor_syscall_wait)
        (elim (Bool-cases (c == thread_slot_task_c)) [
          | inr other ↦ rw other (refused minus_one)
          | inl supervisor ↦ elim (Bool-cases (k.pending_death_slot == slot_none)) [
            | inr kept ↦
                rw (supervisor, kept) (Ahead-goes_on b t (Ahead-death t.small start slot_none))
            | inl none_kept ↦ elim (Bool-cases (k.blocked_supervisor_slot == slot_none)) [
              | inr busy ↦ rw (supervisor, none_kept, busy) (refused minus_one)
              | inl free ↦
                  let (goes, handled) =
                    Ahead-leaves b t return_notify_block (λ e. cc)
                      (Ahead-supervisor t.small start refl (eq_of_== _ _ free)) in
                  rw (supervisor, none_kept, free) (rw (goes, Ensures) handled)
            ]
          ]
        ])

  restart-Handled :
      c ≡ thread_slot_task_c
      → Ensures
          (let (restarted, k') = thread_user_restart thread_slot_task_b k in
            done (if restarted then 0 else minus_one) k')
          (λ _ k'. Handled b k c k')
  unfolding thread_user_restart
  restart-Handled supervisor = elim (Bool-cases (may_restart (k.threads thread_slot_task_b))) [
    | inl may ↦ rw may (
        Ahead-goes_on b t (
          Ahead-request t.small (
            Ahead-thread t.small start thread_slot_task_b _ (ground arith)
              (restarted-ThreadOk thread_slot_task_b _
                (t.sound.threads_ok thread_slot_task_b (omega arith)) may)
              (restarted-waiting _ may) (restarted-Asleep _) (restarted-Kept _))))
    | inr may_not ↦ rw may_not (refused minus_one)
  ]

  -- `SYS_task_restart`.
  pub supervisor_syscall_restart-Handled :
      (slot : ℕ) → Ensures (supervisor_syscall_restart slot k) (λ _ k'. Handled b k c k')
  unfolding supervisor_syscall_restart
  supervisor_syscall_restart-Handled slot =
      rw (thread_current_user_slot_lem k c t.current, Ensures, supervisor_syscall_restart)
        (elim (Bool-cases (c == thread_slot_task_c)) [
          | inr other ↦ rw other (refused minus_one)
          | inl supervisor ↦ elim (Bool-cases (slot == thread_slot_task_b)) [
            | inr other ↦ rw (supervisor, other) (refused minus_one)
            | inl server ↦
                rw (eq_of_== slot thread_slot_task_b server, supervisor)
                  (restart-Handled (eq_of_== c thread_slot_task_c supervisor))
          ]
        ])
