-- ===== src/System/Steps.antt =====
-- The steps keep the kernel alive.
use d_rpi_proto_os.Base.{
  ℕ, ◌<◌, ◌≡◌, ◌≢◌, true, false, arith, ◌==◌, ==_of_ne, ap, ◌∙◌, if◌then◌else◌,
}
use d_rpi_proto_os.Config.{thread_count}
use d_rpi_proto_os.State.{Kernel, TrapFrame, Build, ReturnReason}
use d_rpi_proto_os.State.Effect.{Ensures, Ensures->>=, skip}
use d_rpi_proto_os.Task.{save_frame}
use d_rpi_proto_os.Ipc.Range.{InSandbox}
use d_rpi_proto_os.Handling.{Trapped}
use d_rpi_proto_os.Trap.{exception_sync_el0}
use d_rpi_proto_os.Trap.Handled.{Served, Exit, returns, redirects, exception_sync_el0-Served}
use d_rpi_proto_os.Return.{user_task_return_to_kernel}
use d_rpi_proto_os.Return.Alive.{Linked, Parked, Running, Alive, runs}
use d_rpi_proto_os.Return.Settle.{Leaving}
use d_rpi_proto_os.Return.Step.{Parked-Kept, user_task_return_to_kernel-Alive}
use d_rpi_proto_os.System.{serve_el0, entered}

module _ {b : Build} {k : Kernel} {c : ℕ} (l : Linked b) (h : Running b k c) (tf : TrapFrame)
    (m : ℕ → ℕ) where
  -- A running task's trap.
  entered-Trapped : InSandbox tf.elr → Trapped (entered tf m k) c
  entered-Trapped inside = record {
    sound = h.sound;
    current = record {
      current_eq = h.current.current_eq;
      task_eq = h.current.task_eq;
      kind = h.current.kind;
      slot = h.current.slot;
    };
    small = h.small;
    thread_running = h.thread_running;
    task_runs = h.task_runs;
    no_reason = h.no_reason;
    asleep = h.asleep;
    elr = inside;
  }

  others-Parked :
      {k' : Kernel}
      → Served b (entered tf m k) c k'
      → (s : ℕ) → s < thread_count
      → s ≢ c
      → Parked b s (k'.threads s)
  others-Parked v s lt ne = Parked-Kept (v.kept s ne) (h.parked s lt ne)

  -- The task goes on with the result of its call.
  returns-Running :
      {k' : Kernel} → Served b (entered tf m k) c k' → k'.threads c ≡ k.threads c → Running b k' c
  returns-Running v same = record {
    sound = v.sound;
    current = v.current;
    small = h.small;
    thread_running = ap (λ t. t.state) same ∙ h.thread_running;
    task_runs = ap (λ t. t.user.state) same ∙ h.task_runs;
    no_reason = ap (λ t. t.user.return_reason) same ∙ h.no_reason;
    asleep = v.asleep;
    parked = others-Parked v;
  }

  -- The task comes back to the kernel.
  redirects-Leaving :
      {k' : Kernel} (reason : ReturnReason)
      → Served b (entered tf m k) c k'
      → k'.threads c ≡ record (k.threads c) { user = save_frame tf reason (k.threads c).user }
      → Leaving k' c reason
  unfolding save_frame
  redirects-Leaving reason v saved = record {
    sound = v.sound;
    current = v.current;
    small = h.small;
    thread_running = ap (λ t. t.state) saved ∙ h.thread_running;
    task_runs = ap (λ t. t.user.state) saved ∙ h.task_runs;
    reason = ap (λ t. t.user.return_reason) saved;
    asleep = v.asleep;
  }

  -- If the addresses of the build are right and user task c runs in a state that satisfies the
  -- invariant, then whatever frame an exception saves, with a program counter in the sandbox, and
  -- whatever the memory holds, the exception is served without a panic: the handler, the return
  -- step, the scheduler and the next thread end in a state in which one user task or the idle
  -- thread runs, all others are parked, and the invariant holds.
  pub serve_el0-Alive :
      InSandbox tf.elr → Ensures (serve_el0 b (entered tf m k)) (λ _ k'. Alive b k')
  unfolding serve_el0
  serve_el0-Alive inside =
      Ensures->>= (λ _ k'. Served b (entered tf m k) c k') (λ _ k''. Alive b k'')
        (exception_sync_el0 b) _ (entered tf m k)
        (exception_sync_el0-Served b (entered-Trapped inside)) (λ _ k' v. leave k' v v.exit)
    where
      leave :
          (k' : Kernel)
          → Served b (entered tf m k) c k'
          → Exit b (entered tf m k) c k'
          → Ensures
              ((if k'.frame.elr == b.user_task_return_to_kernel
                  then user_task_return_to_kernel b
                  else skip)
                k')
              (λ _ k''. Alive b k'')
      leave k' v (returns result same frame) =
          let elr : k'.frame.elr ≡ tf.elr = ap (λ f. f.elr) frame in
          let away : (k'.frame.elr == b.user_task_return_to_kernel) ≡ false =
            ==_of_ne _ _ (λ e. ground (arith, e, elr, inside, l.outside)) in
          rw away (runs c (returns-Running v same))
      leave k' v (redirects reason some_reason saved to_kernel _) =
          let there : (k'.frame.elr == b.user_task_return_to_kernel) ≡ true =
            ground (arith, to_kernel) in
          rw there (
            user_task_return_to_kernel-Alive l (redirects-Leaving reason v saved) (others-Parked v)
              some_reason)
