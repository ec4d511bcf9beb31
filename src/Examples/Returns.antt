-- ===== src/Examples/Returns.antt =====
-- Tests of the way back to user code: the kernel with task A on the processor.
use d_rpi_proto_os.Base.{
  ◌≡◌, ℕ, ◌<◌, ◌≢◌, inl, inr, refl, sym, ap, ==_of_ne, ==_refl, eq_of_==, update_ne, arith, update,
}
use mathlib.Core.Path.{subst}
use d_rpi_proto_os.Config.{micro, Flavor, thread_count}
use d_rpi_proto_os.State.{Kernel, Build, TrapFrame, return_yield}
use d_rpi_proto_os.State.Effect.{Outcome, Ensures, done, panicked, put_thread}
use d_rpi_proto_os.Task.{user_task_init, save_frame}
use d_rpi_proto_os.Ipc.{ipc_init}
use d_rpi_proto_os.Supervisor.{supervisor_init}
use d_rpi_proto_os.Boot.{init_threads, init_user_thread, thread_init_slot, kernel_setup}
use d_rpi_proto_os.Waits.{waiting}
use d_rpi_proto_os.Ipc.Range.{InSandbox}
use d_rpi_proto_os.Invariant.{ThreadOk, Sound-put_thread, Sound-ext}
use d_rpi_proto_os.Return.{user_task_return_to_kernel, thread_start}
use d_rpi_proto_os.Return.Alive.{Linked, Parked, Running, Alive}
use d_rpi_proto_os.Return.Settle.{Leaving}
use d_rpi_proto_os.Return.Step.{user_task_return_to_kernel-Alive}
use d_rpi_proto_os.Config.{bench_off}
use d_rpi_proto_os.Devices.{exception_irq}
use d_rpi_proto_os.Examples.Blank.{timer_hardware, quiet_devices}
use d_rpi_proto_os.System.{serve_el0, entered, Reached, started, interrupted}
use d_rpi_proto_os.System.Reachable.{Reached-Alive, Reached-serves}
use d_rpi_proto_os.Boot.Start.{Booted, kernel_setup-Booted, thread_start-Running}
use d_rpi_proto_os.Boot.Sound.{below_four}
use d_rpi_proto_os.Examples.{
  build, build-LaidOut, powered_on, trapped, trapped-Trapped, frame_of, svc_esr,
}

pub build-Linked : (f : Flavor) → Linked (build f)
build-Linked f = record {
  in_map = (omega arith, omega arith);
  live_lr = λ k. omega arith;
  live_sp = λ k. omega arith;
  outside = inl (omega arith);
  entries = omega arith;
  live_call = λ k. omega arith;
}

abbrev going : Kernel
going = trapped micro (frame_of (λ _. 0) svc_esr)

parked : (s : ℕ) → s < thread_count → s ≢ 0 → Parked (build micro) s (going.threads s)
unfolding init_threads init_user_thread thread_init_slot user_task_init supervisor_init ipc_init
parked s lt ne = elim (below_four s lt) [
  | inl e ↦ elim (ne e) [ ]
  | inr (inl e) ↦ rw e (record {
    user_entry = λ _ _. refl;
    user_arg = λ _ _. refl;
    user_some = λ _ _. omega arith;
    user_reason = λ _ _. refl;
    idle_entry = λ _ idle. omega arith;
  })
  | inr (inr (inl e)) ↦ rw e (record {
    user_entry = λ _ _. refl;
    user_arg = λ _ _. refl;
    user_some = λ _ _. omega arith;
    user_reason = λ _ _. refl;
    idle_entry = λ _ idle. omega arith;
  })
  | inr (inr (inr e)) ↦ rw e (record {
    user_entry = λ _ small. ground arith;
    user_arg = λ _ small. omega arith;
    user_some = λ _ small. omega arith;
    user_reason = λ _ small. ground arith;
    idle_entry = λ _ _. omega arith;
  })
]

going-Running : Running (build micro) going 0
going-Running =
    let t = trapped-Trapped micro (λ _. 0) svc_esr in
    record {
      sound = t.sound;
      current = t.current;
      small = t.small;
      thread_running = t.thread_running;
      task_runs = t.task_runs;
      no_reason = t.no_reason;
      asleep = t.asleep;
      parked = parked;
    }

-- Task A leaves through `SYS_exit`.
abbrev exit_frame : TrapFrame
exit_frame = frame_of (update (λ _. 0) 8 3) svc_esr

-- The kernel's start, as a run that ends in a state.
ends :
    (P : Unit {0} → Kernel → Type 0) (o : Outcome (Unit {0}))
    → Ensures o P
    → (k : Kernel) × (o ≡ done tt k)
ends P (done a k) h = (k, refl)
ends P (panicked msg k) h = elim h [ ]

set_up : (k : Kernel) × (kernel_setup (build micro) powered_on ≡ done tt k)
set_up =
    ends (λ _ k. Booted (build micro) k) _
      (kernel_setup-Booted (build micro) powered_on (build-LaidOut micro) (build-Linked micro))

set_up-Booted : Booted (build micro) set_up.0
set_up-Booted =
    subst (λ o. Ensures o (λ _ k. Booted (build micro) k)) set_up.1
      (kernel_setup-Booted (build micro) powered_on (build-LaidOut micro) (build-Linked micro))

first_run : (k : Kernel) × (thread_start (build micro) set_up.0 ≡ done tt k)
first_run =
    ends (λ _ k. Running (build micro) k 0) _
      (thread_start-Running (build-Linked micro) set_up-Booted)

first_run-Reached : Reached (build micro) first_run.0
first_run-Reached =
    started powered_on set_up.0 set_up.0 first_run.0 set_up.1 (set_up.0.uart, refl) first_run.1

first_run-Running : Running (build micro) first_run.0 0
first_run-Running =
    subst (λ o. Ensures o (λ _ k. Running (build micro) k 0)) first_run.1
      (thread_start-Running (build-Linked micro) set_up-Booted)

Reached-Alive_example :
    Alive (build micro) (exception_irq timer_hardware bench_off quiet_devices first_run.0).1
Reached-Alive_example =
    Reached-Alive (build-LaidOut micro) (build-Linked micro)
      (interrupted timer_hardware quiet_devices first_run.0 first_run-Reached)

Reached-serves_example :
    Ensures
      (serve_el0 (build micro) (entered exit_frame first_run.0.mem first_run.0))
      (λ _ k'. Reached (build micro) k')
Reached-serves_example =
    Reached-serves 0 exit_frame first_run.0.mem (build-LaidOut micro) (build-Linked micro)
      first_run-Reached first_run-Running.current.current_eq (omega arith)
      (omega arith, omega arith) (λ a h. refl)

abbrev yielded : TrapFrame → ℕ → Kernel → Kernel
yielded tf c k =
    put_thread c (record (k.threads c) { user = save_frame tf return_yield (k.threads c).user }) k

-- A running task whose trap was redirected for the reason yield.
yields :
    {b : Build} {k : Kernel} {c : ℕ}
    → Running b k c
    → (tf : TrapFrame) → InSandbox tf.elr
    → Leaving (yielded tf c k) c return_yield
unfolding save_frame
yields {b} {k} {c} r tf inside = record {
  sound =
      Sound-ext (yielded tf c k)
        (Sound-put_thread k c _ r.sound (record {
          kind = ok.kind;
          slot = ok.slot;
          lr = ok.lr;
          sp = ok.sp;
          elr = λ _. inside;
          entry = ok.entry;
          dead = ok.dead;
          idle_lives = ok.idle_lives;
        }))
        (λ s lt.
          ground (arith, r.thread_running, r.task_runs, r.no_reason, eq_of_== c s, ap (waiting k)));
  current = rw (==_refl c) (record {
    current_eq = r.current.current_eq;
    task_eq = r.current.task_eq;
    kind = r.current.kind;
    slot = r.current.slot;
  });
  small = r.small;
  thread_running = rw (==_refl c) r.thread_running;
  task_runs = rw (==_refl c) r.task_runs;
  reason = rw (==_refl c) refl;
  asleep = λ s lt ne. rw (==_of_ne c s (λ e. ne (sym e))) (r.asleep s lt ne);
}
  where
    ok : ThreadOk c (k.threads c)
    ok = r.sound.threads_ok c (ground (arith, r.small))

-- Task A has yielded.
abbrev left : Kernel
left = yielded exit_frame 0 going

left-Leaving : Leaving left 0 return_yield
left-Leaving = yields going-Running exit_frame (omega arith, omega arith)

user_task_return_to_kernel-Alive_example :
    Ensures (user_task_return_to_kernel (build micro) left) (λ _ k'. Alive (build micro) k')
user_task_return_to_kernel-Alive_example =
    user_task_return_to_kernel-Alive (build-Linked micro) left-Leaving
      (λ s lt ne.
        subst (Parked (build micro) s) (sym (update_ne going.threads 0 _ s (λ e. ne (sym e))))
          (parked s lt ne))
      (λ e. cc)
