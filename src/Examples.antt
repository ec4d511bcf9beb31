-- ===== src/Examples.antt =====
-- A build and states for tests: the kernel after its initialisation, and with task A on the processor.
pub mod Traps
pub mod Messages
pub mod Notices
pub mod Scheduling
pub mod Tasks
pub mod Returns
pub mod Users
pub mod Platform
pub mod Assembly
pub mod Exceptions
pub mod Blank
use d_rpi_proto_os.Base.{
  ℕ, ◌+◌, ◌*◌, ◌^◌, ◌<◌, ◌≡◌, refl, Bool, false, true, Option, none, some, [], arith, ◌==◌, update,
}
use d_rpi_proto_os.Config.{
  mono, micro, Flavor, bench_off, thread_count, thread_slot_idle, el0_sandbox_base, el0_code_end,
  el0_task_a_stack_bottom, el0_task_a_stack_top, el0_task_b_stack_bottom, el0_task_b_stack_top,
  el0_task_c_stack_bottom, el0_task_c_stack_top,
}
use d_rpi_proto_os.State.{
  Kernel, Thread, ThreadCtx, UserTaskCtx, UserTask, TrapFrame, Endpoint, Build, running, stopped,
  idle, task_running, task_dead, return_none,
}
use d_rpi_proto_os.State.Effect.{put_thread}
use d_rpi_proto_os.Devices.{Hardware, Devices}
use d_rpi_proto_os.Task.{user_task_init}
use d_rpi_proto_os.Ipc.{ipc_init}
use d_rpi_proto_os.Supervisor.{supervisor_init}
use d_rpi_proto_os.Thread.Current.{IsCurrent}
use d_rpi_proto_os.Waits.{waiting}
use d_rpi_proto_os.Invariant.{ThreadOk, Inv, Sound-put_thread, Sound-ext}
use d_rpi_proto_os.Handling.{Trapped}
use d_rpi_proto_os.Boot.{
  init_threads, init_user_thread, thread_init_slot, reset_scheduler, kernel_setup,
  thread_system_init, validate_el0_layout, stack_top,
}
use d_rpi_proto_os.Boot.Sound.{LaidOut, kernel_setup-Inv}
use d_rpi_proto_os.Examples.Blank.{zero_ctx, zero_user_ctx, zero_thread, zero_endpoint}

-- The live registers of a thread that calls `context_switch` from kernel code.
abbrev pub live : ThreadCtx
live = record {
  x19 = 1;
  x20 = 2;
  x21 = 3;
  x22 = 4;
  x23 = 5;
  x24 = 6;
  x25 = 7;
  x26 = 8;
  x27 = 9;
  x28 = 10;
  x29 = 11;
  sp = 0x4020_0f00;
  lr = 0x4000_2468;
}

abbrev pub build : Flavor → Build
build flavor = record {
  flavor = flavor;
  mode = bench_off;
  threads_base = 0x4001_0000;
  stack_task_a = 0x4002_0000;
  stack_task_b = 0x4002_1000;
  stack_task_c = 0x4002_2000;
  stack_idle = 0x4002_3000;
  thread_bootstrap = 0x4000_1000;
  thread_entry_user_task = 0x4000_1100;
  thread_entry_idle = 0x4000_1200;
  user_task_return_to_kernel = 0x4000_1300;
  task_a_entry = el0_sandbox_base + 0x100;
  task_b_entry = el0_sandbox_base + 0x200;
  task_c_entry = el0_sandbox_base + 0x300;
  task_a_stack_bottom = el0_task_a_stack_bottom;
  task_a_stack_top = el0_task_a_stack_top;
  task_b_stack_bottom = el0_task_b_stack_bottom;
  task_b_stack_top = el0_task_b_stack_top;
  task_c_stack_bottom = el0_task_c_stack_bottom;
  task_c_stack_top = el0_task_c_stack_top;
  sandbox_end = el0_sandbox_base + 0x4000;
  live_regs = λ k. live;
}

pub build-LaidOut : (flavor : Flavor) → LaidOut (build flavor)
build-LaidOut flavor = record {
  code_fits = omega arith;
  task_a = omega arith;
  task_b = omega arith;
  task_c = omega arith;
  a_bottom = refl;
  a_top = refl;
  b_bottom = refl;
  b_top = refl;
  c_bottom = refl;
  c_top = refl;
  bootstrap = omega arith;
}

-- A trap with the syscall number and its arguments, from the code of the tasks.
abbrev pub frame_of : (ℕ → ℕ) → ℕ → TrapFrame
frame_of x esr = record {
  x = x;
  sp = el0_task_a_stack_top;
  elr = el0_sandbox_base + 0x140;
  spsr = 0;
  esr = esr;
  far = 0;
}

-- The exception syndrome of `svc #0`, and of a data abort from EL0.
abbrev pub svc_esr : ℕ
svc_esr = 0x15 * 2 ^ 26

abbrev pub abort_esr : ℕ
abort_esr = 0x24 * 2 ^ 26

-- Static data before the initialisation; memory holds the letter `A` everywhere.
abbrev pub powered_on : Kernel
powered_on = record {
  threads = λ _. zero_thread;
  current = none;
  current_task = none;
  boot_ctx = zero_ctx;
  sched_ticks = 0;
  resched_pending = false;
  endpoints = λ _. zero_endpoint;
  pending_death_slot = 0;
  blocked_supervisor_slot = 0;
  frame = frame_of (λ _. 0) 0;
  mem = λ _. 65;
  uart = [];
  el0 = zero_user_ctx;
}

abbrev pub ready : Flavor → Kernel
ready f = supervisor_init (ipc_init (build f) (init_threads (build f) (reset_scheduler powered_on)))

pub ready-Inv : (f : Flavor) → Inv (ready f)
unfolding kernel_setup thread_system_init validate_el0_layout
ready-Inv f = kernel_setup-Inv (build f) powered_on (build-LaidOut f)

abbrev pub set_going : Thread → Thread
set_going t = record t {
  state = running;
  user = record (t.user) { state = task_running; started = true };
}

pub set_going-ThreadOk : (s : ℕ) (t : Thread) → ThreadOk s t → ThreadOk s (set_going t)
set_going-ThreadOk s t ok = record {
  kind = ok.kind;
  slot = ok.slot;
  lr = ok.lr;
  sp = ok.sp;
  elr = ok.elr;
  entry = ok.entry;
  dead = λ _. refl;
  idle_lives = λ _. refl;
}

-- Task A runs, and has trapped with the given frame.
abbrev pub trapped : Flavor → TrapFrame → Kernel
trapped f tf = record (put_thread 0 (set_going ((ready f).threads 0)) (ready f)) {
  current = some 0;
  current_task = some 0;
  frame = tf;
}

pub trapped-Trapped : (f : Flavor) (x : ℕ → ℕ) (esr : ℕ) → Trapped (trapped f (frame_of x esr)) 0
unfolding supervisor_init ipc_init init_threads init_user_thread thread_init_slot user_task_init
trapped-Trapped f x esr = record {
  sound =
      Sound-ext (trapped f (frame_of x esr))
        (Sound-put_thread (ready f) 0 _ (ready-Inv f)
          (set_going-ThreadOk 0 _ ((ready-Inv f).threads_ok 0 (omega arith))))
        (λ s lt. ground arith);
  current = record { current_eq = refl; task_eq = refl; kind = refl; slot = refl };
  small = omega arith;
  thread_running = refl;
  task_runs = refl;
  no_reason = refl;
  asleep = λ s lt ne. (ground arith, ground arith);
  elr = omega arith;
}
