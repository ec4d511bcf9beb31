-- ===== src/Boot/Sound.antt =====
-- The state in which `kernel_main` starts the first thread.
use d_rpi_proto_os.Base.{ℕ, ◌≤◌, ◌<◌, ◌≡◌, ◌≢◌, ◌⊎◌, inl, inr, refl, false, arith, some}
use d_rpi_proto_os.Config.{
  thread_count, thread_slot_idle, el0_sandbox_base, el0_code_end, el0_task_a_stack_bottom,
  el0_task_a_stack_top, el0_task_b_stack_bottom, el0_task_b_stack_top, el0_task_c_stack_bottom,
  el0_task_c_stack_top, ep_count, slot_none,
}
use d_rpi_proto_os.State.{Kernel, Thread, Build, user_task, idle}
use d_rpi_proto_os.State.Effect.{done, Ensures}
use d_rpi_proto_os.Task.{user_task_init}
use d_rpi_proto_os.Ipc.{ipc_init}
use d_rpi_proto_os.Supervisor.{supervisor_init}
use d_rpi_proto_os.Waits.{waiter, waiting}
use d_rpi_proto_os.Waits.Table.{Place, IsPlace, at_caller, at_receiver, at_supervisor}
use d_rpi_proto_os.Invariant.{ThreadOk, EndpointOk, Inv}
use d_rpi_proto_os.Boot.{
  stack_top, thread_stack_size, validate_el0_layout, thread_init_slot, init_user_thread,
  init_threads, thread_system_init, kernel_setup, reset_scheduler,
}
use Prim.Native.String.{String}

-- An entry in the code region.
abbrev pub InCode : ℕ → Type 0
InCode entry = (el0_sandbox_base ≤ entry) × (entry < el0_code_end)

-- What the linker's addresses must satisfy.
pub record LaidOut (b : Build) : Type 0 where
  pub code_fits : b.sandbox_end ≤ el0_code_end
  pub task_a : InCode b.task_a_entry
  pub task_b : InCode b.task_b_entry
  pub task_c : InCode b.task_c_entry
  pub a_bottom : b.task_a_stack_bottom ≡ el0_task_a_stack_bottom
  pub a_top : b.task_a_stack_top ≡ el0_task_a_stack_top
  pub b_bottom : b.task_b_stack_bottom ≡ el0_task_b_stack_bottom
  pub b_top : b.task_b_stack_top ≡ el0_task_b_stack_top
  pub c_bottom : b.task_c_stack_bottom ≡ el0_task_c_stack_bottom
  pub c_top : b.task_c_stack_top ≡ el0_task_c_stack_top
  pub bootstrap : b.thread_bootstrap ≢ 0

pub validate_el0_layout_lem :
    (b : Build) (k : Kernel) → LaidOut b → validate_el0_layout b k ≡ done tt k
unfolding validate_el0_layout
validate_el0_layout_lem b k l = ground (
  arith, l.code_fits, l.task_a, l.task_b, l.task_c, l.a_bottom, l.a_top, l.b_bottom, l.b_top,
  l.c_bottom, l.c_top,
)

abbrev pub below_four : (s : ℕ) → s < thread_count → (s ≡ 0) ⊎ ((s ≡ 1) ⊎ ((s ≡ 2) ⊎ (s ≡ 3)))
below_four s lt = omega arith

stack_top-positive : (stack : ℕ) → stack_top stack thread_stack_size ≢ 0
unfolding stack_top
stack_top-positive stack = omega arith

-- A user task's thread after its initialisation.
user_slot-ThreadOk :
    (b : Build) (s : ℕ) (thread_name task_name : String) (entry sp arg stack : ℕ) (t : Thread)
    → LaidOut b
    → s < thread_slot_idle
    → InCode entry
    → ThreadOk s (
        user_task_init
          (some task_name)
          entry
          sp
          (thread_init_slot b s user_task (some thread_name) b.thread_entry_user_task arg stack t))
unfolding thread_init_slot user_task_init
user_slot-ThreadOk b s thread_name task_name entry sp arg stack t l lt code = record {
  kind = ground arith;
  slot = refl;
  lr = l.bootstrap;
  sp = stack_top-positive stack;
  elr = λ _. omega arith;
  entry = λ _. omega arith;
  dead = λ _. refl;
  idle_lives = λ _. refl;
}

idle_slot-ThreadOk :
    (b : Build) (t : Thread)
    → LaidOut b
    → ThreadOk thread_slot_idle (
        thread_init_slot b thread_slot_idle idle (some "idle") b.thread_entry_idle 0 b.stack_idle t)
unfolding thread_init_slot
idle_slot-ThreadOk b t l = record {
  kind = refl;
  slot = refl;
  lr = l.bootstrap;
  sp = stack_top-positive b.stack_idle;
  elr = λ lt. omega arith;
  entry = λ lt. omega arith;
  dead = λ lt. ground arith;
  idle_lives = λ _. refl;
}

init_threads-ThreadOk :
    (b : Build) (k : Kernel)
    → LaidOut b
    → (s : ℕ) → s < thread_count
    → ThreadOk s ((init_threads b k).threads s)
unfolding init_threads init_user_thread
init_threads-ThreadOk b k l s lt = elim (below_four s lt) [
  | inl e ↦ rw e (user_slot-ThreadOk b 0 _ _ _ _ _ _ _ l (omega arith) l.task_a)
  | inr (inl e) ↦ rw e (user_slot-ThreadOk b 1 _ _ _ _ _ _ _ l (omega arith) l.task_b)
  | inr (inr (inl e)) ↦ rw e (user_slot-ThreadOk b 2 _ _ _ _ _ _ _ l (omega arith) l.task_c)
  | inr (inr (inr e)) ↦ rw e (idle_slot-ThreadOk b _ l)
]

-- No task waits.
init_threads-waiting :
    (b : Build) (k : Kernel) (s : ℕ) → s < thread_slot_idle → waiting (init_threads b k) s ≡ false
unfolding init_threads init_user_thread user_task_init thread_init_slot
init_threads-waiting b k s lt = ground arith

ipc_init-cleared :
    (b : Build) (k : Kernel) (i : ℕ)
    → i < ep_count
    → EndpointOk ((ipc_init b k).endpoints i)
      × (((ipc_init b k).endpoints i).blocked_caller_slot ≡ slot_none)
      × (((ipc_init b k).endpoints i).blocked_receiver_slot ≡ slot_none)
unfolding ipc_init
ipc_init-cleared b k i lt = (
  record {
    owner = ground arith;
    reply_buf = ground arith;
    recv_buf = ground arith;
    fits = ground arith;
    unheard = λ e. ground arith;
  },
  ground arith,
  ground arith,
)

-- No place records a task.
boot_waiter :
    (b : Build) (k : Kernel) (p : Place)
    → IsPlace p
    → waiter (supervisor_init (ipc_init b k)) p ≡ slot_none
unfolding supervisor_init
boot_waiter b k (at_caller i) lt = (ipc_init-cleared b k i lt).1
boot_waiter b k (at_receiver i) lt = (ipc_init-cleared b k i lt).2
boot_waiter b k at_supervisor lt = refl

-- The state after the set-up.
pub setup-Inv :
    (b : Build) (k : Kernel)
    → LaidOut b
    → Inv (supervisor_init (ipc_init b (init_threads b (reset_scheduler k))))
unfolding supervisor_init ipc_init
setup-Inv b k l = record {
  threads_ok = init_threads-ThreadOk b (reset_scheduler k) l;
  endpoints_ok = λ i lt. (ipc_init-cleared b (init_threads b (reset_scheduler k)) i lt).0;
  waits = record {
    recorded =
        λ p okp busy. elim (busy (boot_waiter b (init_threads b (reset_scheduler k)) p okp)) [ ];
    unique = λ p q okp okq busy.
        elim (busy (boot_waiter b (init_threads b (reset_scheduler k)) p okp)) [ ];
    complete = λ s lt h. ground (arith, init_threads-waiting b (reset_scheduler k) s lt);
  };
}

-- If the entries of the tasks lie in the code region, the code fits in it, the stacks lie where the
-- configuration says and the bootstrap code is not at address 0, then the set-up from any state
-- does not panic, and the invariant holds after it.
pub kernel_setup-Inv :
    (b : Build) (k : Kernel) → LaidOut b → Ensures (kernel_setup b k) (λ _ k'. Inv k')
unfolding kernel_setup thread_system_init
kernel_setup-Inv b k l =
    rw (validate_el0_layout_lem b (reset_scheduler k) l, Ensures) (setup-Inv b k l)
