-- ===== src/Boot.antt =====
-- kernel/core/thread.c: the initial threads; kernel/core/init.c: the order in which `kernel_main` sets
-- the kernel up.
pub mod Sound
pub mod Start
use d_rpi_proto_os.Base.{
  ℕ, ◌+◌, ◌*◌, ◌/◌, Bool, false, ◌||◌, not, Option, none, some, ◌==◌, if◌then◌else◌, ltb, leb,
}
use d_rpi_proto_os.Config.{
  thread_slot_task_a, thread_slot_task_b, thread_slot_task_c, thread_slot_idle,
  thread_quantum_ticks, el0_sandbox_base, el0_code_end, el0_task_a_stack_bottom,
  el0_task_a_stack_top, el0_task_b_stack_bottom, el0_task_b_stack_top, el0_task_c_stack_bottom,
  el0_task_c_stack_top,
}
use d_rpi_proto_os.State.{
  Kernel, Thread, ThreadKind, Build, runnable, idle, user_task, task_dead, return_none,
}
use d_rpi_proto_os.State.Effect.{M, ◌>>◌, modify, skip, put_thread, panic}
use d_rpi_proto_os.Task.{user_task_init}
use d_rpi_proto_os.Ipc.{ipc_init}
use d_rpi_proto_os.Supervisor.{supervisor_init}
use Prim.Native.String.{String}

abbrev pub thread_stack_size : ℕ
thread_stack_size = 4096

-- The top of a stack, rounded down to 16 bytes.
unfoldable pub stack_top : ℕ → ℕ → ℕ
stack_top stack size = (stack + size) / 16 * 16

abbrev outside_code : ℕ → Bool
outside_code entry = ltb entry el0_sandbox_base || leb el0_code_end entry

abbrev stacks_match : Build → Bool
stacks_match b = not (
    (not (b.task_c_stack_bottom == el0_task_c_stack_bottom)
      || not (b.task_c_stack_top == el0_task_c_stack_top))
    || ((not (b.task_a_stack_bottom == el0_task_a_stack_bottom)
          || not (b.task_a_stack_top == el0_task_a_stack_top))
        || (not (b.task_b_stack_bottom == el0_task_b_stack_bottom)
            || not (b.task_b_stack_top == el0_task_b_stack_top))))

unfoldable pub validate_el0_layout : Build → M (Unit {0})
validate_el0_layout b =
    if ltb el0_code_end b.sandbox_end
    then panic "EL0 code exceeds reserved region"
    else if outside_code b.task_a_entry
    then panic "task_a entry outside EL0 code region"
    else if outside_code b.task_b_entry
    then panic "task_b entry outside EL0 code region"
    else if outside_code b.task_c_entry
    then panic "task_c entry outside EL0 code region"
    else if not (stacks_match b)
    then panic "EL0 stack symbol mismatch"
    else skip

unfoldable pub thread_init_slot :
    Build → ℕ → ThreadKind → Option String → ℕ → ℕ → ℕ → Thread → Thread
thread_init_slot b slot kind name entry arg stack t = record {
  ctx = record {
    x19 = entry;
    x20 = arg;
    x21 = 0;
    x22 = 0;
    x23 = 0;
    x24 = 0;
    x25 = 0;
    x26 = 0;
    x27 = 0;
    x28 = 0;
    x29 = 0;
    sp = stack_top stack thread_stack_size;
    lr = b.thread_bootstrap;
  };
  state = runnable;
  kind = kind;
  quantum_left = thread_quantum_ticks;
  slot = slot;
  entry = entry;
  arg = arg;
  name = name;
  user = record (t.user) {
    state = task_dead;
    return_reason = return_none;
    user_entry = 0;
    user_sp = 0;
    ttbr0_future = 0;
    name = none;
    started = false;
  };
}

-- A user task's thread: the slot, then the task in it. sizeof(struct thread) is 464.
unfoldable pub init_user_thread : Build → ℕ → String → String → ℕ → ℕ → ℕ → Kernel → Kernel
init_user_thread b slot thread_name task_name stack entry sp k =
    put_thread slot
      (user_task_init (some task_name) entry sp (
        thread_init_slot b slot user_task (some thread_name) b.thread_entry_user_task
          (b.threads_base + slot * 464) stack (k.threads slot)))
      k

abbrev pub reset_scheduler : Kernel → Kernel
reset_scheduler k = record k {
  sched_ticks = 0;
  resched_pending = false;
  current = none;
  current_task = none;
}

-- `thread_system_init` past the check of the layout.
unfoldable pub init_threads : Build → Kernel → Kernel
init_threads b k =
    let k1 =
      init_user_thread b thread_slot_task_a "task_a_thread" "task_a" b.stack_task_a b.task_a_entry
        b.task_a_stack_top k in
    let k2 =
      init_user_thread b thread_slot_task_b "task_b_thread" "task_b" b.stack_task_b b.task_b_entry
        b.task_b_stack_top k1 in
    let k3 =
      init_user_thread b thread_slot_task_c "task_c_thread" "task_c" b.stack_task_c b.task_c_entry
        b.task_c_stack_top k2 in
    put_thread thread_slot_idle
      (thread_init_slot b thread_slot_idle idle (some "idle") b.thread_entry_idle 0 b.stack_idle
        (k3.threads thread_slot_idle))
      k3

unfoldable pub thread_system_init : Build → M (Unit {0})
thread_system_init b = do modify reset_scheduler; validate_el0_layout b; modify (init_threads b)

-- `kernel_main`, from `thread_system_init` to `supervisor_init`.
unfoldable pub kernel_setup : Build → M (Unit {0})
kernel_setup b = do thread_system_init b; modify (ipc_init b); modify supervisor_init
