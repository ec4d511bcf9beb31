-- ===== src/State.antt =====
-- The kernel's data: `struct thread` and its parts (kernel/include/kernel/thread.h), `struct
-- trap_frame` (arch.h), `struct ipc_endpoint` (core/ipc.c), and all static variables of core/thread.c,
-- core/ipc.c and core/supervisor.c as one record, with what the hardware adds: the bytes of memory,
-- the UART's output and the registers that `el0_resume` loads. Words are numbers below 2 ^ w; an
-- `int32_t` slot is its bit pattern.
pub mod Effect
pub mod Output
use d_rpi_proto_os.Base.{ℕ, Bool, true, false, Option, List, ◌≡◌}
use d_rpi_proto_os.Config.{Flavor, BenchMode}
use Prim.Native.String.{String}

pub data ThreadState : Type 0 where
  runnable running stopped : ThreadState

pub data ThreadKind : Type 0 where
  idle user_task : ThreadKind

pub data TaskState : Type 0 where
  task_runnable task_running task_blocked task_dead : TaskState

pub data ReturnReason : Type 0 where
  return_none return_yield return_exit return_fault return_ipc_block return_notify_block :
      ReturnReason

-- The callee-saved registers that `context_switch` exchanges.
pub record ThreadCtx : Type 0 where
  pub x19 : ℕ
  pub x20 : ℕ
  pub x21 : ℕ
  pub x22 : ℕ
  pub x23 : ℕ
  pub x24 : ℕ
  pub x25 : ℕ
  pub x26 : ℕ
  pub x27 : ℕ
  pub x28 : ℕ
  pub x29 : ℕ
  pub sp : ℕ
  pub lr : ℕ

pub record UserTaskCtx : Type 0 where
  pub x : ℕ → ℕ
  pub sp_el0 : ℕ
  pub elr : ℕ
  pub spsr : ℕ

pub record UserTask : Type 0 where
  pub ctx : UserTaskCtx
  pub state : TaskState
  pub return_reason : ReturnReason
  pub user_entry : ℕ
  pub user_sp : ℕ
  pub ttbr0_future : ℕ
  pub name : Option String
  pub started : Bool

pub record Thread : Type 0 where
  pub ctx : ThreadCtx
  pub state : ThreadState
  pub kind : ThreadKind
  pub quantum_left : ℕ
  pub slot : ℕ
  pub entry : ℕ
  pub arg : ℕ
  pub name : Option String
  pub user : UserTask

pub record TrapFrame : Type 0 where
  pub x : ℕ → ℕ
  pub sp : ℕ
  pub elr : ℕ
  pub spsr : ℕ
  pub esr : ℕ
  pub far : ℕ

pub record Endpoint : Type 0 where
  pub owner_slot : ℕ
  pub has_pending : Bool
  pub pending_len : ℕ
  pub pending_msg : ℕ → ℕ
  pub blocked_caller_slot : ℕ
  pub caller_reply_ptr : ℕ
  pub caller_reply_cap : ℕ
  pub caller_result_override : ℕ
  pub blocked_receiver_slot : ℕ
  pub receiver_buf_ptr : ℕ
  pub receiver_buf_cap : ℕ

-- A pointer into `g_threads` is the index of the thread, and `none` is the null pointer. `frame` is
-- the trap frame of the exception that is being handled.
pub record Kernel : Type 0 where
  pub threads : ℕ → Thread
  pub current : Option ℕ
  pub current_task : Option ℕ
  pub boot_ctx : ThreadCtx
  pub sched_ticks : ℕ
  pub resched_pending : Bool
  pub endpoints : ℕ → Endpoint
  pub pending_death_slot : ℕ
  pub blocked_supervisor_slot : ℕ
  pub frame : TrapFrame
  pub mem : ℕ → ℕ
  pub uart : List ℕ
  pub el0 : UserTaskCtx

-- What the build decides: the flavor and the mode, and the addresses that the linker assigns.
-- `live_regs` gives the registers that compiled code holds when it calls `context_switch`.
pub record Build : Type 0 where
  pub flavor : Flavor
  pub mode : BenchMode
  pub threads_base : ℕ
  pub stack_task_a : ℕ
  pub stack_task_b : ℕ
  pub stack_task_c : ℕ
  pub stack_idle : ℕ
  pub thread_bootstrap : ℕ
  pub thread_entry_user_task : ℕ
  pub thread_entry_idle : ℕ
  pub user_task_return_to_kernel : ℕ
  pub task_a_entry : ℕ
  pub task_b_entry : ℕ
  pub task_c_entry : ℕ
  pub task_a_stack_bottom : ℕ
  pub task_a_stack_top : ℕ
  pub task_b_stack_bottom : ℕ
  pub task_b_stack_top : ℕ
  pub task_c_stack_bottom : ℕ
  pub task_c_stack_top : ℕ
  pub sandbox_end : ℕ
  pub live_regs : Kernel → ThreadCtx

-- Tests on the enumerations.
abbrev pub is_user_task : ThreadKind → Bool
is_user_task user_task = true
is_user_task idle = false

abbrev pub is_stopped : ThreadState → Bool
is_stopped stopped = true
is_stopped _ = false

abbrev pub is_running : ThreadState → Bool
is_running running = true
is_running _ = false

abbrev pub is_dead : TaskState → Bool
is_dead task_dead = true
is_dead _ = false

abbrev pub is_blocked : TaskState → Bool
is_blocked task_blocked = true
is_blocked _ = false
