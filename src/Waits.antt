-- ===== src/Waits.antt =====
-- Who waits where. A blocked task is recorded in one of the places below: as the caller or the receiver
-- of an endpoint, or as the waiting supervisor. This is the view of core/ipc.c and core/supervisor.c
-- in which the records and the states of the tasks agree.
pub mod Table
use d_rpi_proto_os.Base.{
  ℕ, zero, suc, ◌<◌, ◌≡◌, ◌≢◌, Bool, true, false, ◌&&◌, ◌||◌, not, ◌==◌, arith,
}
use d_rpi_proto_os.Config.{ep_count, slot_none, thread_slot_idle, thread_count}
use d_rpi_proto_os.State.{
  Kernel, Thread, Endpoint, TaskState, ReturnReason, is_stopped, is_blocked, task_running,
  return_ipc_block, return_notify_block, user_task, idle,
}
use Table.{Place, at_caller, at_receiver, at_supervisor, Agree}

-- The slot that a place records, in a table of endpoints and for a waiting supervisor.
abbrev pub place_slot : (ℕ → Endpoint) → ℕ → Place → ℕ
place_slot eps sup (at_caller i) = (eps i).blocked_caller_slot
place_slot eps sup (at_receiver i) = (eps i).blocked_receiver_slot
place_slot eps sup at_supervisor = sup

abbrev pub waiter : Kernel → Place → ℕ
waiter k = place_slot k.endpoints k.blocked_supervisor_slot

abbrev pub is_block_reason : ReturnReason → Bool
is_block_reason return_ipc_block = true
is_block_reason return_notify_block = true
is_block_reason _ = false

abbrev pub is_task_running : TaskState → Bool
is_task_running task_running = true
is_task_running _ = false

-- The task is blocked, or its trap was redirected and its return will block it.
abbrev pub is_waiting : Thread → Bool
is_waiting t =
    not (is_stopped t.state)
    && (is_blocked t.user.state
        || (is_task_running t.user.state && is_block_reason t.user.return_reason))

abbrev pub waiting : Kernel → ℕ → Bool
waiting k s = is_waiting (k.threads s)
