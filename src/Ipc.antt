-- ===== src/Ipc.antt =====
-- kernel/core/ipc.c: synchronous call, receive and reply over a static table of endpoints.
mod Buffers
pub mod Range
pub mod Copy
pub mod Deliver
pub mod Death
pub mod Rendezvous
pub mod Handled
pub mod Received
pub mod Replied
pub mod Accepted
pub mod Channel
unfoldable pub use Buffers.*
use d_rpi_proto_os.Base.{
  ℕ, zero, suc, ◌+◌, ◌-◌, Bool, true, false, ◌&&◌, ◌||◌, not, ◌==◌, if◌then◌else◌, ltb, leb, update,
}
use d_rpi_proto_os.Config.{
  thread_slot_task_b, thread_slot_task_c, el0_sandbox_base, el0_sandbox_end, ipc_msg_size, ep_none,
  ep_uart, ep_bench, ep_count, slot_none, minus_one, bench_latency,
}
use d_rpi_proto_os.State.{Kernel, Endpoint, Build, return_ipc_block}
use d_rpi_proto_os.State.Effect.{M, done, pure, ◌>>=◌, ◌>>◌, gets, modify, skip, put_endpoint}
use d_rpi_proto_os.Thread.{thread_current_user_slot, thread_request_resched}
use d_rpi_proto_os.Task.{thread_user_wake_with_x0, thread_user_trap_redirect}

unfoldable pub ipc_init : Build → Kernel → Kernel
ipc_init b k = record k { endpoints = update (update table ep_uart uart_ep) ep_bench bench_ep }
  where
    cleared : Endpoint → Endpoint
    cleared ep = record {
      owner_slot = slot_none;
      has_pending = false;
      pending_len = 0;
      pending_msg = λ j. if ltb j ipc_msg_size then 0 else ep.pending_msg j;
      blocked_caller_slot = slot_none;
      caller_reply_ptr = 0;
      caller_reply_cap = 0;
      caller_result_override = 0;
      blocked_receiver_slot = slot_none;
      receiver_buf_ptr = 0;
      receiver_buf_cap = 0;
    }

    table : ℕ → Endpoint
    table i = if ltb i ep_count then cleared (k.endpoints i) else k.endpoints i

    uart_ep : Endpoint
    uart_ep = record (table ep_uart) { owner_slot = thread_slot_task_b }

    bench_ep : Endpoint
    bench_ep = elim b.mode [
      | bench_latency ↦ record (table ep_bench) { owner_slot = thread_slot_task_c }
      | _ ↦ table ep_bench
    ]

-- A waiting receiver is handed the message and woken; without one the message is kept.
unfoldable pub hand_to_receiver : ℕ → ℕ → ℕ → M (Unit {0})
hand_to_receiver ep_id send_ptr send_len = do
  k ← gets (λ k. k)
  let ep = k.endpoints ep_id
  let delivered = min_u64 send_len ep.receiver_buf_cap
  modify (λ k. record k { mem = bytes_copy_within delivered 0 k.mem ep.receiver_buf_ptr send_ptr })
  thread_user_wake_with_x0 ep.blocked_receiver_slot delivered
  modify (λ k. thread_request_resched (put_endpoint ep_id (endpoint_clear_receiver ep) k))

unfoldable pub keep_message : ℕ → ℕ → ℕ → Kernel → Kernel
keep_message ep_id send_ptr send_len k =
    let ep = k.endpoints ep_id in
    put_endpoint ep_id
      (record ep {
        pending_msg = bytes_copy send_len 0 ep.pending_msg 0 k.mem send_ptr;
        pending_len = send_len;
        has_pending = true;
      })
      k

unfoldable pub deliver : ℕ → ℕ → ℕ → M (Unit {0})
deliver ep_id send_ptr send_len k =
    if not ((k.endpoints ep_id).blocked_receiver_slot == slot_none)
    then hand_to_receiver ep_id send_ptr send_len k
    else done tt (keep_message ep_id send_ptr send_len k)

-- The second half of `ipc_syscall_call` and of `ipc_route_uart_write`.
unfoldable pub accept_call : Build → ℕ → ℕ → ℕ → ℕ → ℕ → ℕ → M ℕ
accept_call b ep_id send_ptr send_len reply_ptr reply_cap override = do
  caller_slot ← thread_current_user_slot
  modify (λ k.
      put_endpoint ep_id
        (record (k.endpoints ep_id) {
          blocked_caller_slot = caller_slot;
          caller_reply_ptr = reply_ptr;
          caller_reply_cap = reply_cap;
          caller_result_override = override;
        })
        k)
  deliver ep_id send_ptr send_len
  thread_user_trap_redirect b return_ipc_block
  pure 0

abbrev pub endpoint_busy : Endpoint → Bool
endpoint_busy ep = ep.has_pending || not (ep.blocked_caller_slot == slot_none)

-- The tests of `ipc_syscall_call` that return -1, in their order.
abbrev pub call_refused : Kernel → ℕ → ℕ → ℕ → ℕ → ℕ → Bool
call_refused k ep_id send_ptr send_len reply_ptr reply_cap =
    let ep = k.endpoints ep_id in
    (not (endpoint_valid ep_id) || ltb ipc_msg_size send_len)
    || ((ep.owner_slot == slot_none)
        || ((not (el0_buf_range_ok send_ptr send_len) || not (el0_buf_range_ok reply_ptr reply_cap))
            || endpoint_busy ep))

unfoldable pub ipc_syscall_call : Build → M ℕ
ipc_syscall_call b k =
    let x = k.frame.x in
    if call_refused k (x 0) (x 1) (x 2) (x 3) (x 4)
    then pure minus_one k
    else accept_call b (x 0) (x 1) (x 2) (x 3) (x 4) 0 k

abbrev pub route_refused : Kernel → ℕ → ℕ → Bool
route_refused k buf len =
    let ep = k.endpoints ep_uart in
    ltb ipc_msg_size len
    || ((ep.owner_slot == slot_none) || (not (el0_buf_range_ok buf len) || endpoint_busy ep))

unfoldable pub ipc_route_uart_write : Build → ℕ → ℕ → M ℕ
ipc_route_uart_write b buf len k =
    if route_refused k buf len then pure minus_one k else accept_call b ep_uart buf len 0 0 len k

-- A kept message goes to the receiver at once; otherwise the receiver waits.
unfoldable pub receive_or_wait : Build → ℕ → ℕ → ℕ → ℕ → M ℕ
receive_or_wait b ep_id recv_ptr recv_cap current_slot k =
    let ep = k.endpoints ep_id in
    let delivered = min_u64 ep.pending_len recv_cap in
    if ep.has_pending
    then done delivered (
        put_endpoint ep_id (endpoint_clear_pending ep)
          (record k { mem = bytes_copy delivered 0 k.mem recv_ptr ep.pending_msg 0 }))
    else if not (ep.blocked_receiver_slot == slot_none)
    then pure minus_one k
    else (do
      modify (
          put_endpoint ep_id (record ep {
            blocked_receiver_slot = current_slot;
            receiver_buf_ptr = recv_ptr;
            receiver_buf_cap = recv_cap;
          }))
      thread_user_trap_redirect b return_ipc_block
      pure 0)
        k

-- The tests of `ipc_syscall_recv` that return -1 before the current task is looked up.
abbrev pub recv_refused : Kernel → ℕ → ℕ → ℕ → Bool
recv_refused k ep_id recv_ptr recv_cap =
    not (endpoint_valid ep_id)
    || (((k.endpoints ep_id).owner_slot == slot_none) || not (el0_buf_range_ok recv_ptr recv_cap))

unfoldable pub ipc_syscall_recv : Build → M ℕ
ipc_syscall_recv b k =
    let x = k.frame.x in
    if recv_refused k (x 0) (x 1) (x 2)
    then pure minus_one k
    else (do
      current_slot ← thread_current_user_slot
      if not ((k.endpoints (x 0)).owner_slot == current_slot)
          then pure minus_one
          else receive_or_wait b (x 0) (x 1) (x 2) current_slot)
        k

-- The caller is handed the reply and woken.
unfoldable pub answer : ℕ → ℕ → ℕ → M ℕ
answer ep_id reply_ptr reply_len = do
  k ← gets (λ k. k)
  let ep = k.endpoints ep_id
  let copied = min_u64 reply_len ep.caller_reply_cap
  let override = ep.caller_result_override
  modify (λ k. record k { mem = bytes_copy_within copied 0 k.mem ep.caller_reply_ptr reply_ptr })
  thread_user_wake_with_x0 ep.blocked_caller_slot (if override == 0 then copied else override)
  modify (λ k. thread_request_resched (put_endpoint ep_id (endpoint_clear_caller ep) k))
  pure 0

-- The tests of `ipc_syscall_reply` that return -1 before the current task is looked up.
abbrev pub reply_refused : Kernel → ℕ → ℕ → ℕ → Bool
reply_refused k ep_id reply_ptr reply_len =
    (not (endpoint_valid ep_id) || ltb ipc_msg_size reply_len)
    || (((k.endpoints ep_id).owner_slot == slot_none) || not (el0_buf_range_ok reply_ptr reply_len))

-- The replier does not own the endpoint, or no caller waits there.
abbrev pub turned_away : Endpoint → ℕ → Bool
turned_away ep current_slot =
    not (ep.owner_slot == current_slot) || (ep.blocked_caller_slot == slot_none)

unfoldable pub ipc_syscall_reply : Build → M ℕ
ipc_syscall_reply b k =
    let x = k.frame.x in
    if reply_refused k (x 0) (x 1) (x 2)
    then pure minus_one k
    else (do
      current_slot ← thread_current_user_slot
      if turned_away (k.endpoints (x 0)) current_slot
          then pure minus_one
          else answer (x 0) (x 1) (x 2))
        k

-- The body of the loop of `ipc_handle_task_death`, for endpoint `i`.
unfoldable pub drop_task : ℕ → ℕ → M (Unit {0})
drop_task slot i k =
    let old = k.endpoints i in
    let ep = if old.blocked_receiver_slot == slot then endpoint_clear_receiver old else old in
    let dropped = endpoint_clear_pending (endpoint_clear_caller ep) in
    let k' = put_endpoint i ep k in
    if (ep.owner_slot == slot) && not (ep.blocked_caller_slot == slot_none)
    then (do
      thread_user_wake_with_x0 ep.blocked_caller_slot minus_one
      modify (λ k. thread_request_resched (put_endpoint i dropped k)))
        k'
    else if ep.blocked_caller_slot == slot
    then done tt (put_endpoint i dropped k')
    else done tt k'

unfoldable pub drop_task_from : ℕ → ℕ → ℕ → M (Unit {0})
drop_task_from slot zero i = skip
drop_task_from slot (suc n) i = do drop_task slot i; drop_task_from slot n (i + 1)

unfoldable pub ipc_handle_task_death : ℕ → M (Unit {0})
ipc_handle_task_death slot = drop_task_from slot ep_count 0
