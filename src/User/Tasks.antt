-- ===== src/User/Tasks.antt =====
-- kernel/el0/user_tasks.c: the entries of the user tasks. Their loops never end; a number of rounds
-- says how long we look, so that a statement on all numbers is one on the whole run.
use d_rpi_proto_os.Base.{
  ℕ, zero, suc, ◌+◌, ◌-◌, ◌%◌, ◌^◌, Bool, true, not, List, ◌==◌, ltb, if◌then◌else◌,
}
use d_rpi_proto_os.Config.{
  BenchMode, bench_off, bench_latency, ep_uart, ep_bench, ipc_msg_size, minus_one,
  thread_slot_task_b,
}
use d_rpi_proto_os.User.Text.{task_a_msg, uart_ready_msg, sup_ready_msg, sup_restarted_msg}
use d_rpi_proto_os.User.Calls.{
  Answers, U, brk, pure, ◌>>=◌, ◌>>◌, requested, el0_write_ret, el0_yield, el0_time_ticks,
  el0_ipc_recv, el0_ipc_reply, el0_supervise_wait, el0_task_restart,
}
use d_rpi_proto_os.User.Emit.{char_at}

-- (int64_t)(now - target) >= 0
unfoldable pub tick_reached : ℕ → ℕ → Bool
tick_reached now target = ltb ((now + 2 ^ 64 - target) % 2 ^ 64) (2 ^ 63)

-- Task B goes on with what its buffer holds, or has died of `brk`.
pub data Life : Type 0 where
  alive : (ℕ → ℕ) → Life
  dead : Life

abbrev pub unless_dead : ((ℕ → ℕ) → U Life) → Life → U Life
unless_dead rest (alive buf) = rest buf
unless_dead rest dead = pure dead

module _ (answers : Answers) where
  -- The message of a string without its zero byte.
  abbrev pub say : List ℕ → ℕ → U ℕ
  say text len = el0_write_ret answers (char_at text) len

  -- Task A: a round of its loop, with the tick of the next message.
  unfoldable pub task_a_round : ℕ → U ℕ
  task_a_round next = do
    now ← el0_time_ticks answers
    next' ←
        (if tick_reached now next
          then (do _ ← say task_a_msg 2; pure ((next + 200) % 2 ^ 64))
          else pure next)
    el0_yield answers
    pure next'

  unfoldable pub task_a_rounds : ℕ → ℕ → U ℕ
  task_a_rounds zero next = pure next
  task_a_rounds (suc left) next = do next' ← task_a_round next; task_a_rounds left next'

  unfoldable pub task_a_entry : ℕ → U ℕ
  task_a_entry rounds = do
    start ← el0_time_ticks answers
    task_a_rounds rounds ((start + 200) % 2 ^ 64)

  -- Task B: the crash after the first message, which the latency mode leaves out.
  unfoldable pub crash_once : BenchMode → (ℕ → ℕ) → U Life
  crash_once bench_latency buf s = (alive buf, s)
  crash_once _ buf s =
      if not s.crashed_once
      then (dead, requested brk (record s { crashed_once = true }))
      else (alive buf, s)

  unfoldable pub task_b_round : BenchMode → (ℕ → ℕ) → U Life
  task_b_round mode recv_buf = do
    a ← el0_ipc_recv answers ep_uart recv_buf ipc_msg_size
    if not (a.x0 == minus_one)
        then (do
          _ ← el0_write_ret answers a.filled a.x0
          _ ← el0_ipc_reply answers ep_uart a.filled 0
          crash_once mode a.filled)
        else pure (alive a.filled)

  unfoldable pub task_b_rounds : BenchMode → ℕ → (ℕ → ℕ) → U Life
  task_b_rounds mode zero buf = pure (alive buf)
  task_b_rounds mode (suc left) buf = do
    life ← task_b_round mode buf
    unless_dead (task_b_rounds mode left) life

  unfoldable pub task_b_entry : BenchMode → ℕ → (ℕ → ℕ) → U Life
  task_b_entry bench_off rounds buf = do
    _ ← say uart_ready_msg 13
    task_b_rounds bench_off rounds buf
  task_b_entry mode rounds buf = task_b_rounds mode rounds buf

  -- Task C, the server of the latency mode: it sends each message back.
  unfoldable pub echo_round : (ℕ → ℕ) → U (ℕ → ℕ)
  echo_round recv_buf = do
    a ← el0_ipc_recv answers ep_bench recv_buf ipc_msg_size
    if not (a.x0 == minus_one)
        then (do _ ← el0_ipc_reply answers ep_bench a.filled a.x0; pure a.filled)
        else pure a.filled

  unfoldable pub echo_rounds : ℕ → (ℕ → ℕ) → U (Unit {0})
  echo_rounds zero buf = pure tt
  echo_rounds (suc left) buf = do buf' ← echo_round buf; echo_rounds left buf'

  -- Task C, the supervisor of the other modes.
  unfoldable pub report_restart : BenchMode → U (Unit {0})
  report_restart bench_off = do _ ← say sup_restarted_msg 21; pure tt
  report_restart _ = pure tt

  unfoldable pub supervisor_round : BenchMode → U (Unit {0})
  supervisor_round mode = do
    slot ← el0_supervise_wait answers
    if slot == thread_slot_task_b
        then (do
          result ← el0_task_restart answers thread_slot_task_b
          if result == 0 then report_restart mode else pure tt)
        else pure tt

  unfoldable pub supervisor_rounds : BenchMode → ℕ → U (Unit {0})
  supervisor_rounds mode zero = pure tt
  supervisor_rounds mode (suc left) = do supervisor_round mode; supervisor_rounds mode left

  unfoldable pub task_c_entry : BenchMode → ℕ → (ℕ → ℕ) → U (Unit {0})
  task_c_entry bench_latency rounds recv_buf = echo_rounds rounds recv_buf
  task_c_entry bench_off rounds recv_buf = do
    _ ← say sup_ready_msg 12
    supervisor_rounds bench_off rounds
  task_c_entry mode rounds recv_buf = supervisor_rounds mode rounds
