-- ===== src/Examples/Messages.antt =====
-- Tests of the endpoints and of the buffers.
use d_rpi_proto_os.Base.{ℕ, ◌+◌, ◌≤◌, ◌≡◌, ◌↔◌, refl, true, false, inl, arith, update}
use d_rpi_proto_os.Config.{ep_count, micro, ep_uart, el0_sandbox_base, el0_sandbox_end}
use d_rpi_proto_os.State.{Kernel}
use d_rpi_proto_os.State.Effect.{Outcome, panicked, Ensures, done}
use d_rpi_proto_os.Task.{user_task_init}
use d_rpi_proto_os.Ipc.{
  ipc_handle_task_death, accept_call, ipc_syscall_call, ipc_init, min_u64, keep_message, deliver,
  receive_or_wait, el0_buf_range_ok,
}
use d_rpi_proto_os.Ipc.Range.{InSandbox, el0_buf_range_ok_iff}
use d_rpi_proto_os.Ipc.Rendezvous.{Copied, call_then_receive}
use d_rpi_proto_os.Supervisor.{supervisor_init}
use d_rpi_proto_os.Boot.{init_threads, init_user_thread, thread_init_slot}
use d_rpi_proto_os.Invariant.{Inv}
use d_rpi_proto_os.Waits.{waiting}
use d_rpi_proto_os.Thread.{thread_current_user_slot, current_user_task}
use d_rpi_proto_os.Task.{thread_user_trap_redirect}
use d_rpi_proto_os.Boot.{stack_top}
use d_rpi_proto_os.Handling.{Handled}
use d_rpi_proto_os.Ipc.Handled.{ipc_syscall_call-Handled}
use d_rpi_proto_os.Ipc.Channel.Loss.{Dropped}
use d_rpi_proto_os.Ipc.Channel.Drops.{ipc_handle_task_death-Dropped}
use d_rpi_proto_os.Ipc.Channel.{blocked}
use d_rpi_proto_os.Ipc.Channel.Meaning.{Meets}
use d_rpi_proto_os.Ipc.Channel.Refines.{ipc_call, promise, ipc-Refines}
use d_rpi_proto_os.Examples.{build, ready, trapped, trapped-Trapped, frame_of, svc_esr}

abbrev sent : ℕ
sent = el0_sandbox_base + 0x1000

abbrev room : ℕ
room = el0_sandbox_base + 0x2000

abbrev start : Kernel
start = ready micro

-- Task A has called the UART server with five bytes.
abbrev called : Kernel
called = keep_message ep_uart sent 5 start

-- Task A calls the UART server with five bytes and room for 64.
abbrev call_regs : ℕ → ℕ
call_regs = update (update (update (update (update (λ _. 0) 0 ep_uart) 1 sent) 2 5) 3 room) 4 64

abbrev calling : Kernel
calling = trapped micro (frame_of call_regs svc_esr)

call_then_receive_example :
    (deliver ep_uart sent 5 start ≡ done tt called)
    × Ensures (receive_or_wait (build micro) ep_uart room 3 1 called) (λ r after.
      (r ≡ min_u64 5 3)
      × Copied after.mem called.mem room start.mem sent (min_u64 5 3)
      × ((after.endpoints ep_uart).has_pending ≡ false))
unfolding ipc_init supervisor_init
call_then_receive_example =
    call_then_receive (build micro) start called ep_uart sent 5 room 3 1 refl refl

ipc-Refines_example :
    Ensures
      (ipc_syscall_call (build micro) calling)
      (Meets (build micro) calling 0 ep_uart (promise ipc_call calling 0))
unfolding ipc_init supervisor_init
ipc-Refines_example =
    ipc-Refines (build micro) calling 0 ipc_call (trapped-Trapped micro call_regs svc_esr)
      (inl (omega arith))

call_promised : (promise ipc_call calling 0).verdict ≡ blocked
unfolding ipc_init supervisor_init el0_buf_range_ok
call_promised = refl

abbrev pub state_of : {A : Type 0} → Outcome A → Kernel
state_of (done a k) = k
state_of (panicked msg k) = k

pub holds_of :
    {A : Type 0} (P : Kernel → Type 0) (o : Outcome A) → Ensures o (λ _ k'. P k') → P (state_of o)
holds_of P (done a k) h = h
holds_of P (panicked msg k) h = absurd h

-- Task A waits for the server's reply; then the server dies.
abbrev waiting_client : Kernel
waiting_client = state_of (ipc_syscall_call (build micro) calling)

waiting_client-Inv : Inv waiting_client
waiting_client-Inv =
    (holds_of (Handled (build micro) calling 0) (ipc_syscall_call (build micro) calling)
      (ipc_syscall_call-Handled (build micro) (trapped-Trapped micro call_regs svc_esr))).sound

waiting_server : waiting waiting_client 1 ≡ false
unfolding ipc_syscall_call accept_call deliver keep_message supervisor_init ipc_init
    el0_buf_range_ok thread_current_user_slot current_user_task init_threads init_user_thread
    user_task_init thread_init_slot thread_user_trap_redirect stack_top
waiting_server = refl

ipc_handle_task_death-Dropped_example :
    Ensures
      (ipc_handle_task_death 1 waiting_client)
      (λ _ after. Dropped waiting_client 1 ep_count after)
ipc_handle_task_death-Dropped_example =
    ipc_handle_task_death-Dropped waiting_client 1 waiting_client-Inv (omega arith) waiting_server

el0_buf_range_ok_iff_example :
    (el0_buf_range_ok sent 256 ≡ true) ↔ (InSandbox sent × (sent + 256 ≤ el0_sandbox_end))
el0_buf_range_ok_iff_example = el0_buf_range_ok_iff sent 256
