-- ===== src/Examples/Traps.antt =====
-- Tests of the exceptions and of the set-up.
use d_rpi_proto_os.Base.{ℕ, ◌+◌, ◌≡◌, refl, inl, ◌++◌, arith, update, some}
use d_rpi_proto_os.Config.{mono, micro, el0_sandbox_base}
use d_rpi_proto_os.State.{Kernel}
use d_rpi_proto_os.State.Effect.{Ensures, done, panicked, crlf}
use d_rpi_proto_os.Thread.Current.{IsCurrent}
use d_rpi_proto_os.Printk.{decimal, hexadecimal}
use d_rpi_proto_os.Printk.Decimal.{read_decimal}
use d_rpi_proto_os.Printk.Numbers.{read_hexadecimal, read-printed}
use d_rpi_proto_os.Invariant.{Inv}
use d_rpi_proto_os.Handling.{Handled}
use d_rpi_proto_os.Trap.{exception_sync_el0}
use d_rpi_proto_os.Trap.Handled.{Served, exception_sync_el0-Served}
use d_rpi_proto_os.Trap.Outside.{exception_sync_el0-panics}
use d_rpi_proto_os.Syscall.{el0_write_range_ok, el0_origin, syscall_dispatch, syscall_write}
use d_rpi_proto_os.Syscall.Handled.{syscall_dispatch-Handled}
use d_rpi_proto_os.State.Output.{bytes_from}
use d_rpi_proto_os.Config.{ep_uart, thread_slot_task_b}
use d_rpi_proto_os.State.Effect.{put_endpoint}
use d_rpi_proto_os.Task.{user_task_init}
use d_rpi_proto_os.Supervisor.{supervisor_init}
use d_rpi_proto_os.Ipc.{
  ipc_init, el0_buf_range_ok, receive_or_wait, bytes_copy, answer, endpoint_clear_pending,
}
use d_rpi_proto_os.Ipc.Accepted.{routed, WaitsForServer, ServerGets}
use d_rpi_proto_os.Syscall.Routed.{WriteReturns}
use d_rpi_proto_os.Syscall.Printed.{write_to_output}
use d_rpi_proto_os.Syscall.Direct.{syscall_write-direct}
use d_rpi_proto_os.Boot.{kernel_setup, init_threads, init_user_thread, thread_init_slot}
use d_rpi_proto_os.Boot.Sound.{kernel_setup-Inv}
use d_rpi_proto_os.Examples.{
  build, build-LaidOut, powered_on, trapped, trapped-Trapped, frame_of, svc_esr, abort_esr,
}

abbrev buffer : ℕ
buffer = el0_sandbox_base + 0x1000

-- `SYS_write` of five bytes; the routed form is a call to the UART server.
abbrev write_regs : ℕ → ℕ
write_regs = update (update (update (λ _. 0) 8 2) 0 buffer) 1 5

abbrev writing : Kernel
writing = trapped micro (frame_of write_regs svc_esr)

kernel_setup-Inv_example : Ensures (kernel_setup (build micro) powered_on) (λ _ k'. Inv k')
kernel_setup-Inv_example = kernel_setup-Inv (build micro) powered_on (build-LaidOut micro)

exception_sync_el0-Served_example :
    Ensures (exception_sync_el0 (build micro) writing) (λ _ k'. Served (build micro) writing 0 k')
exception_sync_el0-Served_example =
    exception_sync_el0-Served (build micro) (trapped-Trapped micro write_regs svc_esr)

syscall_dispatch-Handled_example :
    Ensures
      (syscall_dispatch (build micro) el0_origin writing)
      (λ _ k'. Handled (build micro) writing 0 k')
syscall_dispatch-Handled_example =
    syscall_dispatch-Handled (build micro) (trapped-Trapped micro write_regs svc_esr)

-- Task A has jumped to address 0.
abbrev astray : Kernel
astray = trapped micro (record { x = λ _. 0; sp = 0; elr = 0; spsr = 0; esr = abort_esr; far = 0 })

astray-IsCurrent : IsCurrent astray 0
astray-IsCurrent =
    let h = (trapped-Trapped micro (λ _. 0) abort_esr).current in
    record { current_eq = h.current_eq; task_eq = h.task_eq; kind = h.kind; slot = h.slot }

exception_sync_el0-panics_example :
    (after : Kernel) × (exception_sync_el0 (build micro) astray
      ≡ panicked "EL0 trap ELR outside sandbox" after)
exception_sync_el0-panics_example =
    exception_sync_el0-panics (build micro) astray 0 astray-IsCurrent
      ((trapped-Trapped micro (λ _. 0) abort_esr).sound.threads_ok 0 (omega arith)) refl
      (inl (omega arith))

syscall_write-direct_example :
    syscall_write (build mono) el0_origin buffer 5 (trapped mono (frame_of write_regs svc_esr))
    ≡ done 5 (record (trapped mono (frame_of write_regs svc_esr)) {
      uart =
          (trapped mono (frame_of write_regs svc_esr)).uart
          ++ crlf (bytes_from (trapped mono (frame_of write_regs svc_esr)).mem buffer 0 5);
    })
unfolding el0_write_range_ok
syscall_write-direct_example =
    syscall_write-direct (build mono) (trapped mono (frame_of write_regs svc_esr)) 0 buffer 5
      (trapped-Trapped mono write_regs svc_esr).current (inl refl) refl

-- The state behind the write, as far as it matters, and the one behind the server's receive.
abbrev sent : Kernel
sent = put_endpoint ep_uart (routed writing 0 buffer 5) writing

abbrev inbox : ℕ
inbox = buffer + 0x800

abbrev received : Kernel
received = put_endpoint ep_uart (endpoint_clear_pending (routed writing 0 buffer 5)) writing

-- What the receive leaves, and task B, which runs behind it.
abbrev got : Kernel
got =
    put_endpoint ep_uart (endpoint_clear_pending (routed writing 0 buffer 5)) (record sent {
      mem = bytes_copy 5 0 sent.mem inbox (routed writing 0 buffer 5).pending_msg 0;
    })

abbrev serving : Kernel
serving = record got { current = some 1; current_task = some 1 }

serving-IsCurrent : IsCurrent serving thread_slot_task_b
unfolding supervisor_init ipc_init init_threads init_user_thread thread_init_slot user_task_init
serving-IsCurrent = record { current_eq = refl; task_eq = refl; kind = refl; slot = refl }

write_to_output_example :
    Ensures
      (syscall_write (build micro) el0_origin buffer 5 writing)
      (WaitsForServer writing 0 buffer 5)
    × ServerGets writing sent 0 buffer 5 inbox 256 5 got
    × (syscall_write (build micro) el0_origin inbox 5 serving
        ≡ done 5
            (record serving { uart = serving.uart ++ crlf (bytes_from writing.mem buffer 0 5) }))
    × Ensures (answer ep_uart buffer 0 received) (WriteReturns received 0 5)
unfolding el0_write_range_ok supervisor_init ipc_init el0_buf_range_ok receive_or_wait routed
write_to_output_example =
    write_to_output (build micro) writing 0 buffer 5 refl (trapped-Trapped micro write_regs svc_esr)
      (λ e. absurd (omega (arith, e))) (λ e. absurd (omega (arith, e))) (omega arith) refl refl sent
      got serving received inbox 256 1 5 buffer 0 refl refl refl refl serving-IsCurrent
      (λ j lt. refl) refl
      ((trapped-Trapped micro write_regs svc_esr).sound.threads_ok 0 (omega arith)) refl

read-printed_example :
    (read_decimal (decimal 1094713344) 0 ≡ 1094713344)
    × (read_hexadecimal (hexadecimal 1094713344) 0 ≡ 1094713344)
read-printed_example = read-printed 1094713344 (omega arith)
