-- ===== src/Syscall/Handled.antt =====
-- Every system call of a running user task is handled without a panic and keeps the kernel sound.
use d_rpi_proto_os.Base.{ℕ, ◌≡◌, refl, ◌≢◌, inl, inr, false, not, ◌==◌, ◌&&◌, Bool-cases, ltb}
use d_rpi_proto_os.Config.{
  minus_one, thread_slot_task_b, thread_slot_task_c, ipc_msg_size, Flavor, mono, micro,
}
use d_rpi_proto_os.State.{Kernel, Build, ReturnReason, return_none, return_yield, return_exit}
use d_rpi_proto_os.State.Effect.{Ensures, done}
use d_rpi_proto_os.Thread.{thread_ticks_now}
use d_rpi_proto_os.Thread.Current.{thread_current_user_slot_lem}
use d_rpi_proto_os.Waits.{is_block_reason}
use d_rpi_proto_os.Handling.{Trapped, Handled}
use d_rpi_proto_os.Handling.Ahead.{Ahead, Trapped-start, Ahead-uart}
use d_rpi_proto_os.Handling.Woken.{Ahead-goes_on, Ahead-leaves}
use d_rpi_proto_os.Ipc.Handled.{ipc_syscall_call-Handled, ipc_route_uart_write-Handled}
use d_rpi_proto_os.Ipc.Received.{ipc_syscall_recv-Handled}
use d_rpi_proto_os.Ipc.Replied.{ipc_syscall_reply-Handled}
use d_rpi_proto_os.Supervisor.Handled.{
  supervisor_syscall_wait-Handled, supervisor_syscall_restart-Handled,
}
use d_rpi_proto_os.Syscall.Write.{uart_write_direct_lem}
use d_rpi_proto_os.Syscall.{
  el0_origin, Sysno, sysno, sys_yield, sys_time_ticks, sys_write, sys_exit, sys_ipc_call,
  sys_ipc_recv, sys_ipc_reply, sys_supervise_wait, sys_task_restart, sys_unknown, redirect_to,
  el0_write_range_ok, uart_write_direct, write_from_el0, syscall_write, dispatch, syscall_dispatch,
}

module _ {k : Kernel} {c : ℕ} (b : Build) (t : Trapped k c) where
  start : Ahead k c k false
  start = Trapped-start t

  refused : (r : ℕ) → Ensures (done r k) (λ _ k'. Handled b k c k')
  refused r = Ahead-goes_on b t start

  direct-Handled : (buf len : ℕ) → Ensures (uart_write_direct buf len k) (λ _ k'. Handled b k c k')
  direct-Handled buf len =
      rw (uart_write_direct_lem buf len k, Ensures) (Ahead-goes_on b t (Ahead-uart t.small start _))

  -- The reasons that do not block.
  redirect_to-Handled :
      (reason : ReturnReason)
      → reason ≢ return_none
      → is_block_reason reason ≡ false
      → Ensures (redirect_to b reason k) (λ _ k'. Handled b k c k')
  redirect_to-Handled reason some_reason free =
      let (goes, handled) = Ahead-leaves b t {k' = k} reason some_reason (rw free start) in
      rw (goes, Ensures, redirect_to) handled

  write_from_el0-Handled :
      (flavor : Flavor) (buf len : ℕ)
      → Ensures (write_from_el0 b flavor buf len k) (λ _ k'. Handled b k c k')
  unfolding write_from_el0
  write_from_el0-Handled mono buf len = direct-Handled buf len
  write_from_el0-Handled micro buf len =
      rw (thread_current_user_slot_lem k c t.current, Ensures, write_from_el0)
        (elim (Bool-cases (not (c == thread_slot_task_b) && not (c == thread_slot_task_c))) [
          | inr server ↦ rw server (direct-Handled buf len)
          | inl client ↦ elim (Bool-cases (ltb ipc_msg_size len)) [
            | inl long ↦ rw (client, long) (refused minus_one)
            | inr fits ↦ rw (client, fits) (ipc_route_uart_write-Handled b t buf len)
          ]
        ])

  syscall_write-Handled :
      (buf len : ℕ) → Ensures (syscall_write b el0_origin buf len k) (λ _ k'. Handled b k c k')
  unfolding syscall_write
  syscall_write-Handled buf len = elim (Bool-cases (buf == 0)) [
    | inl null ↦ rw null (refused minus_one)
    | inr some_buf ↦ elim (Bool-cases (el0_write_range_ok buf len)) [
      | inl inside ↦ rw (some_buf, inside) (write_from_el0-Handled b.flavor buf len)
      | inr outside ↦ rw (some_buf, outside) (refused minus_one)
    ]
  ]

  dispatch-Handled :
      (n : Sysno) (x0 x1 : ℕ) → Ensures (dispatch b n el0_origin x0 x1 k) (λ _ k'. Handled b k c k')
  unfolding dispatch
  dispatch-Handled sys_yield x0 x1 = redirect_to-Handled return_yield (λ e. cc) refl
  dispatch-Handled sys_time_ticks x0 x1 = refused (thread_ticks_now k)
  dispatch-Handled sys_write x0 x1 = syscall_write-Handled x0 x1
  dispatch-Handled sys_unknown x0 x1 = refused minus_one
  dispatch-Handled sys_exit x0 x1 = redirect_to-Handled return_exit (λ e. cc) refl
  dispatch-Handled sys_ipc_call x0 x1 = ipc_syscall_call-Handled b t
  dispatch-Handled sys_ipc_recv x0 x1 = ipc_syscall_recv-Handled b t
  dispatch-Handled sys_ipc_reply x0 x1 = ipc_syscall_reply-Handled b t
  dispatch-Handled sys_supervise_wait x0 x1 = supervisor_syscall_wait-Handled b t
  dispatch-Handled sys_task_restart x0 x1 = supervisor_syscall_restart-Handled b t x0

  -- If user task c has trapped with a program counter in the sandbox, the dispatch of any call
  -- number with any arguments does not panic, keeps the invariant and all memory outside the
  -- sandbox, and either leaves the trapped thread and its frame alone or saves the frame with a
  -- reason and redirects it.
  pub syscall_dispatch-Handled :
      Ensures (syscall_dispatch b el0_origin k) (λ _ k'. Handled b k c k')
  unfolding syscall_dispatch
  syscall_dispatch-Handled = dispatch-Handled (sysno (k.frame.x 8)) (k.frame.x 0) (k.frame.x 1)
