-- ===== src/Syscall/Direct.antt =====
-- System calls of the kernel itself, and writes that go to the UART directly.
use d_rpi_proto_os.Base.{ℕ, ◌≡◌, ◌⊎◌, inl, inr, refl, ◌++◌, true, ◌==◌, arith, Bool-cases}
use d_rpi_proto_os.Config.{Flavor, mono, micro, thread_slot_task_b, thread_slot_task_c}
use d_rpi_proto_os.State.{Kernel, Build}
use d_rpi_proto_os.State.Effect.{Ensures, done, crlf}
use d_rpi_proto_os.Thread.Current.{IsCurrent, thread_current_user_slot_lem}
use d_rpi_proto_os.Syscall.{
  Sysno, el0_origin, el1_origin, sysno, sys_yield, sys_time_ticks, sys_write, sys_exit,
  sys_ipc_call, sys_ipc_recv, sys_ipc_reply, sys_supervise_wait, sys_task_restart, sys_unknown,
  dispatch, syscall_dispatch, syscall_write, write_from_el0, el0_write_range_ok, uart_write_direct,
}
use d_rpi_proto_os.State.Output.{Prints, bytes_from}
use d_rpi_proto_os.Syscall.Write.{uart_write_direct_lem}

syscall_write-El1 :
    (b : Build) (buf len : ℕ) (k : Kernel)
    → Ensures (syscall_write b el1_origin buf len k) (λ _ k'. Prints k k')
unfolding syscall_write
syscall_write-El1 b buf len k = elim (Bool-cases (buf == 0)) [
  | inl e ↦ rw e (k.uart, refl)
  | inr e ↦ rw (e, uart_write_direct_lem buf len k, Ensures) (_, refl)
]

dispatch-El1 :
    (b : Build) (n : Sysno) (x0 x1 : ℕ) (k : Kernel)
    → Ensures (dispatch b n el1_origin x0 x1 k) (λ _ k'. Prints k k')
unfolding dispatch
dispatch-El1 b sys_yield x0 x1 k = (k.uart, refl)
dispatch-El1 b sys_time_ticks x0 x1 k = (k.uart, refl)
dispatch-El1 b sys_write x0 x1 k = syscall_write-El1 b x0 x1 k
dispatch-El1 b sys_exit x0 x1 k = (k.uart, refl)
dispatch-El1 b sys_ipc_call x0 x1 k = (k.uart, refl)
dispatch-El1 b sys_ipc_recv x0 x1 k = (k.uart, refl)
dispatch-El1 b sys_ipc_reply x0 x1 k = (k.uart, refl)
dispatch-El1 b sys_supervise_wait x0 x1 k = (k.uart, refl)
dispatch-El1 b sys_task_restart x0 x1 k = (k.uart, refl)
dispatch-El1 b sys_unknown x0 x1 k = (k.uart, refl)

-- The dispatch of any call from the kernel itself does not panic and changes nothing but the UART's
-- output.
pub syscall_dispatch-El1 :
    (b : Build) (k : Kernel) → Ensures (syscall_dispatch b el1_origin k) (λ _ k'. Prints k k')
unfolding syscall_dispatch
syscall_dispatch-El1 b k = dispatch-El1 b (sysno (k.frame.x 8)) (k.frame.x 0) (k.frame.x 1) k

-- A task whose writes are not routed.
abbrev pub WritesDirectly : Flavor → ℕ → Type 0
WritesDirectly f c = (f ≡ mono) ⊎ ((c ≡ thread_slot_task_b) ⊎ (c ≡ thread_slot_task_c))

write_from_el0-direct :
    (b : Build) (f : Flavor) (buf len : ℕ) (k : Kernel) (c : ℕ)
    → IsCurrent k c
    → WritesDirectly f c
    → write_from_el0 b f buf len k ≡ uart_write_direct buf len k
unfolding write_from_el0
write_from_el0-direct b mono buf len k c cur direct = refl
write_from_el0-direct b micro buf len k c cur direct =
    ground (arith, thread_current_user_slot_lem k c cur)

-- If task c is current, the flavor is MONO or c is task B or C, and the buffer is accepted, the
-- write returns the length and appends the buffer's bytes to the output, with a carriage return
-- before each newline, and changes nothing else.
pub syscall_write-direct :
    (b : Build) (k : Kernel) (c buf len : ℕ)
    → IsCurrent k c
    → WritesDirectly b.flavor c
    → el0_write_range_ok buf len ≡ true
    → syscall_write b el0_origin buf len k
      ≡ done len (record k { uart = k.uart ++ crlf (bytes_from k.mem buf 0 len) })
unfolding syscall_write el0_write_range_ok
syscall_write-direct b k c buf len cur direct ok = ground (
  arith,
  write_from_el0-direct b b.flavor buf len k c cur direct,
  uart_write_direct_lem buf len k,
)
