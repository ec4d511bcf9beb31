-- ===== src/Syscall.antt =====
-- kernel/core/syscall.c: the system calls' dispatch and `SYS_write`.
pub mod Write
pub mod Handled
pub mod Direct
pub mod Routed
pub mod Printed
use d_rpi_proto_os.Base.{
  ℕ, zero, suc, ◌+◌, ◌-◌, Bool, false, ◌&&◌, ◌||◌, not, ◌==◌, if◌then◌else◌, ltb, leb,
}
use d_rpi_proto_os.Config.{
  thread_slot_task_b, thread_slot_task_c, el0_sandbox_base, el0_sandbox_end, ipc_msg_size,
  minus_one, Flavor, mono, micro,
}
use d_rpi_proto_os.State.{Kernel, Build, ReturnReason, return_yield, return_exit}
use d_rpi_proto_os.State.Effect.{M, done, pure, ◌>>=◌, ◌>>◌, gets, uart_putc}
use d_rpi_proto_os.Thread.{thread_current_user_slot, thread_ticks_now}
use d_rpi_proto_os.Task.{thread_user_trap_redirect}
use d_rpi_proto_os.Ipc.{ipc_syscall_call, ipc_syscall_recv, ipc_syscall_reply, ipc_route_uart_write}
use d_rpi_proto_os.Supervisor.{supervisor_syscall_wait, supervisor_syscall_restart}

pub data Origin : Type 0 where
  el1_origin el0_origin : Origin

pub data Sysno : Type 0 where
  sys_yield sys_time_ticks sys_write sys_exit sys_ipc_call sys_ipc_recv sys_ipc_reply : Sysno
  sys_supervise_wait sys_task_restart sys_unknown : Sysno

-- The number in x8, by the enumeration of syscall.h.
abbrev pub sysno : ℕ → Sysno
sysno n =
    if n == 0
    then sys_yield
    else if n == 1
    then sys_time_ticks
    else if n == 2
    then sys_write
    else if n == 3
    then sys_exit
    else if n == 4
    then sys_ipc_call
    else if n == 5
    then sys_ipc_recv
    else if n == 6
    then sys_ipc_reply
    else if n == 7
    then sys_supervise_wait
    else if n == 8
    then sys_task_restart
    else sys_unknown

unfoldable pub el0_write_range_ok : ℕ → ℕ → Bool
el0_write_range_ok buf len =
    if buf == 0
    then false
    else if len == 0
    then leb el0_sandbox_base buf && ltb buf el0_sandbox_end
    else if ltb buf el0_sandbox_base || leb el0_sandbox_end buf
    then false
    else not (ltb (el0_sandbox_end - buf) len)

-- The loop of `uart_write_direct`: `n` bytes left, from byte `i`.
unfoldable pub put_bytes : ℕ → ℕ → ℕ → Kernel → Kernel
put_bytes zero i buf k = k
put_bytes (suc n) i buf k = put_bytes n (i + 1) buf (uart_putc (k.mem (buf + i)) k)

unfoldable pub uart_write_direct : ℕ → ℕ → M ℕ
uart_write_direct buf len k = done len (put_bytes len 0 buf k)

-- `SYS_write` from EL0, past the tests on the buffer.
unfoldable pub write_from_el0 : Build → Flavor → ℕ → ℕ → M ℕ
write_from_el0 b mono buf len = uart_write_direct buf len
write_from_el0 b micro buf len = do
  slot ← thread_current_user_slot
  if not (slot == thread_slot_task_b) && not (slot == thread_slot_task_c)
      then if ltb ipc_msg_size len then pure minus_one else ipc_route_uart_write b buf len
      else uart_write_direct buf len

unfoldable pub syscall_write : Build → Origin → ℕ → ℕ → M ℕ
syscall_write b el1_origin buf len = if buf == 0 then pure minus_one else uart_write_direct buf len
syscall_write b el0_origin buf len =
    if buf == 0
    then pure minus_one
    else if not (el0_write_range_ok buf len)
    then pure minus_one
    else write_from_el0 b b.flavor buf len

abbrev redirect_to : Build → ReturnReason → M ℕ
redirect_to b r = do thread_user_trap_redirect b r; pure 0

unfoldable pub dispatch : Build → Sysno → Origin → ℕ → ℕ → M ℕ
dispatch b sys_yield el0_origin x0 x1 = redirect_to b return_yield
dispatch b sys_yield el1_origin x0 x1 = pure 0
dispatch b sys_time_ticks origin x0 x1 = gets thread_ticks_now
dispatch b sys_write origin x0 x1 = syscall_write b origin x0 x1
dispatch b sys_unknown origin x0 x1 = pure minus_one
dispatch b sys_exit el0_origin x0 x1 = redirect_to b return_exit
dispatch b sys_ipc_call el0_origin x0 x1 = ipc_syscall_call b
dispatch b sys_ipc_recv el0_origin x0 x1 = ipc_syscall_recv b
dispatch b sys_ipc_reply el0_origin x0 x1 = ipc_syscall_reply b
dispatch b sys_supervise_wait el0_origin x0 x1 = supervisor_syscall_wait b
dispatch b sys_task_restart el0_origin x0 x1 = supervisor_syscall_restart x0
dispatch b _ el1_origin x0 x1 = pure minus_one

unfoldable pub syscall_dispatch : Build → Origin → M ℕ
syscall_dispatch b origin k = dispatch b (sysno (k.frame.x 8)) origin (k.frame.x 0) (k.frame.x 1) k
