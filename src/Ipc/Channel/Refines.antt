-- ===== src/Ipc/Channel/Refines.antt =====
-- The four ways into core/ipc.c, and the promise for each.
use d_rpi_proto_os.Base.{ℕ}
use d_rpi_proto_os.Config.{ep_uart}
use d_rpi_proto_os.State.{Kernel, Build}
use d_rpi_proto_os.State.Effect.{M, Ensures}
use d_rpi_proto_os.Handling.{Trapped}
use d_rpi_proto_os.Ipc.{ipc_syscall_call, ipc_syscall_recv, ipc_syscall_reply, ipc_route_uart_write}
use d_rpi_proto_os.Ipc.Channel.{Response}
use d_rpi_proto_os.Ipc.Channel.Meaning.{Meets}
use d_rpi_proto_os.Ipc.Channel.Call.{
  Passable, call_promise, route_promise, ipc_syscall_call-Meets, ipc_route_uart_write-Meets,
}
use d_rpi_proto_os.Ipc.Channel.Receive.{recv_promise, ipc_syscall_recv-Meets}
use d_rpi_proto_os.Ipc.Channel.Reply.{Returnable, reply_promise, ipc_syscall_reply-Meets}

-- The four ways into core/ipc.c; the arguments of a routed write are given, those of the others are in
-- the frame.
pub data IpcRequest : Type 0 where
  ipc_call ipc_recv ipc_reply : IpcRequest
  routed_write : ℕ → ℕ → IpcRequest

abbrev pub perform : Build → IpcRequest → M ℕ
perform b ipc_call = ipc_syscall_call b
perform b ipc_recv = ipc_syscall_recv b
perform b ipc_reply = ipc_syscall_reply b
perform b (routed_write buf len) = ipc_route_uart_write b buf len

abbrev pub endpoint_of : IpcRequest → Kernel → ℕ
endpoint_of (routed_write buf len) k = ep_uart
endpoint_of _ k = k.frame.x 0

abbrev pub promise : IpcRequest → Kernel → ℕ → Response
promise ipc_call k c = call_promise k c
promise ipc_recv k c = recv_promise k c
promise ipc_reply k c = reply_promise k c
promise (routed_write buf len) k c = route_promise k c buf len

-- No copy between two tasks' buffers starts inside the bytes that it has still to read.
abbrev pub Disjoint : IpcRequest → Kernel → Type 0
Disjoint ipc_call k = Passable k (k.frame.x 0) (k.frame.x 1) (k.frame.x 2)
Disjoint ipc_recv k = Unit {0}
Disjoint ipc_reply k = Returnable k (k.frame.x 0) (k.frame.x 1) (k.frame.x 2)
Disjoint (routed_write buf len) k = Passable k ep_uart buf len

-- If user task c has trapped with a program counter in the sandbox, and no copy between two tasks'
-- buffers starts inside the bytes that it has still to read, then a call, a receive, a reply and a
-- routed write with any arguments do not panic and do what the channel promises: they are refused,
-- and then change nothing, exactly if the channel refuses them; else the endpoint stands for the
-- channel that is promised, the other endpoints are as they were, c gets the promised result or is
-- blocked, and memory and the other tasks change by the promised text and result for the one task
-- that is woken, and not otherwise.
pub ipc-Refines :
    (b : Build) (k : Kernel) (c : ℕ) (q : IpcRequest)
    → Trapped k c
    → Disjoint q k
    → Ensures (perform b q k) (Meets b k c (endpoint_of q k) (promise q k c))
ipc-Refines b k c ipc_call t safe = ipc_syscall_call-Meets b k c t safe
ipc-Refines b k c ipc_recv t safe = ipc_syscall_recv-Meets b k c t
ipc-Refines b k c ipc_reply t safe = ipc_syscall_reply-Meets b k c t safe
ipc-Refines b k c (routed_write buf len) t safe = ipc_route_uart_write-Meets b k c t buf len safe
