-- ===== src/Ipc/Accepted.antt =====
-- What `accept_call` makes of a routed write that no receiver waits for: the message is kept in the server's
-- endpoint and the caller blocks; the server's receive then gets the bytes.
use d_rpi_proto_os.Base.{ℕ, ◌+◌, ◌-◌, ◌≡◌, refl, ap, sym, true, update_self, arith}
use d_rpi_proto_os.Config.{ep_uart, slot_none}
use d_rpi_proto_os.State.{Kernel, Thread, Endpoint, Build, return_ipc_block}
use d_rpi_proto_os.State.Effect.{Ensures, done}
use d_rpi_proto_os.Task.{save_frame}
use d_rpi_proto_os.Task.Redirect.{redirected}
use d_rpi_proto_os.Handling.{Trapped}
use d_rpi_proto_os.Ipc.{
  accept_call, bytes_copy, keep_message, receive_or_wait, endpoint_clear_pending, min_u64,
}
use d_rpi_proto_os.Ipc.Copy.{bytes_copy_lem}
use d_rpi_proto_os.Ipc.Rendezvous.{Copied}
use d_rpi_proto_os.Ipc.Channel.Parts.{noted, deliver-kept, still_current, accept_call-through}
use mathlib.Core.Path.{subst}

-- The endpoint of the UART server behind a routed write that no receiver waited for.
unfoldable pub routed : Kernel → ℕ → ℕ → ℕ → Endpoint
routed k c buf len = record (k.endpoints ep_uart) {
  blocked_caller_slot = c;
  caller_reply_ptr = 0;
  caller_reply_cap = 0;
  caller_result_override = len;
  pending_msg = bytes_copy len 0 (k.endpoints ep_uart).pending_msg 0 k.mem buf;
  pending_len = len;
  has_pending = true;
}

-- The caller waits for the server, which finds the message in the endpoint.
abbrev pub WaitsForServer : Kernel → ℕ → ℕ → ℕ → ℕ → Kernel → Type 0
WaitsForServer k c buf len result after =
    (result ≡ 0)
    × (after.endpoints ep_uart ≡ routed k c buf len)
    × ((after.threads c).user.return_reason ≡ return_ipc_block)
    × (after.uart ≡ k.uart)

-- The server has the bytes as they were at the write, as far as its buffer has room.
abbrev pub ServerGets : Kernel → Kernel → ℕ → ℕ → ℕ → ℕ → ℕ → ℕ → Kernel → Type 0
ServerGets k k1 c buf len recv_ptr recv_cap result after =
    (result ≡ min_u64 len recv_cap)
    × Copied after.mem k1.mem recv_ptr k.mem buf (min_u64 len recv_cap)
    × (after.endpoints ep_uart ≡ endpoint_clear_pending (routed k c buf len))

pub receive-routed :
    (b : Build) (k k1 : Kernel) (c buf len recv_ptr recv_cap slot : ℕ)
    → k1.endpoints ep_uart ≡ routed k c buf len
    → Ensures
        (receive_or_wait b ep_uart recv_ptr recv_cap slot k1)
        (ServerGets k k1 c buf len recv_ptr recv_cap)
unfolding receive_or_wait routed
receive-routed b k k1 c buf len recv_ptr recv_cap slot sent =
    rw (sent, Ensures)
      (
        refl,
        λ a. ground (
          arith,
          bytes_copy_lem (min_u64 len recv_cap) k1.mem recv_ptr
              (bytes_copy len 0 (k.endpoints ep_uart).pending_msg 0 k.mem buf) 0 a,
          bytes_copy_lem len (k.endpoints ep_uart).pending_msg 0 k.mem buf (0 + (a - recv_ptr)),
        ),
        refl,
      )

kept : Kernel → ℕ → ℕ → ℕ → Kernel
kept k c buf len = keep_message ep_uart buf len (noted ep_uart c 0 0 len k)

accept_call-done :
    (b : Build) (k : Kernel) (c buf len : ℕ)
    → Trapped k c
    → (k.endpoints ep_uart).blocked_receiver_slot ≡ slot_none
    → accept_call b ep_uart buf len 0 0 len k
      ≡ done 0 (redirected b return_ipc_block c (kept k c buf len))
unfolding kept keep_message
accept_call-done b k c buf len t free =
    accept_call-through b k (kept k c buf len) c ep_uart buf len 0 0 len t
      (deliver-kept (noted ep_uart c 0 0 len k) ep_uart buf len free)
      (still_current k c _ t.current refl) refl refl

pub accept_call-routed :
    (b : Build) (k : Kernel) (c buf len : ℕ)
    → Trapped k c
    → (k.endpoints ep_uart).blocked_receiver_slot ≡ slot_none
    → Ensures (accept_call b ep_uart buf len 0 0 len k) (WaitsForServer k c buf len)
unfolding routed kept keep_message save_frame
accept_call-routed b k c buf len t free =
    subst (λ o. Ensures o (WaitsForServer k c buf len))
      (sym (accept_call-done b k c buf len t free))
      (refl, refl, ap (λ (th : Thread). th.user.return_reason) (update_self k.threads c _), refl)
