-- ===== src/Syscall/Printed.antt =====
-- A routed write from the call to the output: the call, the server's receive, its own write of what it has
-- received, and its reply.
use d_rpi_proto_os.Base.{
  ℕ, ◌+◌, ◌≤◌, ◌<◌, ◌≡◌, ◌≢◌, refl, ap, ◌∙◌, inl, inr, true, false, ◌++◌, arith,
}
use d_rpi_proto_os.Config.{
  micro, ep_uart, ipc_msg_size, slot_none, thread_slot_task_b, thread_slot_task_c,
}
use d_rpi_proto_os.State.{Kernel, Build, is_stopped}
use d_rpi_proto_os.State.Effect.{Ensures, done, crlf}
use d_rpi_proto_os.Thread.Current.{IsCurrent}
use d_rpi_proto_os.Invariant.{ThreadOk}
use d_rpi_proto_os.Handling.{Trapped}
use d_rpi_proto_os.Ipc.{
  answer, el0_buf_range_ok, route_refused, receive_or_wait, endpoint_clear_pending, min_u64,
}
use d_rpi_proto_os.Ipc.Rendezvous.{Copied}
use d_rpi_proto_os.Ipc.Accepted.{routed, WaitsForServer, ServerGets}
use d_rpi_proto_os.Syscall.{el0_origin, el0_write_range_ok, syscall_write}
use d_rpi_proto_os.State.Output.{bytes_from}
use d_rpi_proto_os.Ipc.Channel.Texts.{bytes_from_same}
use d_rpi_proto_os.Syscall.Direct.{syscall_write-direct}
use d_rpi_proto_os.Syscall.Routed.{WriteReturns, write_to_reply}
use mathlib.Core.Path.{subst}

-- A buffer that a call may fill can be written out, as far as it is filled.
write_range_of_buf_range :
    (buf len n : ℕ) → el0_buf_range_ok buf len ≡ true → n ≤ len → el0_write_range_ok buf n ≡ true
unfolding el0_buf_range_ok el0_write_range_ok
write_range_of_buf_range buf len n ok le = ground arith

byte_of_copy :
    (m' m old : ℕ → ℕ) (dst src n j : ℕ)
    → Copied m' m dst old src n
    → j < n
    → m' (dst + j) ≡ old (src + j)
byte_of_copy m' m old dst src n j copied lt = ground (arith, copied (dst + j))

-- The server's own write goes to the UART.
server_prints :
    (b : Build) (k k1 k2 k3 : Kernel) (c buf len recv_ptr recv_cap n : ℕ)
    → ServerGets k k1 c buf len recv_ptr recv_cap n k2
    → el0_buf_range_ok recv_ptr recv_cap ≡ true
    → IsCurrent k3 thread_slot_task_b
    → ((j : ℕ) → j < n → k3.mem (recv_ptr + j) ≡ k2.mem (recv_ptr + j))
    → syscall_write b el0_origin recv_ptr n k3
      ≡ done n (record k3 { uart = k3.uart ++ crlf (bytes_from k.mem buf 0 n) })
server_prints b k k1 k2 k3 c buf len recv_ptr recv_cap n (count, copied, _) room current same =
    syscall_write-direct b k3 thread_slot_task_b recv_ptr n current (inr (inl refl))
      (write_range_of_buf_range recv_ptr recv_cap n room (ground (arith, count)))
    ∙ ap (λ text. done n (record k3 { uart = k3.uart ++ crlf text }))
        (bytes_from_same k3.mem k.mem recv_ptr buf 0 n (λ j lt.
          same j (omega arith)
          ∙ byte_of_copy k2.mem k1.mem k.mem recv_ptr buf (min_u64 len recv_cap) j copied
              (omega (arith, count))))

module _ (b : Build) (k : Kernel) (c buf len : ℕ) (f : b.flavor ≡ micro) (t : Trapped k c)
    (not_b : c ≢ thread_slot_task_b) (not_c : c ≢ thread_slot_task_c) (le : len ≤ ipc_msg_size)
    (range : el0_write_range_ok buf len ≡ true) (free : route_refused k buf len ≡ false) where
  -- In MICRO, if user task c, which is neither task B nor task C, has trapped, its buffer is
  -- accepted and has at most 256 bytes, and the server's endpoint is owned, free and without a
  -- waiting receiver, then its write blocks it and leaves the output alone. In any later state with
  -- the endpoint as the write left it, a receive that ends with a count into a buffer of the
  -- sandbox has put the bytes as they were at the write there, as far as there is room, and counts
  -- them. In any later state in which task B runs and its buffer holds these bytes, its own write
  -- of that count appends them to the output, with a carriage return before each newline, and
  -- changes nothing else. In any later state with the endpoint as the receive left it, and c alive
  -- and in its place, a reply of any length wakes c, with the length of its text as the write's
  -- result, and changes no memory.
  pub write_to_output :
      (k1 k2 k3 k4 : Kernel) (recv_ptr recv_cap slot n reply_ptr reply_len : ℕ)
      → (k.endpoints ep_uart).blocked_receiver_slot ≡ slot_none
      → k1.endpoints ep_uart ≡ routed k c buf len
      → el0_buf_range_ok recv_ptr recv_cap ≡ true
      → receive_or_wait b ep_uart recv_ptr recv_cap slot k1 ≡ done n k2
      → IsCurrent k3 thread_slot_task_b
      → ((j : ℕ) → j < n → k3.mem (recv_ptr + j) ≡ k2.mem (recv_ptr + j))
      → k4.endpoints ep_uart ≡ endpoint_clear_pending (routed k c buf len)
      → ThreadOk c (k4.threads c)
      → is_stopped (k4.threads c).state ≡ false
      → Ensures (syscall_write b el0_origin buf len k) (WaitsForServer k c buf len)
        × ServerGets k k1 c buf len recv_ptr recv_cap n k2
        × (syscall_write b el0_origin recv_ptr n k3
            ≡ done n (record k3 { uart = k3.uart ++ crlf (bytes_from k.mem buf 0 n) }))
        × Ensures (answer ep_uart reply_ptr reply_len k4) (WriteReturns k4 c len)
  write_to_output k1 k2 k3 k4 recv_ptr recv_cap slot n reply_ptr reply_len no_receiver sent room got
        current same cleared ok live =
      let (waits, gets, returns) =
        write_to_reply b k c buf len f t not_b not_c le range free k1 k4 recv_ptr recv_cap slot
          reply_ptr reply_len no_receiver sent cleared ok live in
      let has = subst (λ o. Ensures o (ServerGets k k1 c buf len recv_ptr recv_cap)) got gets in
      (
        waits,
        has,
        server_prints b k k1 k2 k3 c buf len recv_ptr recv_cap n has room current same,
        returns,
      )
