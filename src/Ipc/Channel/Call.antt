-- ===== src/Ipc/Channel/Call.antt =====
-- `SYS_ipc_call` and the routed write against the channel's promise.
use d_rpi_proto_os.Base.{ℕ, ◌≡◌, refl, inl, inr, Bool, ◌&&◌, not, ltb, arith, Bool-cases}
use d_rpi_proto_os.Config.{ep_uart, minus_one, ipc_msg_size}
use d_rpi_proto_os.State.{Kernel, Build}
use d_rpi_proto_os.State.Effect.{Ensures}
use d_rpi_proto_os.State.Output.{bytes_from}
use d_rpi_proto_os.Handling.{Trapped}
use d_rpi_proto_os.Ipc.{
  call_refused, route_refused, ipc_route_uart_write, ipc_syscall_call, el0_buf_range_ok,
  endpoint_valid, min_u64,
}
use d_rpi_proto_os.Ipc.Rendezvous.{ForwardSafe}
use d_rpi_proto_os.Ipc.Channel.{Response, call, can_call, refuse}
use d_rpi_proto_os.Ipc.Channel.Meaning.{channel_of, Meets}
use d_rpi_proto_os.Ipc.Channel.Passing.{accept_call-Meets}

-- The tests on the arguments.
abbrev pub call_sensible : (ℕ → ℕ) → Bool
call_sensible x =
    endpoint_valid (x 0)
    && not (ltb ipc_msg_size (x 2))
    && (el0_buf_range_ok (x 1) (x 2) && el0_buf_range_ok (x 3) (x 4))

abbrev pub call_promise : Kernel → ℕ → Response
call_promise k c =
    let x = k.frame.x in
    call (call_sensible x) (channel_of (k.endpoints (x 0)))
      (record { slot = c; ptr = x 3; cap = x 4; fixed = 0 }) (bytes_from k.mem (x 1) 0 (x 2))

call_refused-same :
    (k : Kernel)
    → let x = k.frame.x in
      (call_sensible x && can_call (channel_of (k.endpoints (x 0))))
      ≡ not (call_refused k (x 0) (x 1) (x 2) (x 3) (x 4))
call_refused-same k = ground arith

-- The tests on the arguments of a routed write.
abbrev pub route_sensible : ℕ → ℕ → Bool
route_sensible buf len = not (ltb ipc_msg_size len) && el0_buf_range_ok buf len

abbrev pub route_promise : Kernel → ℕ → ℕ → ℕ → Response
route_promise k c buf len =
    call (route_sensible buf len) (channel_of (k.endpoints ep_uart))
      (record { slot = c; ptr = 0; cap = 0; fixed = len }) (bytes_from k.mem buf 0 len)

route_refused-same :
    (k : Kernel) (buf len : ℕ)
    → (route_sensible buf len && can_call (channel_of (k.endpoints ep_uart)))
      ≡ not (route_refused k buf len)
route_refused-same k buf len = ground arith

-- The copy to the receiver's buffer does not start inside the bytes still to be read.
abbrev pub Passable : Kernel → ℕ → ℕ → ℕ → Type 0
Passable k i ptr len =
    let ep = k.endpoints i in ForwardSafe ep.receiver_buf_ptr ptr (min_u64 len ep.receiver_buf_cap)

module _ (b : Build) (k : Kernel) (c : ℕ) (t : Trapped k c) where
  pub refused-Meets : (i : ℕ) → Meets b k c i (refuse (channel_of (k.endpoints i))) minus_one k
  refused-Meets i = record {
    channel = refl;
    others = λ j ne. refl;
    sees = (refl, refl);
    happens = (λ a. refl, λ s ne. refl);
  }

  pub ipc_syscall_call-Meets :
      Passable k (k.frame.x 0) (k.frame.x 1) (k.frame.x 2)
      → Ensures (ipc_syscall_call b k) (Meets b k c (k.frame.x 0) (call_promise k c))
  unfolding ipc_syscall_call
  ipc_syscall_call-Meets safe =
      let x = k.frame.x in
      elim (Bool-cases (call_refused k (x 0) (x 1) (x 2) (x 3) (x 4))) [
        | inl e ↦ rw (call_refused-same k, e) (refused-Meets (x 0))
        | inr e ↦
            rw (call_refused-same k, e)
              (accept_call-Meets b k c (x 0) (x 1) (x 2) (x 3) (x 4) 0 t (ground arith) safe)
      ]

  pub ipc_route_uart_write-Meets :
      (buf len : ℕ)
      → Passable k ep_uart buf len
      → Ensures (ipc_route_uart_write b buf len k) (Meets b k c ep_uart (route_promise k c buf len))
  unfolding ipc_route_uart_write
  ipc_route_uart_write-Meets buf len safe = elim (Bool-cases (route_refused k buf len)) [
    | inl e ↦ rw (route_refused-same k buf len, e) (refused-Meets ep_uart)
    | inr e ↦
        rw (route_refused-same k buf len, e)
          (accept_call-Meets b k c ep_uart buf len 0 0 len t (omega arith) safe)
  ]
