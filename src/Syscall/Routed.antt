-- ===== src/Syscall/Routed.antt =====
-- A routed write from the call to the reply: in MICRO, task A's text reaches the UART server's endpoint,
-- and the server's reply wakes task A with the length of its text.
use d_rpi_proto_os.Base.{
  ℕ, ◌≤◌, ◌≡◌, ◌≢◌, refl, ap, sym, ◌∙◌, inl, true, false, ◌==◌, if◌then◌else◌, arith,
}
use d_rpi_proto_os.Config.{
  micro, ep_uart, ipc_msg_size, slot_none, thread_slot_task_b, thread_slot_task_c,
}
use d_rpi_proto_os.State.{Kernel, Endpoint, Build, is_stopped}
use d_rpi_proto_os.State.Effect.{Ensures, Ensures-map}
use d_rpi_proto_os.Task.{woken}
use d_rpi_proto_os.Thread.Current.{IsCurrent, thread_current_user_slot_lem}
use d_rpi_proto_os.Invariant.{ThreadOk}
use d_rpi_proto_os.Handling.{Trapped}
use d_rpi_proto_os.Ipc.{
  accept_call, answer, ipc_route_uart_write, route_refused, receive_or_wait, endpoint_clear_pending,
  endpoint_clear_caller, min_u64,
}
use d_rpi_proto_os.Ipc.Rendezvous.{Copied, reply-caller}
use d_rpi_proto_os.Syscall.{el0_origin, el0_write_range_ok, write_from_el0, syscall_write}
use mathlib.Core.Path.{subst}
use d_rpi_proto_os.Ipc.Accepted.{
  routed, WaitsForServer, ServerGets, receive-routed, accept_call-routed,
}

-- The caller is ready, and its write returns the length; its memory is as it was.
abbrev pub WriteReturns : Kernel → ℕ → ℕ → ℕ → Kernel → Type 0
WriteReturns k' c len result after =
    (result ≡ 0)
    × (after.threads c ≡ woken len (k'.threads c))
    × ((a : ℕ) → after.mem a ≡ k'.mem a)
    × (after.endpoints ep_uart ≡ endpoint_clear_caller (k'.endpoints ep_uart))

range-some_buffer : (buf len : ℕ) → el0_write_range_ok buf len ≡ true → (buf == 0) ≡ false
unfolding el0_write_range_ok
range-some_buffer buf len range = ground (arith, range)

route_to_call :
    (b : Build) (k : Kernel) (buf len : ℕ)
    → route_refused k buf len ≡ false
    → ipc_route_uart_write b buf len k ≡ accept_call b ep_uart buf len 0 0 len k
unfolding ipc_route_uart_write
route_to_call b k buf len free = rw free refl

write_from_el0-routes :
    (b : Build) (k : Kernel) (c buf len : ℕ)
    → IsCurrent k c
    → c ≢ thread_slot_task_b
    → c ≢ thread_slot_task_c
    → len ≤ ipc_msg_size
    → write_from_el0 b micro buf len k ≡ ipc_route_uart_write b buf len k
unfolding write_from_el0
write_from_el0-routes b k c buf len current not_b not_c le =
    ground (arith, thread_current_user_slot_lem k c current)

syscall_write-checked :
    (b : Build) (k : Kernel) (buf len : ℕ)
    → el0_write_range_ok buf len ≡ true
    → syscall_write b el0_origin buf len k ≡ write_from_el0 b b.flavor buf len k
unfolding syscall_write
syscall_write-checked b k buf len range = rw (range-some_buffer buf len range, range) refl

module _ (b : Build) (k : Kernel) (c buf len : ℕ) (f : b.flavor ≡ micro) (t : Trapped k c)
    (not_b : c ≢ thread_slot_task_b) (not_c : c ≢ thread_slot_task_c) (le : len ≤ ipc_msg_size)
    (range : el0_write_range_ok buf len ≡ true) (free : route_refused k buf len ≡ false) where
  syscall_write-routes :
      syscall_write b el0_origin buf len k ≡ accept_call b ep_uart buf len 0 0 len k
  syscall_write-routes =
      syscall_write-checked b k buf len range
      ∙ ap (λ fl. write_from_el0 b fl buf len k) f
      ∙ write_from_el0-routes b k c buf len t.current not_b not_c le
      ∙ route_to_call b k buf len free

  -- In MICRO, if user task c, which is neither task B nor task C, has trapped, its buffer is
  -- accepted and has at most 256 bytes, and the server's endpoint is owned, free and without a
  -- waiting receiver, then its write blocks it and leaves the output alone. In any later state with
  -- the endpoint as the write left it, a receive gets the bytes as they were at the write, as far
  -- as its buffer has room. In any later state with the endpoint as that receive left it, and c
  -- alive and in its place, a reply of any length wakes c, with the length of its text as the
  -- write's result, and changes no memory.
  pub write_to_reply :
      (k1 k' : Kernel) (recv_ptr recv_cap slot reply_ptr reply_len : ℕ)
      → (k.endpoints ep_uart).blocked_receiver_slot ≡ slot_none
      → k1.endpoints ep_uart ≡ routed k c buf len
      → k'.endpoints ep_uart ≡ endpoint_clear_pending (routed k c buf len)
      → ThreadOk c (k'.threads c)
      → is_stopped (k'.threads c).state ≡ false
      → Ensures (syscall_write b el0_origin buf len k) (WaitsForServer k c buf len)
        × Ensures
            (receive_or_wait b ep_uart recv_ptr recv_cap slot k1)
            (ServerGets k k1 c buf len recv_ptr recv_cap)
        × Ensures (answer ep_uart reply_ptr reply_len k') (WriteReturns k' c len)
  unfolding routed
  write_to_reply k1 k' recv_ptr recv_cap slot reply_ptr reply_len no_receiver sent same ok live =
      let caller = ap (λ (ep : Endpoint). ep.blocked_caller_slot) same in
      let place = ap (λ (ep : Endpoint). ep.caller_reply_ptr) same in
      (
        subst (λ o. Ensures o (WaitsForServer k c buf len)) (sym syscall_write-routes)
            (accept_call-routed b k c buf len t no_receiver),
        receive-routed b k k1 c buf len recv_ptr recv_cap slot sent,
        Ensures-map weaker _ (
            reply-caller k' ep_uart c reply_ptr reply_len t.small ok live caller
              (inl (omega (arith, place)))),
      )
    where
      weaker :
          (r : ℕ) (after : Kernel)
          → (let ep = k'.endpoints ep_uart in
              let n = min_u64 reply_len ep.caller_reply_cap in
              (r ≡ 0)
              × Copied after.mem k'.mem ep.caller_reply_ptr k'.mem reply_ptr n
              × (after.threads c
                  ≡ woken
                      (if ep.caller_result_override == 0 then n else ep.caller_result_override)
                      (k'.threads c))
              × (after.endpoints ep_uart ≡ endpoint_clear_caller ep)
              × (after.resched_pending ≡ true))
          → WriteReturns k' c len r after
      weaker r after (zero_result, copied, awake, cleared, resched) =
          let room = ap (λ (ep : Endpoint). ep.caller_reply_cap) same in
          let result = ap (λ (ep : Endpoint). ep.caller_result_override) same in
          (
            zero_result,
            awake ∙ ap (λ v. woken v (k'.threads c)) (ground (arith, room, result)),
            λ a. copied a ∙ ground (arith, room),
            cleared,
          )
