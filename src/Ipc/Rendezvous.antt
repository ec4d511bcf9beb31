-- ===== src/Ipc/Rendezvous.antt =====
-- The transfer of a message: what reaches the receiver, whoever comes first, and what the reply brings
-- back to the caller.
use d_rpi_proto_os.Base.{
  ℕ, ◌+◌, ◌-◌, ◌≤◌, ◌<◌, ◌≡◌, ◌⊎◌, refl, true, false, ◌&&◌, ◌==◌, if◌then◌else◌, ltb, leb, arith,
  ==_refl, ==_of_ne, update_self,
}
use d_rpi_proto_os.Config.{thread_slot_idle, slot_none}
use d_rpi_proto_os.State.{Kernel, Build, is_stopped}
use d_rpi_proto_os.State.Effect.{Ensures, done}
use d_rpi_proto_os.Task.{woken}
use d_rpi_proto_os.Task.Wake.{thread_user_wake_with_x0_lem}
use d_rpi_proto_os.Thread.{thread_request_resched}
use d_rpi_proto_os.Invariant.{ThreadOk}
use d_rpi_proto_os.Ipc.{
  bytes_copy, bytes_copy_within, min_u64, hand_to_receiver, keep_message, deliver, receive_or_wait,
  answer, endpoint_clear_receiver, endpoint_clear_caller,
}
use d_rpi_proto_os.Ipc.Copy.{bytes_copy_lem, bytes_copy_within_lem}

-- Memory `m'` is `m` with the `n` bytes at `src` of `old` copied to `dst`.
abbrev pub Copied : (ℕ → ℕ) → (ℕ → ℕ) → ℕ → (ℕ → ℕ) → ℕ → ℕ → Type 0
Copied m' m dst old src n =
    (a : ℕ) → m' a ≡ (if leb dst a && ltb a (dst + n) then old (src + (a - dst)) else m a)

-- The copy of `n` bytes from `s` to `d` reads no byte that it has written.
abbrev pub ForwardSafe : ℕ → ℕ → ℕ → Type 0
ForwardSafe d s n = (d ≤ s) ⊎ (s + n ≤ d)

-- If no receiver waits at the endpoint, the delivery keeps the message; and a receive in any later
-- state whose endpoint is as the delivery left it returns the smaller of the message's length and
-- the receiver's room, has copied that many bytes as they were at the call, has changed no other
-- memory, and has cleared the pending mark.
pub call_then_receive :
    (b : Build) (k k' : Kernel) (i send_ptr send_len recv_ptr recv_cap slot : ℕ)
    → (k.endpoints i).blocked_receiver_slot ≡ slot_none
    → k'.endpoints i ≡ (keep_message i send_ptr send_len k).endpoints i
    → (deliver i send_ptr send_len k ≡ done tt (keep_message i send_ptr send_len k))
      × Ensures (receive_or_wait b i recv_ptr recv_cap slot k') (λ r after.
        (r ≡ min_u64 send_len recv_cap)
        × Copied after.mem k'.mem recv_ptr k.mem send_ptr (min_u64 send_len recv_cap)
        × ((after.endpoints i).has_pending ≡ false))
unfolding deliver keep_message receive_or_wait
call_then_receive b k k' i send_ptr send_len recv_ptr recv_cap slot free same = (
  ground arith,
  rw same (
      rw (==_refl i) (
        refl,
        λ a. ground (
          arith,
          bytes_copy_lem (min_u64 send_len recv_cap) k'.mem recv_ptr
              (bytes_copy send_len 0 (k.endpoints i).pending_msg 0 k.mem send_ptr) 0 a,
          bytes_copy_lem send_len (k.endpoints i).pending_msg 0 k.mem send_ptr (0 + (a - recv_ptr)),
        ),
        rw (==_refl i) refl,
      )),
)

module _ (k : Kernel) (i r ptr len : ℕ) (lt : r < thread_slot_idle) (ok : ThreadOk r (k.threads r))
    (live : is_stopped (k.threads r).state ≡ false) where
  -- If user task r, alive and in its place, waits as the endpoint's receiver, and the copy to its
  -- buffer does not start inside the bytes still to be read, the delivery does not panic: it copies
  -- the smaller of the message's length and the receiver's room and changes no other memory, wakes
  -- r with that number, removes r from the endpoint and requests a switch.
  receive_then_call :
      (k.endpoints i).blocked_receiver_slot ≡ r
      → ForwardSafe
          (k.endpoints i).receiver_buf_ptr
          ptr
          (min_u64 len (k.endpoints i).receiver_buf_cap)
      → let n = min_u64 len (k.endpoints i).receiver_buf_cap in
        Ensures (deliver i ptr len k) (λ _ after.
          Copied after.mem k.mem (k.endpoints i).receiver_buf_ptr k.mem ptr n
          × (after.threads r ≡ woken n (k.threads r))
          × (after.endpoints i ≡ endpoint_clear_receiver (k.endpoints i))
          × (after.resched_pending ≡ true))
  unfolding deliver hand_to_receiver thread_request_resched
  receive_then_call at safe =
      let ep = k.endpoints i in
      let n = min_u64 len ep.receiver_buf_cap in
      let m = bytes_copy_within n 0 k.mem ep.receiver_buf_ptr ptr in
      let busy : (r == slot_none) ≡ false = ==_of_ne r slot_none (omega arith) in
      rw (at, busy, thread_user_wake_with_x0_lem r n (record k { mem = m }) lt ok live, Ensures)
        (
          λ a. bytes_copy_within_lem n k.mem ep.receiver_buf_ptr ptr a safe,
          update_self k.threads r (woken n (k.threads r)),
          update_self k.endpoints i (endpoint_clear_receiver ep),
          refl,
        )

  -- If user task r, alive and in its place, waits as the endpoint's caller, and the copy to its
  -- buffer does not start inside the bytes still to be read, the answer does not panic and returns
  -- 0: it copies the smaller of the reply's length and the caller's room and changes no other
  -- memory, wakes r with that number or with the result that a routed write has fixed, removes r
  -- from the endpoint and requests a switch.
  pub reply-caller :
      (k.endpoints i).blocked_caller_slot ≡ r
      → ForwardSafe
          (k.endpoints i).caller_reply_ptr
          ptr
          (min_u64 len (k.endpoints i).caller_reply_cap)
      → let ep = k.endpoints i in
        let n = min_u64 len ep.caller_reply_cap in
        Ensures (answer i ptr len k) (λ result after.
          (result ≡ 0)
          × Copied after.mem k.mem ep.caller_reply_ptr k.mem ptr n
          × (after.threads r
              ≡ woken
                  (if ep.caller_result_override == 0 then n else ep.caller_result_override)
                  (k.threads r))
          × (after.endpoints i ≡ endpoint_clear_caller ep)
          × (after.resched_pending ≡ true))
  unfolding answer thread_request_resched
  reply-caller at safe =
      let ep = k.endpoints i in
      let n = min_u64 len ep.caller_reply_cap in
      let m = bytes_copy_within n 0 k.mem ep.caller_reply_ptr ptr in
      let v = if ep.caller_result_override == 0 then n else ep.caller_result_override in
      rw (at, thread_user_wake_with_x0_lem r v (record k { mem = m }) lt ok live, Ensures)
        (
          refl,
          λ a. bytes_copy_within_lem n k.mem ep.caller_reply_ptr ptr a safe,
          update_self k.threads r (woken v (k.threads r)),
          update_self k.endpoints i (endpoint_clear_caller ep),
          refl,
        )
