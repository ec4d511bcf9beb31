-- ===== src/Ipc/Channel/Receive.antt =====
-- `SYS_ipc_recv` against the channel's promise.
use d_rpi_proto_os.Base.{
  ℕ, ◌≡◌, refl, ap, sym, ◌∙◌, inl, inr, Bool, true, false, ◌&&◌, not, ◌==◌, arith, Bool-cases,
  update_self, ==_of_ne, eq_of_==,
}
use d_rpi_proto_os.Config.{slot_none}
use d_rpi_proto_os.State.{Kernel, Thread, Build, return_ipc_block}
use d_rpi_proto_os.State.Effect.{Ensures, put_endpoint}
use d_rpi_proto_os.Thread.Current.{thread_current_user_slot_lem}
use d_rpi_proto_os.Task.{save_frame}
use d_rpi_proto_os.Task.Redirect.{thread_user_trap_redirect_lem}
use d_rpi_proto_os.Handling.{Trapped}
use d_rpi_proto_os.Ipc.{
  receive_or_wait, recv_refused, ipc_syscall_recv, el0_buf_range_ok, endpoint_valid,
}
use d_rpi_proto_os.Ipc.Copy.{bytes_copy_lem}
use d_rpi_proto_os.Ipc.Received.{receiving, receive_or_wait_blocks}
use d_rpi_proto_os.Ipc.Channel.{Response, Channel, Receiver, receive, fetch}
use d_rpi_proto_os.Ipc.Channel.Meaning.{channel_of, Meets}
use d_rpi_proto_os.Ipc.Channel.Texts.{Copied-Holds, taken_length}
use d_rpi_proto_os.Ipc.Channel.Parts.{still_current}
use d_rpi_proto_os.Ipc.Channel.Call.{refused-Meets}

-- The tests on the arguments.
abbrev pub recv_sensible : (ℕ → ℕ) → Bool
recv_sensible x = endpoint_valid (x 0) && el0_buf_range_ok (x 1) (x 2)

abbrev pub recv_promise : Kernel → ℕ → Response
recv_promise k c =
    let x = k.frame.x in
    receive (recv_sensible x) (channel_of (k.endpoints (x 0)))
      (record { slot = c; ptr = x 1; cap = x 2 })

module _ (b : Build) (k : Kernel) (c i ptr room : ℕ) (t : Trapped k c) where
  abbrev ch : Channel
  ch = channel_of (k.endpoints i)

  abbrev me : Receiver
  me = record { slot = c; ptr = ptr; cap = room }

  busy_slot : (c == slot_none) ≡ false
  busy_slot = ==_of_ne c slot_none (ground (arith, t.small))

  -- A message is there.
  fetched-Meets :
      (k.endpoints i).has_pending ≡ true
      → Ensures
          (receive_or_wait b i ptr room c k)
          (Meets b k c i (fetch ch ch.message ch.receiver me))
  unfolding receive_or_wait
  fetched-Meets kept =
      rw (kept, Ensures)
        (record {
          channel = ap channel_of (update_self k.endpoints i _);
          others = λ j ne. ground arith;
          sees = (
            sym (taken_length (k.endpoints i).pending_msg 0 (k.endpoints i).pending_len room),
            refl,
            refl,
          );
          happens = (
            Copied-Holds _ k.mem (k.endpoints i).pending_msg ptr 0 (k.endpoints i).pending_len room
                (λ a. bytes_copy_lem _ k.mem ptr (k.endpoints i).pending_msg 0 a),
            λ s ne. refl,
          );
        })

  -- The task waits.
  waits-Meets :
      (k.endpoints i).has_pending ≡ false
      → (k.endpoints i).blocked_receiver_slot ≡ slot_none
      → Ensures
          (receive_or_wait b i ptr room c k)
          (Meets b k c i (fetch ch ch.message ch.receiver me))
  unfolding save_frame
  waits-Meets none_kept free =
      let e = receiving (k.endpoints i) c ptr room in
      let goes = receive_or_wait_blocks b i ptr room c k none_kept free (
        thread_user_trap_redirect_lem b return_ipc_block (put_endpoint i e k) c
          (still_current k c _ t.current refl) (t.sound.threads_ok c (ground (arith, t.small)))
          t.elr) in
      rw (goes, Ensures, none_kept, free)
        (record {
          channel = ap channel_of (update_self k.endpoints i _) ∙ rw busy_slot refl;
          others = λ j ne. ground arith;
          sees = (ap (λ (th : Thread). th.user.return_reason) (update_self k.threads c _), refl);
          happens = (λ a. refl, λ s ne. ground arith);
        })

  receive_or_wait-Meets :
      Ensures
        (receive_or_wait b i ptr room c k)
        (Meets b k c i (fetch ch ch.message ch.receiver me))
  unfolding receive_or_wait
  receive_or_wait-Meets = elim (Bool-cases (k.endpoints i).has_pending) [
    | inl kept ↦ fetched-Meets kept
    | inr none_kept ↦ elim (Bool-cases ((k.endpoints i).blocked_receiver_slot == slot_none)) [
      | inl free ↦ waits-Meets none_kept (eq_of_== _ _ free)
      | inr other ↦
          rw (none_kept, other)
            (record {
              channel = rw (none_kept, other) refl;
              others = λ j ne. refl;
              sees = (refl, refl);
              happens = (λ a. refl, λ s ne. refl);
            })
    ]
  ]

recv_guard :
    (k : Kernel) (c : ℕ)
    → let x = k.frame.x in
      let owner = (k.endpoints (x 0)).owner_slot in
      (recv_sensible x && not (owner == slot_none) && (owner == c))
      ≡ (not (recv_refused k (x 0) (x 1) (x 2)) && (owner == c))
recv_guard k c = ground arith

module _ (b : Build) (k : Kernel) (c : ℕ) (t : Trapped k c) where
  pub ipc_syscall_recv-Meets :
      Ensures (ipc_syscall_recv b k) (Meets b k c (k.frame.x 0) (recv_promise k c))
  unfolding ipc_syscall_recv
  ipc_syscall_recv-Meets =
      let x = k.frame.x in
      elim (Bool-cases (recv_refused k (x 0) (x 1) (x 2))) [
        | inl e ↦ rw (recv_guard k c, e) (refused-Meets b k c t (x 0))
        | inr e ↦
            rw (recv_guard k c, e)
              (rw (thread_current_user_slot_lem k c t.current, Ensures)
                (elim (Bool-cases ((k.endpoints (x 0)).owner_slot == c)) [
                  | inl own ↦ rw own (receive_or_wait-Meets b k c (x 0) (x 1) (x 2) t)
                  | inr other ↦ rw other (refused-Meets b k c t (x 0))
                ]))
      ]
