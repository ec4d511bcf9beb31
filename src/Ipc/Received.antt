-- ===== src/Ipc/Received.antt =====
-- `SYS_ipc_recv`, made by a running user task in a sound kernel.
use d_rpi_proto_os.Base.{
  ℕ, ◌<◌, ◌≡◌, refl, inl, inr, true, false, arith, ◌==◌, Bool-cases, eq_of_==,
}
use d_rpi_proto_os.Config.{ep_count, slot_none, minus_one}
use d_rpi_proto_os.State.{Kernel, Endpoint, Build, return_ipc_block}
use d_rpi_proto_os.State.Effect.{Ensures, done, put_endpoint}
use d_rpi_proto_os.Thread.Current.{thread_current_user_slot_lem}
use d_rpi_proto_os.Task.{thread_user_trap_redirect}
use d_rpi_proto_os.Invariant.{Writable}
use d_rpi_proto_os.Handling.{Trapped, Handled}
use d_rpi_proto_os.Handling.Ahead.{Ahead, Trapped-start, Ahead-receiver, Ahead-mem, Ahead-endpoint}
use d_rpi_proto_os.Handling.Woken.{Ahead-goes_on, Ahead-leaves}
use d_rpi_proto_os.Ipc.Deliver.{copy_in_confined}
use d_rpi_proto_os.Ipc.{
  receive_or_wait, recv_refused, ipc_syscall_recv, endpoint_clear_pending, bytes_copy, min_u64,
}
use d_rpi_proto_os.Ipc.Handled.{range_ok-Writable, refused}

-- The endpoint in which task `c` waits for a message.
abbrev pub receiving : Endpoint → ℕ → ℕ → ℕ → Endpoint
receiving ep c recv_ptr recv_cap = record ep {
  blocked_receiver_slot = c;
  receiver_buf_ptr = recv_ptr;
  receiver_buf_cap = recv_cap;
}

pub receive_or_wait_blocks :
    (b : Build) (i recv_ptr recv_cap c : ℕ) (k : Kernel) {k' : Kernel}
    → (k.endpoints i).has_pending ≡ false
    → (k.endpoints i).blocked_receiver_slot ≡ slot_none
    → thread_user_trap_redirect b return_ipc_block
        (put_endpoint i (receiving (k.endpoints i) c recv_ptr recv_cap) k)
      ≡ done tt k'
    → receive_or_wait b i recv_ptr recv_cap c k ≡ done 0 k'
unfolding receive_or_wait
receive_or_wait_blocks b i recv_ptr recv_cap c k none_kept free goes = ground arith

module _ {k : Kernel} {c : ℕ} (b : Build) (t : Trapped k c) where
  wait_for_message :
      (i recv_ptr recv_cap : ℕ)
      → i < ep_count
      → (k.endpoints i).has_pending ≡ false
      → (k.endpoints i).blocked_receiver_slot ≡ slot_none
      → Writable recv_ptr recv_cap
      → Ahead k c
          (put_endpoint i
            (record (k.endpoints i) {
              blocked_receiver_slot = c;
              receiver_buf_ptr = recv_ptr;
              receiver_buf_cap = recv_cap;
            })
            k)
          true
  wait_for_message i recv_ptr recv_cap lt none_kept free fits =
      let ok = t.sound.endpoints_ok i lt in
      Ahead-receiver t.small (Trapped-start t) i _ lt refl
        (record {
          owner = ok.owner;
          reply_buf = ok.reply_buf;
          recv_buf = fits;
          fits = ok.fits;
          unheard = λ e. ground arith;
        })
        free refl refl

  take_message :
      (i recv_ptr recv_cap : ℕ)
      → i < ep_count
      → Writable recv_ptr recv_cap
      → let ep = k.endpoints i in
        Ahead k c
          (put_endpoint i (endpoint_clear_pending ep) (record k {
            mem = bytes_copy (min_u64 ep.pending_len recv_cap) 0 k.mem recv_ptr ep.pending_msg 0;
          }))
          false
  take_message i recv_ptr recv_cap lt fits =
      let ep = k.endpoints i in
      let ok = t.sound.endpoints_ok i lt in
      Ahead-endpoint t.small
        (Ahead-mem t.small (Trapped-start t) _ (λ a.
          copy_in_confined (min_u64 ep.pending_len recv_cap) recv_cap k.mem recv_ptr ep.pending_msg
            0 a fits (ground arith)))
        i _
        (record {
          owner = ok.owner;
          reply_buf = ok.reply_buf;
          recv_buf = ok.recv_buf;
          fits = omega arith;
          unheard = λ e. ground arith;
        })
        refl refl

  -- Without a kept message and another receiver, the task waits.
  receive_or_wait-waits :
      (i recv_ptr recv_cap : ℕ)
      → i < ep_count
      → Writable recv_ptr recv_cap
      → (k.endpoints i).has_pending ≡ false
      → (k.endpoints i).blocked_receiver_slot ≡ slot_none
      → Ensures (receive_or_wait b i recv_ptr recv_cap c k) (λ _ k'. Handled b k c k')
  receive_or_wait-waits i recv_ptr recv_cap lt fits none_kept free =
      let (goes, handled) =
        Ahead-leaves b t return_ipc_block (λ e. cc)
          (wait_for_message i recv_ptr recv_cap lt none_kept free fits) in
      rw (receive_or_wait_blocks b i recv_ptr recv_cap c k none_kept free goes, Ensures) handled

  receive_or_wait-Handled :
      (i recv_ptr recv_cap : ℕ)
      → i < ep_count
      → Writable recv_ptr recv_cap
      → Ensures (receive_or_wait b i recv_ptr recv_cap c k) (λ _ k'. Handled b k c k')
  unfolding receive_or_wait
  receive_or_wait-Handled i recv_ptr recv_cap lt fits =
      elim (Bool-cases (k.endpoints i).has_pending) [
        | inl kept ↦ rw kept (Ahead-goes_on b t (take_message i recv_ptr recv_cap lt fits))
        | inr none_kept ↦ elim (Bool-cases ((k.endpoints i).blocked_receiver_slot == slot_none)) [
          | inl free ↦
              receive_or_wait-waits i recv_ptr recv_cap lt fits none_kept (eq_of_== _ _ free)
          | inr busy ↦ rw (none_kept, busy) (refused b t minus_one)
        ]
      ]

  -- `SYS_ipc_recv`.
  pub ipc_syscall_recv-Handled : Ensures (ipc_syscall_recv b k) (λ _ k'. Handled b k c k')
  unfolding ipc_syscall_recv
  ipc_syscall_recv-Handled = elim (Bool-cases (recv_refused k (x 0) (x 1) (x 2))) [
    | inl e ↦ rw e (refused b t minus_one)
    | inr e ↦ rw e (
        rw (thread_current_user_slot_lem k c t.current, Ensures)
          (elim (Bool-cases ((k.endpoints (x 0)).owner_slot == c)) [
            | inl own ↦ rw own (
                receive_or_wait-Handled (x 0) (x 1) (x 2) (ground arith)
                  (range_ok-Writable (x 1) (x 2) (ground arith)))
            | inr other ↦ rw other (refused b t minus_one)
          ]))
  ]
    where
      x : ℕ → ℕ
      x = k.frame.x
