-- ===== src/Ipc/Deliver.antt =====
-- A message on its way: into the memory of a waiting receiver, or into the endpoint.
use d_rpi_proto_os.Base.{
  ℕ, ◌≤◌, ◌<◌, ◌≡◌, ◌≢◌, refl, inl, inr, true, arith, ◌==◌, Bool-cases, eq_of_==,
}
use d_rpi_proto_os.Config.{thread_slot_idle, ep_count, slot_none, ipc_msg_size}
use d_rpi_proto_os.State.{Kernel, Endpoint}
use d_rpi_proto_os.State.Effect.{Ensures}
use d_rpi_proto_os.Waits.Table.{at_receiver}
use d_rpi_proto_os.Invariant.{EndpointOk, Writable}
use d_rpi_proto_os.Handling.{Outside}
use d_rpi_proto_os.Handling.Ahead.{Ahead, Ahead-mem, Ahead-endpoint, Ahead-request}
use d_rpi_proto_os.Handling.Woken.{Ahead-wake, Ahead-clear_receiver}
use d_rpi_proto_os.Ipc.Copy.{bytes_copy_lem, bytes_copy_within_outside}
use d_rpi_proto_os.Ipc.{
  hand_to_receiver, keep_message, deliver, bytes_copy, bytes_copy_within, min_u64,
  endpoint_clear_receiver,
}

-- No copy into a buffer in the sandbox changes a byte outside it.
pub copy_confined :
    (n size : ℕ) (m : ℕ → ℕ) (d s a : ℕ)
    → Writable d size
    → n ≤ size
    → Outside a
    → bytes_copy_within n 0 m d s a ≡ m a
copy_confined n size m d s a w le out = bytes_copy_within_outside n m d s a (ground (arith, w))

pub copy_in_confined :
    (n size : ℕ) (m : ℕ → ℕ) (d : ℕ) (src : ℕ → ℕ) (s a : ℕ)
    → Writable d size
    → n ≤ size
    → Outside a
    → bytes_copy n 0 m d src s a ≡ m a
copy_in_confined n size m d src s a w le out = ground (arith, bytes_copy_lem n m d src s a, w)

module _ {k : Kernel} {c : ℕ} (small : c < thread_slot_idle) {k' : Kernel}
    (h : Ahead k c k' true) where
  module _ (i send_ptr send_len : ℕ) (lt : i < ep_count) where
    hand_to_receiver-Ahead :
        (k'.endpoints i).blocked_receiver_slot ≢ slot_none
        → (k'.endpoints i).blocked_receiver_slot ≢ c
        → Ensures (hand_to_receiver i send_ptr send_len k') (λ _ k''. Ahead k c k'' true)
    unfolding hand_to_receiver
    hand_to_receiver-Ahead busy ne =
        rw
          (
            (Ahead-wake small moved (at_receiver i) delivered lt busy ne).0,
            Ensures,
            hand_to_receiver,
          )
          (Ahead-request small
            (Ahead-clear_receiver small moved delivered i _ lt cleared_ok busy ne refl refl))
      where
        ep : Endpoint
        ep = k'.endpoints i

        ok : EndpointOk ep
        ok = h.stage.sound.endpoints_ok i lt

        delivered : ℕ
        delivered = min_u64 send_len ep.receiver_buf_cap

        moved :
            Ahead k c
              (record k' {
                mem = bytes_copy_within delivered 0 k'.mem ep.receiver_buf_ptr send_ptr;
              })
              true
        moved = Ahead-mem small h _ (λ a.
            copy_confined delivered ep.receiver_buf_cap k'.mem ep.receiver_buf_ptr send_ptr a
              ok.recv_buf (ground arith))

        cleared_ok : EndpointOk (endpoint_clear_receiver ep)
        cleared_ok = record {
          owner = ok.owner;
          reply_buf = ok.reply_buf;
          recv_buf = λ z. absurd (omega arith);
          fits = ok.fits;
          unheard = λ e. refl;
        }

    -- Whichever way the message goes, the kernel's records stay sound, and no byte outside the sandbox
    -- changes.
    pub deliver-Ahead :
        send_len ≤ ipc_msg_size
        → (k'.endpoints i).blocked_receiver_slot ≢ c
        → Ensures (deliver i send_ptr send_len k') (λ _ k''. Ahead k c k'' true)
    unfolding deliver keep_message
    deliver-Ahead le ne = elim (Bool-cases ((k'.endpoints i).blocked_receiver_slot == slot_none)) [
      | inl free ↦ rw free (
          Ahead-endpoint small h i _
            (record {
              owner = ok.owner;
              reply_buf = ok.reply_buf;
              recv_buf = ok.recv_buf;
              fits = le;
              unheard = λ e. eq_of_== _ _ free;
            })
            refl refl)
      | inr busy ↦ rw busy (hand_to_receiver-Ahead (ground arith) ne)
    ]
      where
        ok : EndpointOk (k'.endpoints i)
        ok = h.stage.sound.endpoints_ok i lt
