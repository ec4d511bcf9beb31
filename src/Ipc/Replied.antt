-- ===== src/Ipc/Replied.antt =====
-- `SYS_ipc_reply`, made by a running user task in a sound kernel.
use d_rpi_proto_os.Base.{ℕ, ◌<◌, ◌≢◌, refl, inl, inr, false, arith, ◌==◌, if◌then◌else◌, Bool-cases}
use d_rpi_proto_os.Config.{ep_count, slot_none, minus_one}
use d_rpi_proto_os.State.{Kernel, Endpoint, Build}
use d_rpi_proto_os.State.Effect.{Ensures}
use d_rpi_proto_os.Thread.Current.{thread_current_user_slot_lem}
use d_rpi_proto_os.Waits.Table.{at_caller}
use d_rpi_proto_os.Invariant.{EndpointOk}
use d_rpi_proto_os.Handling.{Trapped, Handled}
use d_rpi_proto_os.Handling.Ahead.{Ahead, Trapped-start, Ahead-mem, Ahead-request}
use d_rpi_proto_os.Handling.Woken.{Ahead-wake, Ahead-clear_caller, Ahead-goes_on}
use d_rpi_proto_os.Ipc.Deliver.{copy_confined}
use d_rpi_proto_os.Ipc.{
  answer, reply_refused, turned_away, ipc_syscall_reply, bytes_copy_within, endpoint_clear_caller,
  min_u64,
}
use d_rpi_proto_os.Ipc.Handled.{unrecorded, refused}

module _ {k : Kernel} {c : ℕ} (b : Build) (t : Trapped k c) where
  answer-Handled :
      (i reply_ptr reply_len : ℕ)
      → i < ep_count
      → (k.endpoints i).blocked_caller_slot ≢ slot_none
      → Ensures (answer i reply_ptr reply_len k) (λ _ k'. Handled b k c k')
  unfolding answer
  answer-Handled i reply_ptr reply_len lt busy =
      rw ((Ahead-wake t.small copied (at_caller i) wake_ret lt busy ne).0, Ensures, answer)
        (Ahead-goes_on b t (
          Ahead-request t.small
            (Ahead-clear_caller t.small copied wake_ret i _ lt ok' busy ne refl refl)))
    where
      ep : Endpoint
      ep = k.endpoints i

      ok : EndpointOk ep
      ok = t.sound.endpoints_ok i lt

      ne : (k.endpoints i).blocked_caller_slot ≢ c
      ne = unrecorded b t (at_caller i) lt

      count : ℕ
      count = min_u64 reply_len ep.caller_reply_cap

      wake_ret : ℕ
      wake_ret = if ep.caller_result_override == 0 then count else ep.caller_result_override

      copied :
          Ahead k c
            (record k { mem = bytes_copy_within count 0 k.mem ep.caller_reply_ptr reply_ptr })
            false
      copied = Ahead-mem t.small (Trapped-start t) _ (λ a.
          copy_confined count ep.caller_reply_cap k.mem ep.caller_reply_ptr reply_ptr a ok.reply_buf
            (ground arith))

      ok' : EndpointOk (endpoint_clear_caller ep)
      ok' = record {
        owner = ok.owner;
        reply_buf = λ z. absurd (omega arith);
        recv_buf = ok.recv_buf;
        fits = ok.fits;
        unheard = ok.unheard;
      }

  -- `SYS_ipc_reply`.
  pub ipc_syscall_reply-Handled : Ensures (ipc_syscall_reply b k) (λ _ k'. Handled b k c k')
  unfolding ipc_syscall_reply
  ipc_syscall_reply-Handled = elim (Bool-cases (reply_refused k (x 0) (x 1) (x 2))) [
    | inl e ↦ rw e (refused b t minus_one)
    | inr e ↦ rw e (
        rw (thread_current_user_slot_lem k c t.current, Ensures)
          (elim (Bool-cases (turned_away (k.endpoints (x 0)) c)) [
            | inl away ↦ rw away (refused b t minus_one)
            | inr let_in ↦
                rw let_in (answer-Handled (x 0) (x 1) (x 2) (ground arith) (ground arith))
          ]))
  ]
    where
      x : ℕ → ℕ
      x = k.frame.x
