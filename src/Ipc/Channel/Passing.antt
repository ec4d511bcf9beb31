-- ===== src/Ipc/Channel/Passing.antt =====
-- An accepted call, with a waiting receiver and without one, against the channel's promise.
use d_rpi_proto_os.Base.{
  List, ℕ, ◌<◌, ◌≡◌, ◌≢◌, refl, ap, sym, ◌∙◌, inl, inr, some, false, ◌==◌, arith, Bool-cases,
  update, update_self, update_ne, ==_of_ne, ==_refl, eq_of_==,
}
use d_rpi_proto_os.Config.{ep_count, slot_none, thread_slot_idle}
use d_rpi_proto_os.State.{Kernel, Thread, Endpoint, Build, is_stopped}
use d_rpi_proto_os.State.Effect.{Ensures, done}
use d_rpi_proto_os.State.Output.{bytes_from}
use d_rpi_proto_os.Thread.{thread_request_resched}
use d_rpi_proto_os.Task.{woken, save_frame}
use d_rpi_proto_os.Waits.Table.{at_receiver}
use d_rpi_proto_os.Invariant.{ThreadOk}
use d_rpi_proto_os.Handling.{Trapped}
use d_rpi_proto_os.Ipc.{deliver, keep_message, accept_call, min_u64}
use d_rpi_proto_os.Ipc.Copy.{bytes_copy_within_lem}
use d_rpi_proto_os.Ipc.Rendezvous.{ForwardSafe}
use d_rpi_proto_os.Ipc.Handled.{unrecorded}
use d_rpi_proto_os.Ipc.Channel.{Channel, pass}
use d_rpi_proto_os.Ipc.Channel.Meaning.{channel_of, Meets}
use d_rpi_proto_os.Ipc.Channel.Texts.{Copied-Holds, kept_message, taken_length}
use mathlib.Core.Path.{subst}
use d_rpi_proto_os.Ipc.Channel.Parts.{
  recorded_lives, with_caller_at, noted, passed_on, deliver-passed_on, deliver-kept, still_current,
  accept_call-through,
}

module _ (b : Build) (k : Kernel) (c i send_ptr send_len reply_ptr reply_room fixed : ℕ)
    (t : Trapped k c) where
  abbrev ep : Endpoint
  ep = k.endpoints i

  abbrev text : List ℕ
  text = bytes_from k.mem send_ptr 0 send_len

  abbrev with_caller : Channel
  with_caller = record (channel_of ep) {
    caller = some (record { slot = c; ptr = reply_ptr; cap = reply_room; fixed = fixed });
  }

  busy_slot : (c == slot_none) ≡ false
  busy_slot = ==_of_ne c slot_none (ground (arith, t.small))

  -- Nobody waits for the message.
  kept-Meets :
      (k.endpoints i).blocked_receiver_slot ≡ slot_none
      → Ensures
          (accept_call b i send_ptr send_len reply_ptr reply_room fixed k)
          (Meets b k c i (pass with_caller (channel_of ep).receiver text))
  unfolding keep_message save_frame
  kept-Meets free =
      rw
        (
          accept_call-through b k
              (keep_message i send_ptr send_len (noted i c reply_ptr reply_room fixed k)) c i
              send_ptr send_len reply_ptr reply_room fixed t
              (deliver-kept (noted i c reply_ptr reply_room fixed k) i send_ptr send_len (
                ap (λ (e : Endpoint). e.blocked_receiver_slot) (update_self k.endpoints i _)
                ∙ free))
              (still_current k c _ t.current refl) refl refl,
          Ensures,
          free,
        )
        (record {
          channel = rw (==_refl i) (
              rw (busy_slot, kept_message (k.endpoints i).pending_msg k.mem send_ptr send_len)
                refl);
          others = λ j ne. ground arith;
          sees = (ap (λ (th : Thread). th.user.return_reason) (update_self k.threads c _), refl);
          happens = (λ a. refl, λ s ne. ground arith);
        })

  -- Task r waits for the message.
  module _ (r : ℕ) (at : (k.endpoints i).blocked_receiver_slot ≡ r) (lt : r < thread_slot_idle)
      (ok : ThreadOk r (k.threads r)) (live : is_stopped (k.threads r).state ≡ false) (ne : r ≢ c)
      (safe : ForwardSafe
        (k.endpoints i).receiver_buf_ptr
        send_ptr
        (min_u64 send_len (k.endpoints i).receiver_buf_cap)) where
    delivered :
        deliver i send_ptr send_len (noted i c reply_ptr reply_room fixed k)
        ≡ done tt (
            passed_on i
              (with_caller_at (k.endpoints i) c reply_ptr reply_room fixed)
              r
              (min_u64 send_len (k.endpoints i).receiver_buf_cap)
              send_ptr
              (noted i c reply_ptr reply_room fixed k))
    delivered =
        deliver-passed_on (noted i c reply_ptr reply_room fixed k) i
          (with_caller_at (k.endpoints i) c reply_ptr reply_room fixed) r send_ptr send_len
          (update_self k.endpoints i _) lt ok live at

    abbrev awake : ℕ → Thread
    awake =
        update k.threads r (woken (min_u64 send_len (k.endpoints i).receiver_buf_cap) (k.threads r))

    waits :
        (channel_of ep).receiver
        ≡ some (record { slot = r; ptr = ep.receiver_buf_ptr; cap = ep.receiver_buf_cap })
    waits = rw (at, ==_of_ne r slot_none (omega arith)) refl

    passed-Meets :
        Ensures
          (accept_call b i send_ptr send_len reply_ptr reply_room fixed k)
          (Meets b k c i (pass with_caller (channel_of ep).receiver text))
    unfolding save_frame thread_request_resched
    passed-Meets =
        subst
          (λ w.
            Ensures (accept_call b i send_ptr send_len reply_ptr reply_room fixed k)
              (Meets b k c i (pass with_caller w text)))
          (sym waits)
          (rw
            (
              accept_call-through b k _ c i send_ptr send_len reply_ptr reply_room fixed t delivered
                  (still_current k c _ t.current (update_ne k.threads r _ c ne))
                  (update_ne k.threads r _ c ne) refl,
              Ensures,
            )
            (record {
              channel =
                  ap channel_of (update_self (noted i c reply_ptr reply_room fixed k).endpoints i _)
                  ∙ rw busy_slot refl;
              others = λ j ne'. ground arith;
              sees = (ap (λ (th : Thread). th.user.return_reason) (update_self awake c _), refl);
              happens = (
                Copied-Holds _ k.mem k.mem (k.endpoints i).receiver_buf_ptr send_ptr send_len
                    (k.endpoints i).receiver_buf_cap
                    (λ a. bytes_copy_within_lem _ k.mem _ send_ptr a safe),
                update_ne awake c _ r (λ e. ne (sym e))
                    ∙ update_self k.threads r _
                    ∙ ap (λ n. woken n (k.threads r))
                        (sym
                          (taken_length k.mem send_ptr send_len (k.endpoints i).receiver_buf_cap)),
                λ s ne1 ne2. ground arith,
                refl,
              );
            }))

  -- A call that is let in.
  pub accept_call-Meets :
      i < ep_count
      → ForwardSafe ep.receiver_buf_ptr send_ptr (min_u64 send_len ep.receiver_buf_cap)
      → Ensures
          (accept_call b i send_ptr send_len reply_ptr reply_room fixed k)
          (Meets b k c i (pass with_caller (channel_of ep).receiver text))
  accept_call-Meets lt safe =
      elim (Bool-cases ((k.endpoints i).blocked_receiver_slot == slot_none)) [
        | inl free ↦ kept-Meets (eq_of_== _ _ free)
        | inr busy ↦
            let (small, ok, live) = recorded_lives t (at_receiver i) lt (ground arith) in
            passed-Meets (k.endpoints i).blocked_receiver_slot refl small ok live
              (unrecorded b t (at_receiver i) lt) safe
      ]
