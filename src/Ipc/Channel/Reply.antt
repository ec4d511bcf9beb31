-- ===== src/Ipc/Channel/Reply.antt =====
-- `SYS_ipc_reply` against the channel's promise.
use d_rpi_proto_os.Base.{
  ℕ, ◌<◌, ◌≡◌, ◌≢◌, refl, ap, sym, ◌∙◌, inl, inr, some, Bool, true, false, ◌&&◌, not, ◌==◌,
  if◌then◌else◌, ltb, arith, Bool-cases, update_self, update_ne, ==_of_ne, List,
}
use d_rpi_proto_os.Config.{ep_count, slot_none, minus_one, ipc_msg_size, thread_slot_idle}
use d_rpi_proto_os.State.{Kernel, Build, is_stopped}
use d_rpi_proto_os.State.Effect.{Ensures}
use d_rpi_proto_os.State.Output.{bytes_from}
use d_rpi_proto_os.Thread.{thread_request_resched}
use d_rpi_proto_os.Thread.Current.{thread_current_user_slot_lem}
use d_rpi_proto_os.Task.{woken}
use d_rpi_proto_os.Task.Wake.{thread_user_wake_with_x0_lem}
use d_rpi_proto_os.Waits.Table.{at_caller}
use d_rpi_proto_os.Invariant.{ThreadOk}
use d_rpi_proto_os.Handling.{Trapped}
use d_rpi_proto_os.Ipc.{
  answer, reply_refused, turned_away, ipc_syscall_reply, bytes_copy_within, el0_buf_range_ok,
  endpoint_valid, min_u64,
}
use d_rpi_proto_os.Ipc.Copy.{bytes_copy_within_lem}
use d_rpi_proto_os.Ipc.Rendezvous.{ForwardSafe}
use d_rpi_proto_os.Ipc.Handled.{unrecorded}
use d_rpi_proto_os.Ipc.Channel.{Response, Channel, Caller, reply, hand_back, refuse}
use d_rpi_proto_os.Ipc.Channel.Meaning.{channel_of, Meets}
use d_rpi_proto_os.Ipc.Channel.Texts.{Copied-Holds, taken_length}
use d_rpi_proto_os.Ipc.Channel.Parts.{recorded_lives}
use d_rpi_proto_os.Ipc.Channel.Call.{refused-Meets}
use mathlib.Core.Path.{subst}

-- The tests on the arguments.
abbrev pub reply_sensible : (ℕ → ℕ) → Bool
reply_sensible x =
    endpoint_valid (x 0) && not (ltb ipc_msg_size (x 2)) && el0_buf_range_ok (x 1) (x 2)

abbrev pub reply_promise : Kernel → ℕ → Response
reply_promise k c =
    let x = k.frame.x in
    reply (reply_sensible x) (channel_of (k.endpoints (x 0))) c (bytes_from k.mem (x 1) 0 (x 2))

-- The copy to the caller's buffer does not start inside the bytes still to be read.
abbrev pub Returnable : Kernel → ℕ → ℕ → ℕ → Type 0
Returnable k i ptr len =
    let ep = k.endpoints i in ForwardSafe ep.caller_reply_ptr ptr (min_u64 len ep.caller_reply_cap)

module _ (b : Build) (k : Kernel) (c i ptr len r : ℕ) (t : Trapped k c)
    (at : (k.endpoints i).blocked_caller_slot ≡ r) (lt : r < thread_slot_idle)
    (ok : ThreadOk r (k.threads r)) (live : is_stopped (k.threads r).state ≡ false) (ne : r ≢ c)
    (safe : Returnable k i ptr len) where
  abbrev ch : Channel
  ch = channel_of (k.endpoints i)

  abbrev text : List ℕ
  text = bytes_from k.mem ptr 0 len

  abbrev waiting : Caller
  waiting = record {
    slot = r;
    ptr = (k.endpoints i).caller_reply_ptr;
    cap = (k.endpoints i).caller_reply_cap;
    fixed = (k.endpoints i).caller_result_override;
  }

  waits : ch.caller ≡ some waiting
  waits = rw (at, ==_of_ne r slot_none (omega arith)) refl

  answer-Meets : Ensures (answer i ptr len k) (Meets b k c i (hand_back ch ch.caller text))
  unfolding answer thread_request_resched
  answer-Meets =
      let ep = k.endpoints i in
      let n = min_u64 len ep.caller_reply_cap in
      let m = bytes_copy_within n 0 k.mem ep.caller_reply_ptr ptr in
      let v = if ep.caller_result_override == 0 then n else ep.caller_result_override in
      subst (λ w. Ensures (answer i ptr len k) (Meets b k c i (hand_back ch w text))) (sym waits)
        (rw (at, thread_user_wake_with_x0_lem r v (record k { mem = m }) lt ok live, Ensures)
          (record {
            channel = ap channel_of (update_self k.endpoints i _);
            others = λ j ne'. ground arith;
            sees = (refl, update_ne k.threads r _ c ne, refl);
            happens = (
              Copied-Holds _ k.mem k.mem ep.caller_reply_ptr ptr len ep.caller_reply_cap
                  (λ a. bytes_copy_within_lem n k.mem ep.caller_reply_ptr ptr a safe),
              update_self k.threads r _
                  ∙ ap
                      (λ n.
                        woken
                          (if ep.caller_result_override == 0 then n else ep.caller_result_override)
                          (k.threads r))
                      (sym (taken_length k.mem ptr len ep.caller_reply_cap)),
              λ s ne1 ne2. ground arith,
              refl,
            );
          }))

module _ (b : Build) (k : Kernel) (c : ℕ) (t : Trapped k c) where
  answered-Meets :
      (i ptr len : ℕ)
      → i < ep_count
      → (k.endpoints i).blocked_caller_slot ≢ slot_none
      → Returnable k i ptr len
      → let ch = channel_of (k.endpoints i) in
        Ensures
          (answer i ptr len k)
          (Meets b k c i (hand_back ch ch.caller (bytes_from k.mem ptr 0 len)))
  answered-Meets i ptr len lt busy safe =
      let (small, ok, live) = recorded_lives t (at_caller i) lt busy in
      answer-Meets b k c i ptr len _ t refl small ok live (unrecorded b t (at_caller i) lt) safe

  reply_guard :
      let x = k.frame.x in
      let owner = (k.endpoints (x 0)).owner_slot in
      (reply_sensible x && not (owner == slot_none) && (owner == c))
      ≡ (not (reply_refused k (x 0) (x 1) (x 2)) && (owner == c))
  reply_guard = ground arith

  -- The replier does not own the endpoint, or nobody waits for the reply.
  away-Meets :
      turned_away (k.endpoints (k.frame.x 0)) c ≡ true
      → let i = k.frame.x 0 in
        let ch = channel_of (k.endpoints i) in
        Meets b k c i
          (if (k.endpoints i).owner_slot == c
            then hand_back ch ch.caller (bytes_from k.mem (k.frame.x 1) 0 (k.frame.x 2))
            else refuse ch)
          minus_one
          k
  away-Meets away = elim (Bool-cases ((k.endpoints (k.frame.x 0)).owner_slot == c)) [
    | inl own ↦
        let nobody : (k.endpoints (k.frame.x 0)).blocked_caller_slot ≡ slot_none = ground arith in
        rw (own, nobody)
          (record {
            channel = rw nobody refl;
            others = λ j ne. refl;
            sees = (refl, refl);
            happens = (λ a. refl, λ s ne. refl);
          })
    | inr other ↦ rw other (refused-Meets b k c t (k.frame.x 0))
  ]

  pub ipc_syscall_reply-Meets :
      Returnable k (k.frame.x 0) (k.frame.x 1) (k.frame.x 2)
      → Ensures (ipc_syscall_reply b k) (Meets b k c (k.frame.x 0) (reply_promise k c))
  unfolding ipc_syscall_reply
  ipc_syscall_reply-Meets safe =
      let x = k.frame.x in
      elim (Bool-cases (reply_refused k (x 0) (x 1) (x 2))) [
        | inl e ↦ rw (reply_guard, e) (refused-Meets b k c t (x 0))
        | inr e ↦
            rw (reply_guard, e)
              (rw (thread_current_user_slot_lem k c t.current, Ensures)
                (elim (Bool-cases (turned_away (k.endpoints (x 0)) c)) [
                  | inl away ↦ rw away (away-Meets away)
                  | inr let_in ↦
                      (let own : ((k.endpoints (x 0)).owner_slot == c) ≡ true = ground arith in
                        rw (let_in, own)
                          (answered-Meets (x 0) (x 1) (x 2) (ground arith) (ground arith) safe))
                ]))
      ]
