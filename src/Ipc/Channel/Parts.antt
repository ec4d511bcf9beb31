-- ===== src/Ipc/Channel/Parts.antt =====
-- The parts of an accepted call as states: the caller is noted, the message is kept or passed on.
use d_rpi_proto_os.Base.{ℕ, ◌<◌, ◌≡◌, ◌≢◌, refl, sym, ◌∙◌, false, ◌==◌, arith, ==_of_ne}
use d_rpi_proto_os.Config.{slot_none, thread_slot_idle}
use d_rpi_proto_os.Ipc.Range.{InSandbox}
use d_rpi_proto_os.State.{Kernel, TrapFrame, Thread, Endpoint, Build, return_ipc_block, is_stopped}
use d_rpi_proto_os.State.Effect.{next, done, put_endpoint, put_thread}
use d_rpi_proto_os.Thread.Current.{IsCurrent, CurrentParts, thread_current_user_slot_lem}
use d_rpi_proto_os.Thread.{thread_request_resched, thread_current_user_slot}
use d_rpi_proto_os.Task.{thread_user_wake_with_x0, woken, thread_user_trap_redirect}
use d_rpi_proto_os.Task.Wake.{thread_user_wake_with_x0_lem}
use d_rpi_proto_os.Task.Redirect.{redirected, thread_user_trap_redirect_lem}
use d_rpi_proto_os.Waits.{waiter}
use d_rpi_proto_os.Waits.Table.{Place, IsPlace}
use d_rpi_proto_os.Invariant.{ThreadOk}
use d_rpi_proto_os.Handling.{Trapped}
use d_rpi_proto_os.Ipc.{
  deliver, hand_to_receiver, keep_message, accept_call, bytes_copy_within, endpoint_clear_receiver,
  min_u64,
}
use mathlib.Core.Path.{subst}

-- A recorded task lives, and is in its place.
pub recorded_lives :
    {k : Kernel} {c : ℕ}
    → Trapped k c
    → (p : Place) → IsPlace p
    → waiter k p ≢ slot_none
    → (waiter k p < thread_slot_idle)
      × ThreadOk (waiter k p) (k.threads (waiter k p))
      × (is_stopped (k.threads (waiter k p)).state ≡ false)
recorded_lives t p okp busy =
    let (lt, waits) = t.sound.waits.recorded p okp busy in
    (lt, t.sound.threads_ok _ (omega arith), ground (arith, waits))

-- The states behind the parts of an accepted call.
abbrev pub with_caller_at : Endpoint → ℕ → ℕ → ℕ → ℕ → Endpoint
with_caller_at ep c ptr room fixed = record ep {
  blocked_caller_slot = c;
  caller_reply_ptr = ptr;
  caller_reply_cap = room;
  caller_result_override = fixed;
}

abbrev pub noted : ℕ → ℕ → ℕ → ℕ → ℕ → Kernel → Kernel
noted i c ptr room fixed k = put_endpoint i (with_caller_at (k.endpoints i) c ptr room fixed) k

abbrev pub passed_on : ℕ → Endpoint → ℕ → ℕ → ℕ → Kernel → Kernel
passed_on i ep r n send_ptr k = thread_request_resched (
    put_endpoint i (endpoint_clear_receiver ep) (
      put_thread r (woken n (k.threads r))
        (record k { mem = bytes_copy_within n 0 k.mem ep.receiver_buf_ptr send_ptr })))

pub deliver-passed_on :
    (k : Kernel) (i : ℕ) (ep : Endpoint) (r send_ptr send_len : ℕ)
    → k.endpoints i ≡ ep
    → r < thread_slot_idle
    → ThreadOk r (k.threads r)
    → is_stopped (k.threads r).state ≡ false
    → ep.blocked_receiver_slot ≡ r
    → deliver i send_ptr send_len k
      ≡ done tt (passed_on i ep r (min_u64 send_len ep.receiver_buf_cap) send_ptr k)
unfolding deliver hand_to_receiver thread_request_resched
deliver-passed_on k i ep r send_ptr send_len same lt ok live at =
    let n = min_u64 send_len ep.receiver_buf_cap in
    let m = bytes_copy_within n 0 k.mem ep.receiver_buf_ptr send_ptr in
    let busy : (r == slot_none) ≡ false = ==_of_ne r slot_none (omega arith) in
    rw (same, at, busy)
      (next (thread_user_wake_with_x0 r n) _
        (thread_user_wake_with_x0_lem r n (record k { mem = m }) lt ok live))

pub deliver-kept :
    (k : Kernel) (i send_ptr send_len : ℕ)
    → (k.endpoints i).blocked_receiver_slot ≡ slot_none
    → deliver i send_ptr send_len k ≡ done tt (keep_message i send_ptr send_len k)
unfolding deliver
deliver-kept k i send_ptr send_len free = rw free refl

pub still_current :
    (k : Kernel) (c : ℕ) (t : Thread)
    → IsCurrent k c
    → t ≡ k.threads c
    → CurrentParts k.current k.current_task t c
still_current k c t cur e = subst (λ t. CurrentParts k.current k.current_task t c) (sym e) cur

-- An accepted call, for the state behind its delivery.
pub accept_call-through :
    (b : Build) (k k1 : Kernel) (c i send_ptr send_len reply_ptr reply_room fixed : ℕ)
    → Trapped k c
    → deliver i send_ptr send_len (noted i c reply_ptr reply_room fixed k) ≡ done tt k1
    → IsCurrent k1 c
    → k1.threads c ≡ k.threads c
    → k1.frame ≡ k.frame
    → accept_call b i send_ptr send_len reply_ptr reply_room fixed k
      ≡ done 0 (redirected b return_ipc_block c k1)
unfolding accept_call
accept_call-through b k k1 c i send_ptr send_len reply_ptr reply_room fixed t delivered cur same
      frame =
    next thread_current_user_slot _ (thread_current_user_slot_lem k c t.current)
    ∙ next (deliver i send_ptr send_len) _ delivered
    ∙ next (thread_user_trap_redirect b return_ipc_block) _ (
        thread_user_trap_redirect_lem b return_ipc_block k1 c cur
          (subst (ThreadOk c) (sym same) (t.sound.threads_ok c (ground (arith, t.small))))
          (subst (λ (f : TrapFrame). InSandbox f.elr) (sym frame) t.elr))
