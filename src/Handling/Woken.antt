-- ===== src/Handling/Woken.antt =====
-- The wake-up of a task that is recorded at a place, and the ends of the handling.
use d_rpi_proto_os.Base.{ℕ, ◌<◌, ◌≡◌, ◌≢◌, sym, Bool, false, arith, update, ◌∙◌, update_ne, ap}
use d_rpi_proto_os.Config.{thread_slot_idle, ep_count, slot_none}
use d_rpi_proto_os.State.{Kernel, Endpoint, ReturnReason, Build, return_none}
use d_rpi_proto_os.State.Effect.{done, put_thread, put_endpoint}
use d_rpi_proto_os.Task.{woken, thread_user_wake_with_x0, thread_user_trap_redirect}
use d_rpi_proto_os.Task.Redirect.{redirected}
use d_rpi_proto_os.Waits.{waiter, is_block_reason}
use d_rpi_proto_os.Waits.Table.{Place, at_caller, at_receiver, IsPlace, write, Agree-unpark}
use d_rpi_proto_os.Invariant.{EndpointOk, waiter_caller, waiter_receiver}
use d_rpi_proto_os.Handling.{Trapped, Stage, Handled}
use d_rpi_proto_os.Handling.Stages.{Stage-wake, Stage-endpoint}
use d_rpi_proto_os.Handling.Ends.{Stage-goes_on, Stage-leaves}
use d_rpi_proto_os.Handling.Ahead.{Ahead}

module _ {k : Kernel} {c : ℕ} (small : c < thread_slot_idle) {k' : Kernel} {own : Bool}
    (h : Ahead k c k' own) where
  -- The task at a place, which is not the trapped one, is woken.
  pub Ahead-wake :
      (place : Place) (v : ℕ)
      → IsPlace place
      → waiter k' place ≢ slot_none
      → waiter k' place ≢ c
      → let r = waiter k' place in
        let after = put_thread r (woken v (k'.threads r)) k' in
        (thread_user_wake_with_x0 r v k' ≡ done tt after)
        × Stage k c after h.held (update h.waits r false)
  Ahead-wake place v okp busy ne =
      let at = h.stage.sound.waits.recorded place okp busy in
      Stage-wake h.stage (waiter k' place) v at.0 ne
        (sym (h.agree (waiter k' place) at.0 ne) ∙ at.1)

-- After the wake-up the endpoint is cleared of the woken task.
module _ {k : Kernel} {c : ℕ} (small : c < thread_slot_idle) {k' : Kernel} {own : Bool}
    (h : Ahead k c k' own) (v i : ℕ) (ep : Endpoint) (lt : i < ep_count) (ok : EndpointOk ep) where
  clear_place :
      (place : Place)
      → IsPlace place
      → waiter k' place ≢ slot_none
      → waiter k' place ≢ c
      → ((p : Place) → waiter (put_endpoint i ep k') p ≡ write (waiter k') place slot_none p)
      → Ahead k c
          (put_endpoint i ep
            (put_thread (waiter k' place) (woken v (k'.threads (waiter k' place))) k'))
          own
  clear_place place okp busy ne same = record {
    held = update h.held (waiter k' place) false;
    waits = update h.waits (waiter k' place) false;
    stage =
        Stage-endpoint (Ahead-wake small h place v okp busy ne).1 i ep ok
          (Agree-unpark h.stage.sound.waits place okp busy) same;
    agree = λ s lts nes. ground (arith, h.agree s lts nes);
    own_eq = update_ne h.held (waiter k' place) false c ne ∙ h.own_eq;
  }

  pub Ahead-clear_caller :
      (k'.endpoints i).blocked_caller_slot ≢ slot_none
      → (k'.endpoints i).blocked_caller_slot ≢ c
      → ep.blocked_caller_slot ≡ slot_none
      → ep.blocked_receiver_slot ≡ (k'.endpoints i).blocked_receiver_slot
      → Ahead k c
          (put_endpoint i ep (
            put_thread
              (waiter k' (at_caller i))
              (woken v (k'.threads (waiter k' (at_caller i))))
              k'))
          own
  Ahead-clear_caller busy ne at same =
      clear_place (at_caller i) lt busy ne
        (λ p. waiter_caller k' i ep same p ∙ ap (λ n. write (waiter k') (at_caller i) n p) at)

  pub Ahead-clear_receiver :
      (k'.endpoints i).blocked_receiver_slot ≢ slot_none
      → (k'.endpoints i).blocked_receiver_slot ≢ c
      → ep.blocked_receiver_slot ≡ slot_none
      → ep.blocked_caller_slot ≡ (k'.endpoints i).blocked_caller_slot
      → Ahead k c
          (put_endpoint i ep (
            put_thread
              (waiter k' (at_receiver i))
              (woken v (k'.threads (waiter k' (at_receiver i))))
              k'))
          own
  Ahead-clear_receiver busy ne at same =
      clear_place (at_receiver i) lt busy ne
        (λ p. waiter_receiver k' i ep same p ∙ ap (λ n. write (waiter k') (at_receiver i) n p) at)

-- The ends of the handling.
module _ {k : Kernel} {c : ℕ} (b : Build) (t : Trapped k c) {k' : Kernel} where
  pub Ahead-goes_on : Ahead k c k' false → Handled b k c k'
  Ahead-goes_on h = Stage-goes_on b t h.stage h.agree h.own_eq

  pub Ahead-leaves :
      (reason : ReturnReason)
      → reason ≢ return_none
      → Ahead k c k' (is_block_reason reason)
      → (thread_user_trap_redirect b reason k' ≡ done tt (redirected b reason c k'))
        × Handled b k c (redirected b reason c k')
  Ahead-leaves reason some_reason h = Stage-leaves b t h.stage reason some_reason h.own_eq h.agree
