-- ===== src/Handling/Ahead.antt =====
-- The stages of a trap's handling in which the records and the tasks agree but for the trapped task: it
-- may be recorded already, and is not marked yet. Each step of core/ipc.c leads from one to another.
use d_rpi_proto_os.Base.{
  ℕ, List, ◌<◌, ◌≡◌, ◌≢◌, refl, sym, Bool, true, false, update, ◌∙◌, update_ne, update_self, ap,
}
use d_rpi_proto_os.Config.{thread_count, thread_slot_idle, ep_count, slot_none}
use d_rpi_proto_os.State.{Kernel, Thread, Endpoint}
use d_rpi_proto_os.State.Effect.{put_thread, put_endpoint}
use d_rpi_proto_os.Thread.{thread_request_resched}
use d_rpi_proto_os.Thread.Current.{IsCurrent}
use d_rpi_proto_os.Waits.{waiter, waiting, is_waiting}
use d_rpi_proto_os.Waits.Table.{
  Place, at_caller, at_receiver, at_supervisor, IsPlace, write, Agree-park,
}
use d_rpi_proto_os.Invariant.{
  Inv, ThreadOk, EndpointOk, waiter_same, waiter_caller, waiter_receiver,
}
use d_rpi_proto_os.Handling.{Outside, Asleep, Kept, Trapped, Trapped-awake, Stage}
use d_rpi_proto_os.Handling.Stages.{
  Stage-start, Stage-endpoint, Stage-mem, Stage-request, Stage-uart, Stage-death, Stage-supervisor,
  Stage-thread,
}

-- `own` says whether the records hold the trapped task for waiting.
pub record Ahead (k : Kernel) (c : ℕ) (k' : Kernel) (own : Bool) : Type 0 where
  pub held : ℕ → Bool
  pub waits : ℕ → Bool
  pub stage : Stage k c k' held waits
  pub agree : (s : ℕ) → s < thread_slot_idle → s ≢ c → held s ≡ waits s
  pub own_eq : held c ≡ own

pub Ahead-start :
    {k : Kernel} {c : ℕ}
    → Inv k
    → IsCurrent k c
    → ((s : ℕ) → s < thread_count → s ≢ c → Asleep (k.threads s))
    → waiting k c ≡ false
    → Ahead k c k false
Ahead-start {k} sound current asleep awake = record {
  held = waiting k;
  waits = waiting k;
  stage = Stage-start sound current asleep;
  agree = λ s lt ne. refl;
  own_eq = awake;
}

module _ {k : Kernel} {c : ℕ} (small : c < thread_slot_idle) {k' : Kernel} {own : Bool}
    (h : Ahead k c k' own) where
  -- An endpoint is written, and its records stay.
  pub Ahead-endpoint :
      (i : ℕ) (ep : Endpoint)
      → EndpointOk ep
      → ep.blocked_caller_slot ≡ (k'.endpoints i).blocked_caller_slot
      → ep.blocked_receiver_slot ≡ (k'.endpoints i).blocked_receiver_slot
      → Ahead k c (put_endpoint i ep k') own
  Ahead-endpoint i ep ok same_caller same_receiver = record {
    held = h.held;
    waits = h.waits;
    stage =
        Stage-endpoint h.stage i ep ok h.stage.sound.waits
          (waiter_same k' i ep same_caller same_receiver);
    agree = h.agree;
    own_eq = h.own_eq;
  }

  pub Ahead-mem :
      (m : ℕ → ℕ) → ((a : ℕ) → Outside a → m a ≡ k'.mem a) → Ahead k c (record k' { mem = m }) own
  Ahead-mem m same = record {
    held = h.held;
    waits = h.waits;
    stage = Stage-mem h.stage m same;
    agree = h.agree;
    own_eq = h.own_eq;
  }

  pub Ahead-request : Ahead k c (thread_request_resched k') own
  Ahead-request = record {
    held = h.held;
    waits = h.waits;
    stage = Stage-request h.stage;
    agree = h.agree;
    own_eq = h.own_eq;
  }

  pub Ahead-uart : (out : List ℕ) → Ahead k c (record k' { uart = out }) own
  Ahead-uart out = record {
    held = h.held;
    waits = h.waits;
    stage = Stage-uart h.stage out;
    agree = h.agree;
    own_eq = h.own_eq;
  }

  pub Ahead-death : (slot : ℕ) → Ahead k c (record k' { pending_death_slot = slot }) own
  Ahead-death slot = record {
    held = h.held;
    waits = h.waits;
    stage = Stage-death h.stage slot;
    agree = h.agree;
    own_eq = h.own_eq;
  }

  pub Ahead-thread :
      (r : ℕ) (new : Thread)
      → r ≢ c
      → ThreadOk r new
      → is_waiting new ≡ waiting k' r
      → Asleep new
      → Kept (k'.threads r) new
      → Ahead k c (put_thread r new k') own
  Ahead-thread r new ne ok same sleeps stays = record {
    held = h.held;
    waits = h.waits;
    stage = Stage-thread h.stage r new ne ok same sleeps stays;
    agree = h.agree;
    own_eq = h.own_eq;
  }

  -- The trapped task is recorded as the waiting supervisor.
  pub Ahead-supervisor :
      own ≡ false
      → k'.blocked_supervisor_slot ≡ slot_none
      → Ahead k c (record k' { blocked_supervisor_slot = c }) true
  Ahead-supervisor off free = record {
    held = update h.held c true;
    waits = h.waits;
    stage =
        Stage-supervisor h.stage c
          (Agree-park h.stage.sound.waits at_supervisor c tt free small (h.own_eq ∙ off));
    agree = λ s lts ne. update_ne h.held c true s (λ e. ne (sym e)) ∙ h.agree s lts ne;
    own_eq = update_self h.held c true;
  }

  -- The trapped task is recorded at a place that was free.
  record_own :
      (place : Place) (i : ℕ) (ep : Endpoint)
      → IsPlace place
      → own ≡ false
      → EndpointOk ep
      → waiter k' place ≡ slot_none
      → ((p : Place) → waiter (put_endpoint i ep k') p ≡ write (waiter k') place c p)
      → Ahead k c (put_endpoint i ep k') true
  record_own place i ep okp off ok free same = record {
    held = update h.held c true;
    waits = h.waits;
    stage =
        Stage-endpoint h.stage i ep ok
          (Agree-park h.stage.sound.waits place c okp free small (h.own_eq ∙ off)) same;
    agree = λ s lts ne. update_ne h.held c true s (λ e. ne (sym e)) ∙ h.agree s lts ne;
    own_eq = update_self h.held c true;
  }

  pub Ahead-caller :
      (i : ℕ) (ep : Endpoint)
      → i < ep_count
      → own ≡ false
      → EndpointOk ep
      → (k'.endpoints i).blocked_caller_slot ≡ slot_none
      → ep.blocked_caller_slot ≡ c
      → ep.blocked_receiver_slot ≡ (k'.endpoints i).blocked_receiver_slot
      → Ahead k c (put_endpoint i ep k') true
  Ahead-caller i ep lt off ok free at same =
      record_own (at_caller i) i ep lt off ok free
        (λ p. waiter_caller k' i ep same p ∙ ap (λ v. write (waiter k') (at_caller i) v p) at)

  pub Ahead-receiver :
      (i : ℕ) (ep : Endpoint)
      → i < ep_count
      → own ≡ false
      → EndpointOk ep
      → (k'.endpoints i).blocked_receiver_slot ≡ slot_none
      → ep.blocked_receiver_slot ≡ c
      → ep.blocked_caller_slot ≡ (k'.endpoints i).blocked_caller_slot
      → Ahead k c (put_endpoint i ep k') true
  Ahead-receiver i ep lt off ok free at same =
      record_own (at_receiver i) i ep lt off ok free
        (λ p. waiter_receiver k' i ep same p ∙ ap (λ v. write (waiter k') (at_receiver i) v p) at)

pub Trapped-start : {k : Kernel} {c : ℕ} → Trapped k c → Ahead k c k false
Trapped-start t = Ahead-start t.sound t.current t.asleep (Trapped-awake t)
