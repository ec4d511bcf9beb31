-- ===== src/Handling/Stages.antt =====
-- The single changes that a call makes to the kernel, each from one stage of the handling to the next.
use d_rpi_proto_os.Base.{
  ℕ, List, ◌<◌, ◌≡◌, ◌≢◌, refl, Bool, true, false, arith, update, ◌∙◌, update_ne,
}
use d_rpi_proto_os.Config.{thread_count, thread_slot_idle}
use d_rpi_proto_os.State.{Kernel, Thread, Endpoint, is_stopped}
use d_rpi_proto_os.State.Effect.{done, put_thread, put_endpoint}
use d_rpi_proto_os.Thread.{thread_request_resched}
use d_rpi_proto_os.Thread.Current.{IsCurrent}
use d_rpi_proto_os.Task.{woken, thread_user_wake_with_x0}
use d_rpi_proto_os.Task.Wake.{thread_user_wake_with_x0_lem}
use d_rpi_proto_os.Waits.{waiter, waiting, is_waiting}
use d_rpi_proto_os.Waits.Table.{Place, at_supervisor, write, Agree, Agree-ext}
use d_rpi_proto_os.Invariant.{
  ThreadOk, EndpointOk, Inv, Sound-put_thread, Sound-put_endpoint, waiter_supervisor,
}
use d_rpi_proto_os.Handling.{Outside, Asleep, Kept, Stage}

pub Stage-start :
    {k : Kernel} {c : ℕ}
    → Inv k
    → IsCurrent k c
    → ((s : ℕ) → s < thread_count → s ≢ c → Asleep (k.threads s))
    → Stage k c k (waiting k) (waiting k)
Stage-start sound current asleep = record {
  sound = sound;
  current = current;
  thread = refl;
  frame = refl;
  outside = λ a h. refl;
  others = λ s lt ne. refl;
  asleep = asleep;
  kept = λ s ne. (refl, λ e. e);
}

module _ {k : Kernel} {c : ℕ} {k' : Kernel} {b o : ℕ → Bool} (g : Stage k c k' b o) where
  woken-ThreadOk :
      (r v : ℕ)
      → r < thread_slot_idle
      → is_stopped (k'.threads r).state ≡ false
      → ThreadOk r (woken v (k'.threads r))
  woken-ThreadOk r v lt live =
      let ok = g.sound.threads_ok r (omega arith) in
      record {
        kind = ok.kind;
        slot = ok.slot;
        lr = ok.lr;
        sp = ok.sp;
        elr = ok.elr;
        entry = ok.entry;
        dead = λ _. refl;
        idle_lives = λ e. refl;
      }

  -- A task that waits is live.
  waiting-live : (r : ℕ) → waiting k' r ≡ true → is_stopped (k'.threads r).state ≡ false
  waiting-live r h = ground arith

  -- Another task is woken: it no longer waits, and the records are not touched.
  pub Stage-wake :
      (r v : ℕ)
      → r < thread_slot_idle
      → r ≢ c
      → o r ≡ true
      → let after = put_thread r (woken v (k'.threads r)) k' in
        (thread_user_wake_with_x0 r v k' ≡ done tt after) × Stage k c after b (update o r false)
  Stage-wake r v lt ne h =
      let live = waiting-live r (g.others r lt ne ∙ h) in
      (
        thread_user_wake_with_x0_lem r v k' lt (g.sound.threads_ok r (omega arith)) live,
        record {
          sound = Sound-put_thread k' r _ g.sound (woken-ThreadOk r v lt live);
          current = rw (update_ne k'.threads r (woken v (k'.threads r)) c ne) g.current;
          thread = update_ne k'.threads r (woken v (k'.threads r)) c ne ∙ g.thread;
          frame = g.frame;
          outside = g.outside;
          others = λ s lts nes. ground (arith, g.others s lts nes);
          asleep = λ s lts nes. ground (arith, g.asleep s lts nes);
          kept =
              λ s nes. (ground (arith, (g.kept s nes).0), λ e. ground (arith, (g.kept s nes).1 e));
        },
      )

  -- An endpoint is written, and the records say what its new table says.
  pub Stage-endpoint :
      (i : ℕ) (ep : Endpoint) {w : Place → ℕ} {b' : ℕ → Bool}
      → EndpointOk ep
      → Agree w b'
      → ((p : Place) → waiter (put_endpoint i ep k') p ≡ w p)
      → Stage k c (put_endpoint i ep k') b' o
  Stage-endpoint i ep ok a same = record {
    sound = Sound-put_endpoint k' i ep g.sound ok a same;
    current = g.current;
    thread = g.thread;
    frame = g.frame;
    outside = g.outside;
    others = g.others;
    asleep = g.asleep;
    kept = g.kept;
  }

  -- Bytes in the sandbox are written.
  pub Stage-mem :
      (m : ℕ → ℕ) → ((a : ℕ) → Outside a → m a ≡ k'.mem a) → Stage k c (record k' { mem = m }) b o
  Stage-mem m same = record {
    sound = g.sound;
    current = g.current;
    thread = g.thread;
    frame = g.frame;
    outside = λ a h. same a h ∙ g.outside a h;
    others = g.others;
    asleep = g.asleep;
    kept = g.kept;
  }

  -- What the records and the tasks do not depend on.
  pub Stage-uart : (out : List ℕ) → Stage k c (record k' { uart = out }) b o
  Stage-uart out = record {
    sound = g.sound;
    current = g.current;
    thread = g.thread;
    frame = g.frame;
    outside = g.outside;
    others = g.others;
    asleep = g.asleep;
    kept = g.kept;
  }

  pub Stage-death : (slot : ℕ) → Stage k c (record k' { pending_death_slot = slot }) b o
  Stage-death slot = record {
    sound = g.sound;
    current = g.current;
    thread = g.thread;
    frame = g.frame;
    outside = g.outside;
    others = g.others;
    asleep = g.asleep;
    kept = g.kept;
  }

  -- The waiting supervisor is recorded or removed.
  pub Stage-supervisor :
      (slot : ℕ) {b' : ℕ → Bool}
      → Agree (write (waiter k') at_supervisor slot) b'
      → Stage k c (record k' { blocked_supervisor_slot = slot }) b' o
  Stage-supervisor slot a = record {
    sound = record {
      threads_ok = g.sound.threads_ok;
      endpoints_ok = g.sound.endpoints_ok;
      waits = Agree-ext a (λ p okp. waiter_supervisor k' slot p) (λ s lt. refl);
    };
    current = g.current;
    thread = g.thread;
    frame = g.frame;
    outside = g.outside;
    others = g.others;
    asleep = g.asleep;
    kept = g.kept;
  }

  -- Another thread is replaced by one that waits as little as it did.
  pub Stage-thread :
      (r : ℕ) (new : Thread)
      → r ≢ c
      → ThreadOk r new
      → is_waiting new ≡ waiting k' r
      → Asleep new
      → Kept (k'.threads r) new
      → Stage k c (put_thread r new k') b o
  Stage-thread r new ne ok same sleeps stays = record {
    sound = Sound-put_thread k' r new g.sound ok;
    current = rw (update_ne k'.threads r new c ne) g.current;
    thread = update_ne k'.threads r new c ne ∙ g.thread;
    frame = g.frame;
    outside = g.outside;
    others = λ s lts nes. ground (arith, g.others s lts nes);
    asleep = λ s lts nes. ground (arith, g.asleep s lts nes);
    kept = λ s nes. (ground (arith, (g.kept s nes).0), λ e. ground (arith, (g.kept s nes).1 e));
  }

  pub Stage-request : Stage k c (thread_request_resched k') b o
  unfolding thread_request_resched
  Stage-request = record {
    sound = g.sound;
    current = g.current;
    thread = g.thread;
    frame = g.frame;
    outside = g.outside;
    others = g.others;
    asleep = g.asleep;
    kept = g.kept;
  }
