-- ===== src/Boot/Start.antt =====
-- The first switch: what `thread_start` finds, and that task A runs after it.
use d_rpi_proto_os.Base.{
  ℕ, ◌+◌, ◌*◌, ◌<◌, ◌≡◌, inl, inr, refl, false, ◌||◌, arith, none, some, sym, ap, eq_of_==,
  update_ne,
}
use mathlib.Core.Path.{subst}
use d_rpi_proto_os.Config.{thread_count, thread_slot_idle, thread_slot_task_a}
use d_rpi_proto_os.State.{Kernel, Thread, Build, user_task, idle, is_stopped, is_dead, is_blocked}
use d_rpi_proto_os.State.Effect.{Ensures, done}
use d_rpi_proto_os.State.Output.{Prints}
use d_rpi_proto_os.Task.{user_task_init}
use d_rpi_proto_os.Ipc.{ipc_init}
use d_rpi_proto_os.Supervisor.{supervisor_init}
use d_rpi_proto_os.Thread.{promote, demote, save_ctx, thread_switch_to}
use d_rpi_proto_os.Waits.{waiting}
use d_rpi_proto_os.Invariant.{Inv, Sound-ext}
use d_rpi_proto_os.Handling.{Asleep}
use d_rpi_proto_os.Return.{thread_start}
use d_rpi_proto_os.Return.Alive.{Linked, Parked, Chosen, Running}
use d_rpi_proto_os.Return.Resume.{continue_thread-Running}
use d_rpi_proto_os.Return.Exchange.{promote-Sound, Parked-ext}
use d_rpi_proto_os.Boot.{
  thread_init_slot, init_user_thread, init_threads, thread_system_init, kernel_setup,
  reset_scheduler,
}
use d_rpi_proto_os.Boot.Sound.{LaidOut, below_four, validate_el0_layout_lem, setup-Inv}
use Prim.Native.String.{String}

-- A thread that waits for its first turn.
pub record Unstarted (b : Build) (s : ℕ) (t : Thread) : Type 0 where
  pub asleep : Asleep t
  pub parked : Parked b s t
  pub live : is_stopped t.state ≡ false
  pub ready : s < thread_slot_idle → (is_dead t.user.state || is_blocked t.user.state) ≡ false

-- The state in which `thread_start` is called.
pub record Booted (b : Build) (k : Kernel) : Type 0 where
  pub sound : Inv k
  pub current : k.current ≡ none
  pub unstarted : (s : ℕ) → s < thread_count → Unstarted b s (k.threads s)

user_slot-Unstarted :
    (b : Build) (s : ℕ) (thread_name task_name : String) (entry sp stack : ℕ) (t : Thread)
    → Linked b
    → s < thread_slot_idle
    → Unstarted b s (
        user_task_init (some task_name) entry sp (
          thread_init_slot b s user_task
            (some thread_name)
            b.thread_entry_user_task
            (b.threads_base + s * 464)
            stack
            t))
unfolding thread_init_slot user_task_init
user_slot-Unstarted b s thread_name task_name entry sp stack t l lt = record {
  asleep = (refl, refl);
  parked = record {
    user_entry = λ _ _. refl;
    user_arg = λ _ _. omega arith;
    user_some = λ _ _. omega (arith, l.in_map);
    user_reason = λ _ _. refl;
    idle_entry = λ _ e. elim (lt_ne e) [ ];
  };
  live = refl;
  ready = λ _. refl;
}
  where
    lt_ne : s ≡ thread_slot_idle → ⊥
    lt_ne e = omega arith

idle_slot-Unstarted :
    (b : Build) (t : Thread)
    → Linked b
    → Unstarted b thread_slot_idle (
        thread_init_slot b thread_slot_idle idle (some "idle") b.thread_entry_idle 0 b.stack_idle t)
unfolding thread_init_slot
idle_slot-Unstarted b t l = record {
  asleep = (refl, refl);
  parked = record {
    user_entry = λ _ lt. ground arith;
    user_arg = λ _ lt. omega arith;
    user_some = λ _ lt. omega arith;
    user_reason = λ _ _. refl;
    idle_entry = λ _ _. l.entries;
  };
  live = refl;
  ready = λ lt. ground arith;
}

init_threads-Unstarted :
    (b : Build) (k : Kernel)
    → Linked b
    → (s : ℕ) → s < thread_count
    → Unstarted b s ((init_threads b k).threads s)
unfolding init_threads init_user_thread
init_threads-Unstarted b k l s lt = elim (below_four s lt) [
  | inl e ↦ rw e (user_slot-Unstarted b 0 _ _ _ _ _ _ l (omega arith))
  | inr (inl e) ↦ rw e (user_slot-Unstarted b 1 _ _ _ _ _ _ l (omega arith))
  | inr (inr (inl e)) ↦ rw e (user_slot-Unstarted b 2 _ _ _ _ _ _ l (omega arith))
  | inr (inr (inr e)) ↦ rw e (idle_slot-Unstarted b _ l)
]

pub kernel_setup-Booted :
    (b : Build) (k : Kernel)
    → LaidOut b
    → Linked b
    → Ensures (kernel_setup b k) (λ _ k'. Booted b k')
unfolding kernel_setup thread_system_init supervisor_init ipc_init init_threads init_user_thread
kernel_setup-Booted b k a l =
    rw (validate_el0_layout_lem b (reset_scheduler k) a, Ensures)
      (record {
        sound = setup-Inv b k a;
        current = refl;
        unstarted = init_threads-Unstarted b (reset_scheduler k) l;
      })

-- The kernel that has been set up stays as it is when it prints.
pub printed-Booted : {b : Build} {k k' : Kernel} → Prints k k' → Booted b k → Booted b k'
printed-Booted {b} (out, e) h =
    subst (Booted b) (sym e)
      (record { sound = h.sound; current = h.current; unstarted = h.unstarted })

module _ {b : Build} (l : Linked b) {k : Kernel} (h : Booted b k) where
  first : Kernel
  first = save_ctx b none (promote thread_slot_task_a k)

  thread_switch_to-first : thread_switch_to b (some thread_slot_task_a) k ≡ done tt first
  unfolding thread_switch_to first demote promote
  thread_switch_to-first =
      let ok = h.sound.threads_ok thread_slot_task_a (omega arith) in
      ground (arith, h.current, ok.lr, ok.sp)

  first-Chosen : Chosen b first thread_slot_task_a
  unfolding first save_ctx promote
  first-Chosen =
      let fresh = h.unstarted thread_slot_task_a (omega arith) in
      let s = promote-Sound k thread_slot_task_a h.sound (omega arith) fresh.live in
      record {
        sound =
            Sound-ext first
              (record { threads_ok = s.threads_ok; endpoints_ok = s.endpoints_ok; waits = s.waits })
              (λ n lt. ground (arith, fresh.live, eq_of_== 0 n, ap (waiting k)));
        current = refl;
        live = refl;
        ready = λ _. fresh.ready (omega arith);
        awake = λ _. ground (arith, fresh.live, fresh.asleep, fresh.ready);
        rests = λ e. fresh.asleep.1;
        asleep = λ n lt ne.
            subst Asleep (sym (update_ne k.threads thread_slot_task_a _ n (λ e. ne (sym e))))
              (h.unstarted n lt).asleep;
        parked = λ n lt ne.
            subst (Parked b n) (sym (update_ne k.threads thread_slot_task_a _ n (λ e. ne (sym e))))
              (h.unstarted n lt).parked;
      }

  pub thread_start-Running : Ensures (thread_start b k) (λ _ k'. Running b k' thread_slot_task_a)
  unfolding thread_start first promote save_ctx
  thread_start-Running =
      let fresh = h.unstarted thread_slot_task_a (omega arith) in
      rw (thread_switch_to-first, Ensures)
        (continue_thread-Running first-Chosen (omega arith) l (Parked-ext fresh.parked refl refl))
