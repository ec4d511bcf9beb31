-- ===== src/System/Alive.antt =====
-- The idle thread's turn keeps the kernel alive.
use d_rpi_proto_os.Base.{
  ℕ, ◌≡◌, inl, inr, refl, true, false, Option, some, none, arith, ==_of_ne, sym, if◌then◌else◌,
  Bool-cases,
}
use mathlib.Core.Path.{subst}
use d_rpi_proto_os.Config.{thread_slot_idle}
use d_rpi_proto_os.State.{Kernel, Build}
use d_rpi_proto_os.State.Effect.{M, Ensures, Ensures->>=, skip}
use d_rpi_proto_os.Thread.{thread_resched_point, points_to}
use d_rpi_proto_os.Return.{idle_round, continue_thread}
use d_rpi_proto_os.Return.Alive.{Linked, Idling, Alive, idles}
use d_rpi_proto_os.Return.Exchange.{AtPoint}
use d_rpi_proto_os.Return.Schedule.{Scheduled, stays_on, switches, thread_resched_point-Scheduled}
use d_rpi_proto_os.Return.Step.{continue_thread-Alive}

-- The idle thread's turn.
module _ {b : Build} (l : Linked b) {k : Kernel} (h : Idling b k) where
  idle_point : AtPoint b k thread_slot_idle
  idle_point = record {
    sound = h.sound;
    current = h.current;
    small = omega arith;
    rests = h.rests;
    asleep = h.asleep;
    parked = h.parked;
  }

  calm-Idling : Idling b (record k { resched_pending = false })
  calm-Idling = record {
    sound = h.sound;
    current = h.current;
    thread_running = h.thread_running;
    rests = h.rests;
    asleep = h.asleep;
    parked = h.parked;
  }

  turn : Option ℕ → M (Unit {0})
  turn after = elim after [
    | none ↦ skip
    | some c ↦ if points_to k.current c then skip else continue_thread b c
  ]

  turn-Alive :
      {k' : Kernel}
      → Scheduled b (record k { resched_pending = false }) thread_slot_idle k'
      → Ensures (turn k'.current k') (λ _ k''. Alive b k'')
  unfolding turn
  turn-Alive (stays_on why) =
      let here : points_to k.current thread_slot_idle ≡ true = ground (arith, h.current) in
      subst
        (λ after.
          Ensures (turn after (record k { resched_pending = false })) (λ _ k''. Alive b k''))
        (sym h.current) (rw here (idles calm-Idling))
  turn-Alive {k'} (switches next lt ne on at chosen) =
      subst (λ after. Ensures (turn after k') (λ _ k''. Alive b k'')) (sym chosen.current)
        (rw (h.current, ==_of_ne thread_slot_idle next (λ e. ne (sym e)))
          (continue_thread-Alive next l lt on at chosen))

  idle-Scheduled :
      Ensures
        (thread_resched_point b k)
        (λ _ k'. Scheduled b (record k { resched_pending = false }) thread_slot_idle k')
  unfolding thread_resched_point
  idle-Scheduled = elim (Bool-cases k.resched_pending) [
    | inl asked ↦ thread_resched_point-Scheduled l idle_point asked
    | inr calm ↦ rw calm (stays_on (inl refl))
  ]

  pub idle_round-Alive : Ensures (idle_round b k) (λ _ k'. Alive b k')
  unfolding idle_round turn
  idle_round-Alive =
      Ensures->>= (λ _ k'. Scheduled b (record k { resched_pending = false }) thread_slot_idle k')
        (λ _ k''. Alive b k'') (thread_resched_point b) (λ _ k'. turn k'.current k') k
        idle-Scheduled (λ _ k' sched. turn-Alive sched)
