-- ===== src/Return/Schedule.antt =====
-- The scheduling point of a thread: another thread is chosen and exchanged with it, or it stays.
use d_rpi_proto_os.Base.{
  ℕ, ◌+◌, ◌%◌, ◌<◌, ◌≡◌, ◌≢◌, ◌⊎◌, true, false, Option, some, inl, inr, arith, ◌==◌, ==_refl,
  Bool-cases, eq_of_==, sym,
}
use mathlib.Core.Path.{subst}
use d_rpi_proto_os.Config.{thread_count, thread_slot_idle}
use d_rpi_proto_os.State.{Kernel, Thread, Build, running}
use d_rpi_proto_os.State.Effect.{Ensures, Ensures->>=}
use d_rpi_proto_os.Thread.{
  start_slot, thread_is_selectable, pick_next_thread, thread_switch_to, thread_resched_point,
}
use d_rpi_proto_os.Thread.Pick.{Choice, in_turn, stays, idles, pick_next_thread-Choice}
use d_rpi_proto_os.Thread.Switch.{thread_switch_to-exchanged}
use d_rpi_proto_os.Invariant.{ThreadOk}
use d_rpi_proto_os.Return.Exchange.{AtPoint, exchanged-Chosen, exchanged-Parked, exchanged-running}
use d_rpi_proto_os.Return.Alive.{Linked, Parked, Chosen}

-- The choice at the point: the thread stays, if it can go on, or another one is on the processor, and
-- the old one is parked.
pub data Scheduled (b : Build) (k : Kernel) (c : ℕ) : Kernel → Type 0 where
  stays_on :
      (c ≡ thread_slot_idle) ⊎ (thread_is_selectable (k.threads c) ≡ true) → Scheduled b k c k
  switches :
      {k' : Kernel} (next : ℕ)
      → next < thread_count
      → next ≢ c
      → (k'.threads next).state ≡ running
      → Parked b next (k'.threads next)
      → Chosen b k' next
      → Scheduled b k c k'

idle_selectable : {t : Thread} → ThreadOk thread_slot_idle t → thread_is_selectable t ≡ true
unfolding thread_is_selectable
idle_selectable ok = ground (arith, ok.kind, ok.idle_lives)

module _ {b : Build} {k : Kernel} {c : ℕ} (l : Linked b) (p : AtPoint b k c) where
  switch-Scheduled :
      (next : ℕ)
      → next < thread_count
      → next ≢ c
      → thread_is_selectable (k.threads next) ≡ true
      → Ensures (thread_switch_to b (some next) k) (λ _ k'. Scheduled b k c k')
  switch-Scheduled next lt ne ready =
      let ok = p.sound.threads_ok next lt in
      let chosen = exchanged-Chosen l p next lt ne ready in
      rw (thread_switch_to-exchanged b k c next p.current ne ok.lr ok.sp, Ensures)
        (switches next lt ne (exchanged-running l p next lt ne ready)
          (exchanged-Parked l p next lt ne ready) chosen)

  stay-Scheduled :
      (c ≡ thread_slot_idle) ⊎ (thread_is_selectable (k.threads c) ≡ true)
      → Ensures (thread_switch_to b (some c) k) (λ _ k'. Scheduled b k c k')
  unfolding thread_switch_to
  stay-Scheduled why = rw (p.current, ==_refl c) (stays_on why)

  thread_switch_to-Scheduled :
      (r : Option ℕ)
      → Choice k r
      → thread_is_selectable (k.threads thread_slot_idle) ≡ true
      → Ensures (thread_switch_to b r k) (λ _ k'. Scheduled b k c k')
  thread_switch_to-Scheduled _ (in_turn j lo hi here before) idle_ok =
      let next = (start_slot k + j) % thread_count in
      let facts : (next ≢ c) × (thread_is_selectable (k.threads next) ≡ true) =
        (ground (arith, here, p.current), ground (arith, here)) in
      switch-Scheduled next (omega arith) facts.0 facts.1
  thread_switch_to-Scheduled _ (stays all may) idle_ok =
      subst (λ r. Ensures (thread_switch_to b r k) (λ _ k'. Scheduled b k c k')) (sym p.current)
        (stay-Scheduled (inr (ground (arith, may, p.current))))
  thread_switch_to-Scheduled _ (idles all may) idle_ok = elim (Bool-cases (thread_slot_idle == c)) [
    | inl e ↦ rw (eq_of_== _ _ e) (stay-Scheduled (inl (sym (eq_of_== _ _ e))))
    | inr e ↦
        switch-Scheduled thread_slot_idle (omega arith) (λ same. ground (arith, same, e)) idle_ok
  ]

-- A requested switch is made at the point.
pub thread_resched_point-Scheduled :
    {b : Build} {k : Kernel} {c : ℕ}
    → Linked b
    → AtPoint b k c
    → k.resched_pending ≡ true
    → Ensures
        (thread_resched_point b k)
        (λ _ k'. Scheduled b (record k { resched_pending = false }) c k')
unfolding thread_resched_point
thread_resched_point-Scheduled {b} {k} {c} l p asked = rw asked (
    Ensures->>= (λ r k'. (k' ≡ calm) × Choice calm r) _ pick_next_thread (thread_switch_to b) calm
      (pick_next_thread-Choice calm idle_ok)
      (λ r k' (same, choice).
        subst (λ m. Ensures (thread_switch_to b r m) (λ _ k'. Scheduled b calm c k')) (sym same)
          (thread_switch_to-Scheduled l at_calm r choice idle_ok)))
  where
    calm : Kernel
    calm = record k { resched_pending = false }

    at_calm : AtPoint b calm c
    at_calm = record {
      sound = p.sound;
      current = p.current;
      small = p.small;
      rests = p.rests;
      asleep = p.asleep;
      parked = p.parked;
    }

    idle_ok : thread_is_selectable (k.threads thread_slot_idle) ≡ true
    idle_ok = idle_selectable (p.sound.threads_ok thread_slot_idle (omega arith))
