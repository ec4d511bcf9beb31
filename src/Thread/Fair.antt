-- ===== src/Thread/Fair.antt =====
-- `pick_next_thread` over several choices: no selectable user task is passed over for ever.
use d_rpi_proto_os.Base.{
  ℕ, zero, suc, ◌+◌, ◌-◌, ◌%◌, ◌≤◌, ◌<◌, ◌≡◌, ◌≢◌, ◌⊎◌, inl, inr, sym, true, false, Option, none,
  some, arith, ◌==◌, Bool-cases, eq_of_==, ltb,
}
use mathlib.Core.Path.{subst}
use d_rpi_proto_os.Config.{thread_count, thread_slot_idle}
use d_rpi_proto_os.State.{Kernel}
use d_rpi_proto_os.State.Effect.{Ensures, done}
use d_rpi_proto_os.Thread.{thread_is_selectable, start_slot, pick_next_thread}
use d_rpi_proto_os.Thread.Pick.{Choice, in_turn, stays, idles, eligible, pick_next_thread-Choice}

-- How far slot `s` is behind slot `c` in the order in which the slots are tried.
gap : ℕ → ℕ → ℕ
gap c s = (s + thread_count - c) % thread_count

-- Thread `c` is current, user task `s` and the idle thread are selectable, and `next` is picked.
pub record Turn (s : ℕ) (k : Kernel) (c next : ℕ) : Type 0 where
  pub current : k.current ≡ some c
  pub slot : (k.threads c).slot ≡ c
  pub small : c < thread_count
  pub ready : thread_is_selectable (k.threads s) ≡ true
  pub idle_ready : thread_is_selectable (k.threads thread_slot_idle) ≡ true
  pub picked : pick_next_thread k ≡ done (some next) k

-- The thread picked is `s`, or `s` is closer behind it.
Closer : ℕ → ℕ → Option ℕ → Type 0
Closer c s none = Unit {0}
Closer c s (some next) = (next ≡ s) ⊎ ((gap next s < gap c s) × (next < thread_count))

module _ (k : Kernel) (c s : ℕ) (start : start_slot k ≡ c) (small : c < thread_count)
    (user : s < thread_slot_idle) (ne : s ≢ c) (here : eligible k s ≡ true) where
  at_gap : (c + gap c s) % thread_count ≡ s
  unfolding gap
  at_gap = omega arith

  -- The loop does not pass slot `s`.
  not_passed :
      (j : ℕ)
      → ((m : ℕ) → 1 ≤ m → m < j → eligible k ((start_slot k + m) % thread_count) ≡ false)
      → j ≤ gap c s
  unfolding gap
  not_passed j before = elim (Bool-cases (ltb ((s + thread_count - c) % thread_count) j)) [
    | inl e ↦
        let passed =
          before ((s + thread_count - c) % thread_count) (omega (arith, ne)) (ground (arith, e)) in
        let same : (start_slot k + (s + thread_count - c) % thread_count) % thread_count ≡ s =
          omega (arith, start) in
        absurd (ground (arith, here, subst (λ v. eligible k v ≡ false) same passed))
    | inr e ↦ ground (arith, e)
  ]

  Choice-Closer : (r : Option ℕ) → Choice k r → Closer c s r
  unfolding Closer gap
  Choice-Closer r (in_turn j lo hi taken before) =
      let le = not_passed j before in
      elim (Bool-cases (j == gap c s)) [
        | inl e ↦ inl (omega (arith, start, eq_of_== j (gap c s) e))
        | inr e ↦
            let other : j ≢ gap c s = λ eq. ground (arith, e, eq) in
            inr (omega (arith, start, le, other), omega arith)
      ]
  Choice-Closer r (stays none_else may) = absurd (ground (arith, here, none_else s (omega arith)))
  Choice-Closer r (idles none_else may) = absurd (ground (arith, here, none_else s (omega arith)))

-- A choice in a turn is `s` or closer to it.
Turn-Closer :
    (s c next : ℕ) (k : Kernel)
    → s < thread_slot_idle
    → s ≢ c
    → Turn s k c next
    → Closer c s (some next)
Turn-Closer s c next k user ne t =
    Choice-Closer k c s (ground (arith, t.current, t.slot)) t.small user ne
      (ground (arith, t.current, t.ready, ne)) (some next)
      (subst (λ o. Ensures o (λ r k'. (k' ≡ k) × Choice k r)) t.picked
        (pick_next_thread-Choice k t.idle_ready)).1

-- The slot is current at the latest when as many choices have been made as it is behind.
in_time :
    (n s : ℕ) (run : ℕ → Kernel) (cur : ℕ → ℕ)
    → s < thread_slot_idle
    → cur 0 < thread_count
    → gap (cur 0) s ≤ n
    → ((i : ℕ) → i < n → Turn s (run i) (cur i) (cur (suc i)))
    → (m : ℕ) × (m ≤ n) × (cur m ≡ s)
unfolding gap Closer
in_time zero s run cur user small near turns = (0, omega arith, omega arith)
in_time (suc n) s run cur user small near turns = elim (Bool-cases (s == cur 0)) [
  | inl e ↦ (0, omega arith, sym (eq_of_== s (cur 0) e))
  | inr e ↦
      elim (Turn-Closer s (cur 0) (cur 1) (run 0) user (λ eq. ground (arith, e, eq))
        (turns 0 (omega arith))) [
          | inl here ↦ (1, omega arith, here)
          | inr (closer, bound) ↦
              let rest =
                in_time n s (λ i. run (suc i)) (λ i. cur (suc i)) user bound (omega (arith, closer))
                  (λ i lt. turns (suc i) (omega arith)) in
              (suc rest.0, omega (arith, rest.1), rest.2)
        ]
]

-- If user task s is selectable in each of three states, and in each of them the current thread is
-- in its place, the idle thread is selectable, and the scheduler picks the thread that is current
-- in the next one, whatever happens in between, then s is current in the first of the states or is
-- picked by one of the three choices.
pub picked_within_three :
    (s : ℕ) (run : ℕ → Kernel) (cur : ℕ → ℕ)
    → s < thread_slot_idle
    → ((i : ℕ) → i < 3 → Turn s (run i) (cur i) (cur (suc i)))
    → (m : ℕ) × (m ≤ 3) × (cur m ≡ s)
unfolding gap
picked_within_three s run cur user turns =
    in_time 3 s run cur user (turns 0 (omega arith)).small (omega arith) turns
