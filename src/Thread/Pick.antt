-- ===== src/Thread/Pick.antt =====
-- `pick_next_thread`: the order of its loop, and what it falls back on.
use d_rpi_proto_os.Base.{
  ℕ, zero, suc, ◌+◌, ◌-◌, ◌%◌, ◌≤◌, ◌<◌, ◌≡◌, refl, Bool, true, false, ◌&&◌, not, Option, none,
  some, inl, inr, ◌==◌, arith, Bool-cases,
}
use mathlib.Core.Path.{subst}
use d_rpi_proto_os.Config.{thread_count, thread_slot_idle}
use d_rpi_proto_os.State.{Kernel}
use d_rpi_proto_os.State.Effect.{Ensures, done}
use d_rpi_proto_os.Thread.{
  points_to, thread_is_selectable, scan_slots, start_slot, current_may_stay, pick_fallback,
  pick_next_thread,
}

-- A thread that the loop takes: neither the idle thread nor the current one, and selectable.
abbrev pub eligible : Kernel → ℕ → Bool
eligible k s =
    not (s == thread_slot_idle)
    && (not (points_to k.current s) && thread_is_selectable (k.threads s))

-- The result of `n` rounds from round `i`: the first eligible slot behind `start`, or none.
data Scanned (k : Kernel) (start n i : ℕ) : Option ℕ → Type 0 where
  found :
      (j : ℕ)
      → i ≤ j
      → j < i + n
      → eligible k ((start + j) % thread_count) ≡ true
      → ((m : ℕ) → i ≤ m → m < j → eligible k ((start + m) % thread_count) ≡ false)
      → Scanned k start n i (some ((start + j) % thread_count))
  exhausted :
      ((m : ℕ) → i ≤ m → m < i + n → eligible k ((start + m) % thread_count) ≡ false)
      → Scanned k start n i none

module _ (k : Kernel) (start : ℕ) where
  later :
      (n i : ℕ) (r : Option ℕ)
      → eligible k ((start + i) % thread_count) ≡ false
      → Scanned k start n (i + 1) r
      → Scanned k start (suc n) i r
  later n i r passed (found j lo hi here before) =
      found j (omega arith) (omega arith) here (λ m a b. elim (Bool-cases (m == i)) [
        | inl e ↦ ground (arith)
        | inr e ↦ before m (ground arith) b
      ])
  later n i r passed (exhausted before) = exhausted (λ m a b. elim (Bool-cases (m == i)) [
    | inl e ↦ ground (arith)
    | inr e ↦ before m (ground arith) (omega arith)
  ])

  scan_slots-taken :
      (n i : ℕ)
      → eligible k ((start + i) % thread_count) ≡ true
      → scan_slots k start (suc n) i ≡ some ((start + i) % thread_count)
  unfolding scan_slots
  scan_slots-taken n i h = ground arith

  scan_slots-passed :
      (n i : ℕ)
      → eligible k ((start + i) % thread_count) ≡ false
      → scan_slots k start (suc n) i ≡ scan_slots k start n (i + 1)
  unfolding scan_slots
  scan_slots-passed n i h = ground arith

  scan_slots-Scanned : (n i : ℕ) → Scanned k start n i (scan_slots k start n i)
  unfolding scan_slots
  scan_slots-Scanned zero i = exhausted (λ m a b. ground arith)
  scan_slots-Scanned (suc n) i = elim (Bool-cases (eligible k ((start + i) % thread_count))) [
    | inl e ↦
        rw (scan_slots-taken n i e) (found i (omega arith) (omega arith) e (λ m a b. ground arith))
    | inr e ↦ rw (scan_slots-passed n i e) (later n i _ e (scan_slots-Scanned n (i + 1)))
  ]

-- The choice in state `k`. The slots are tried in turn from the one behind the current thread's;
-- if none of them is eligible the current thread goes on if it can, else the idle thread runs.
pub data Choice (k : Kernel) : Option ℕ → Type 0 where
  in_turn :
      (j : ℕ)
      → 1 ≤ j
      → j ≤ thread_count
      → eligible k ((start_slot k + j) % thread_count) ≡ true
      → ((m : ℕ) → 1 ≤ m → m < j → eligible k ((start_slot k + m) % thread_count) ≡ false)
      → Choice k (some ((start_slot k + j) % thread_count))
  stays :
      ((s : ℕ) → s < thread_count → eligible k s ≡ false)
      → current_may_stay k k.current ≡ true
      → Choice k k.current
  idles :
      ((s : ℕ) → s < thread_count → eligible k s ≡ false)
      → current_may_stay k k.current ≡ false
      → Choice k (some thread_slot_idle)

-- Four rounds visit every slot.
visits_all :
    (k : Kernel) (start : ℕ)
    → ((m : ℕ) → 1 ≤ m → m < 1 + thread_count → eligible k ((start + m) % thread_count) ≡ false)
    → (s : ℕ) → s < thread_count
    → eligible k s ≡ false
visits_all k start all s lt =
    let m = (s + 7 - start % 4) % 4 + 1 in
    let e : (start + m) % 4 ≡ s = omega arith in
    subst (λ v. eligible k v ≡ false) e (all m (omega arith) (omega arith))

-- If the idle thread is selectable, the choice does not panic and changes nothing: it is the first
-- eligible slot in turn behind the current thread's slot; without one it is the current thread if
-- that is selectable and not the idle thread, else the idle thread.
pub pick_next_thread-Choice :
    (k : Kernel)
    → thread_is_selectable (k.threads thread_slot_idle) ≡ true
    → Ensures (pick_next_thread k) (λ r k'. (k' ≡ k) × Choice k r)
unfolding pick_next_thread pick_fallback
pick_next_thread-Choice k idle_ok =
    go (scan_slots k (start_slot k) thread_count 1)
      (scan_slots-Scanned k (start_slot k) thread_count 1)
  where
    go :
        (r : Option ℕ)
        → Scanned k (start_slot k) thread_count 1 r
        → Ensures
            (elim r [ some idx ↦ done (some idx) k | none ↦ pick_fallback k ])
            (λ r k'. (k' ≡ k) × Choice k r)
    go (some idx) (found j lo hi here before) = (refl, in_turn j lo (omega arith) here before)
    go none (exhausted all) = elim (Bool-cases (current_may_stay k k.current)) [
      | inl e ↦ rw e (refl, stays (visits_all k (start_slot k) all) e)
      | inr e ↦ rw (e, idle_ok) (refl, idles (visits_all k (start_slot k) all) e)
    ]
