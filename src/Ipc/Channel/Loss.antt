-- ===== src/Ipc/Channel/Loss.antt =====
-- The channels of a task that dies: what is dropped, and who is told.
use d_rpi_proto_os.Base.{
  ℕ, suc, ◌≤◌, ◌<◌, ◌≡◌, ◌≢◌, refl, ap, sym, ◌∙◌, inl, inr, true, false, ◌&&◌, not, ◌==◌, arith,
  Bool-cases, ==_of_ne, eq_of_==,
}
use d_rpi_proto_os.Config.{thread_slot_idle, ep_count, slot_none, minus_one}
use d_rpi_proto_os.State.{Kernel}
use d_rpi_proto_os.Task.{woken}
use d_rpi_proto_os.Waits.{waiter, waiting}
use d_rpi_proto_os.Waits.Table.{Place, IsPlace, same_place, at_caller, at_receiver, not_recorded}
use d_rpi_proto_os.Invariant.{Inv}
use d_rpi_proto_os.Ipc.{endpoint_clear_pending, endpoint_clear_caller}
use d_rpi_proto_os.Ipc.Channel.{without, drop_caller, drop}
use d_rpi_proto_os.Ipc.Channel.Meaning.{channel_of, caller_of, receiver_of}
use mathlib.Core.Path.{subst}

-- Task s waits for a reply of task c at endpoint j.
abbrev pub Orphan : Kernel → ℕ → ℕ → ℕ → Type 0
Orphan k c j s =
    ((k.endpoints j).owner_slot ≡ c) × ((k.endpoints j).blocked_caller_slot ≡ s) × (s ≢ slot_none)

-- The endpoints below i are cleared of task c.
pub record Dropped (k : Kernel) (c i : ℕ) (k' : Kernel) : Type 0 where
  pub behind : (j : ℕ) → j < i → channel_of (k'.endpoints j) ≡ drop c (channel_of (k.endpoints j))
  pub ahead : (j : ℕ) → i ≤ j → k'.endpoints j ≡ k.endpoints j
  pub orphans : (j s : ℕ) → j < i → Orphan k c j s → k'.threads s ≡ woken minus_one (k.threads s)
  pub others : (s : ℕ) → ((j : ℕ) → j < i → ¬ Orphan k c j s) → k'.threads s ≡ k.threads s
  pub same_mem : k'.mem ≡ k.mem

-- What holds below a number and at it.
pub up_to : (P : ℕ → Type 0) (i : ℕ) → ((j : ℕ) → j < i → P j) → P i → (j : ℕ) → j < suc i → P j
up_to P i below at j lt = elim (Bool-cases (i == j)) [
  | inl e ↦ subst P (eq_of_== i j e) at
  | inr e ↦ below j (ground arith)
]

module _ (k : Kernel) (c : ℕ) (inv : Inv k) (small : c < thread_slot_idle)
    (awake : waiting k c ≡ false) where
  unrecorded : (p : Place) → IsPlace p → waiter k p ≢ c
  unrecorded p okp = not_recorded inv.waits p c okp small awake

  pub no_receiver : (i : ℕ) → i < ep_count → ((k.endpoints i).blocked_receiver_slot == c) ≡ false
  no_receiver i lt = ==_of_ne _ c (unrecorded (at_receiver i) lt)

  pub no_caller : (i : ℕ) → i < ep_count → ((k.endpoints i).blocked_caller_slot == c) ≡ false
  no_caller i lt = ==_of_ne _ c (unrecorded (at_caller i) lt)

  no_loss :
      (i : ℕ) → i < ep_count → without c (receiver_of (k.endpoints i)) ≡ receiver_of (k.endpoints i)
  no_loss i lt = elim (Bool-cases ((k.endpoints i).blocked_receiver_slot == slot_none)) [
    | inl e ↦ rw e refl
    | inr e ↦ rw (e, no_receiver i lt) refl
  ]

  drop-caller :
      (i : ℕ)
      → i < ep_count
      → drop c (channel_of (k.endpoints i))
        ≡ drop_caller c (channel_of (k.endpoints i)) (caller_of (k.endpoints i))
  drop-caller i lt =
      let ch = channel_of (k.endpoints i) in
      ap (λ r. drop_caller c (record ch { receiver = r }) ch.caller) (no_loss i lt)

  -- What the channel's owner leaves behind.
  pub drop_owned :
      (i : ℕ)
      → i < ep_count
      → ((k.endpoints i).owner_slot == c) ≡ true
      → ((k.endpoints i).blocked_caller_slot == slot_none) ≡ false
      → channel_of (endpoint_clear_pending (endpoint_clear_caller (k.endpoints i)))
        ≡ drop c (channel_of (k.endpoints i))
  drop_owned i lt own busy = sym (drop-caller i lt ∙ rw (busy, own) refl)

  pub drop_kept :
      (i : ℕ)
      → i < ep_count
      → (((k.endpoints i).owner_slot == c)
          && not ((k.endpoints i).blocked_caller_slot == slot_none))
        ≡ false
      → channel_of (k.endpoints i) ≡ drop c (channel_of (k.endpoints i))
  drop_kept i lt kept = elim (Bool-cases ((k.endpoints i).blocked_caller_slot == slot_none)) [
    | inl e ↦ sym (drop-caller i lt ∙ rw e refl)
    | inr e ↦
        let other : ((k.endpoints i).owner_slot == c) ≡ false = ground arith in
        sym (drop-caller i lt ∙ rw (e, other, no_caller i lt) refl)
  ]

  -- Nobody else is told twice.
  pub told_once :
      (i j s : ℕ)
      → i < ep_count
      → j < i
      → (k.endpoints i).blocked_caller_slot ≡ s
      → s ≢ slot_none
      → ¬ Orphan k c j s
  told_once i j s lt before at busy (own, at', _) =
      let e =
        inv.waits.unique (at_caller i) (at_caller j) lt (omega arith) (ground (arith, at))
          (at ∙ sym at') in
      let places = ap (same_place (at_caller i)) e in ground (arith, places)
