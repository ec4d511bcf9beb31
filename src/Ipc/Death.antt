-- ===== src/Ipc/Death.antt =====
-- `ipc_handle_task_death` for the current task, which waits nowhere.
use d_rpi_proto_os.Base.{
  ℕ, zero, suc, ◌+◌, ◌≤◌, ◌<◌, ◌≡◌, ◌≢◌, refl, inl, inr, false, ◌&&◌, not, ◌==◌, arith, update,
  Bool-cases, ==_of_ne, eq_of_==, ap,
}
use d_rpi_proto_os.Config.{thread_slot_idle, ep_count, slot_none, minus_one}
use d_rpi_proto_os.State.{Kernel}
use d_rpi_proto_os.State.Effect.{Ensures, Ensures->>=}
use d_rpi_proto_os.Waits.{waiter}
use d_rpi_proto_os.Waits.Table.{Place, IsPlace, at_caller, at_receiver, not_recorded}
use d_rpi_proto_os.Invariant.{EndpointOk}
use d_rpi_proto_os.Handling.Ahead.{Ahead, Ahead-request}
use d_rpi_proto_os.Handling.Woken.{Ahead-wake, Ahead-clear_caller}
use d_rpi_proto_os.Ipc.{
  endpoint_clear_pending, endpoint_clear_caller, drop_task, drop_task_from, ipc_handle_task_death,
}

-- A write that changes nothing.
pub update_same : {A : Type 0} (f : ℕ → A) (i : ℕ) → update f i (f i) ≡ f
update_same f i t j = same j t
  where
    same : (j : ℕ) → update f i (f i) j ≡ f j
    same j = ground (arith, eq_of_== i j, ap f)

module _ {k : Kernel} {c : ℕ} (small : c < thread_slot_idle) where
  -- One round of the loop: the endpoint's caller is woken if the dead task owns the endpoint.
  drop_task-Ahead :
      {k' : Kernel}
      → Ahead k c k' false
      → (i : ℕ) → i < ep_count
      → Ensures (drop_task c i k') (λ _ after. Ahead k c after false)
  unfolding drop_task
  drop_task-Ahead {k'} h i lt =
      rw (==_of_ne _ c (unrecorded (at_receiver i) lt), update_same k'.endpoints i)
        (elim (Bool-cases (
          ((k'.endpoints i).owner_slot == c)
          && not ((k'.endpoints i).blocked_caller_slot == slot_none))) [
            | inl owned ↦
                let busy : (k'.endpoints i).blocked_caller_slot ≢ slot_none = ground arith in
                rw
                  (
                    owned,
                    (Ahead-wake small h (at_caller i) minus_one lt busy
                        (unrecorded (at_caller i) lt)).0,
                    Ensures,
                  )
                  (Ahead-request small (
                    Ahead-clear_caller small h minus_one i _ lt ok_cleared busy
                      (unrecorded (at_caller i) lt) refl refl))
            | inr kept ↦ rw (kept, ==_of_ne _ c (unrecorded (at_caller i) lt)) h
          ])
    where
      unrecorded : (p : Place) → IsPlace p → waiter k' p ≢ c
      unrecorded p okp = not_recorded h.stage.sound.waits p c okp small h.own_eq

      ok_cleared : EndpointOk (endpoint_clear_pending (endpoint_clear_caller (k'.endpoints i)))
      ok_cleared =
          let ok = h.stage.sound.endpoints_ok i lt in
          record {
            owner = ok.owner;
            reply_buf = λ pos. omega arith;
            recv_buf = ok.recv_buf;
            fits = omega arith;
            unheard = λ e. ground arith;
          }

  drop_task_from-Ahead :
      (n : ℕ) {k' : Kernel}
      → Ahead k c k' false
      → (i : ℕ) → i + n ≤ ep_count
      → Ensures (drop_task_from c n i k') (λ _ after. Ahead k c after false)
  unfolding drop_task_from
  drop_task_from-Ahead zero h i le = h
  drop_task_from-Ahead (suc n) {k'} h i le =
      Ensures->>= (λ _ after. Ahead k c after false) _ (drop_task c i)
        (λ _. drop_task_from c n (i + 1)) k' (drop_task-Ahead h i (omega arith))
        (λ _ after h'. drop_task_from-Ahead n h' (i + 1) (omega arith))

  -- If the records and the tasks other than user task c agree and c is recorded nowhere, the clean-
  -- up for the death of c does not panic, and afterwards they agree again and c is recorded
  -- nowhere.
  pub ipc_handle_task_death-Ahead :
      {k' : Kernel}
      → Ahead k c k' false
      → Ensures (ipc_handle_task_death c k') (λ _ after. Ahead k c after false)
  unfolding ipc_handle_task_death
  ipc_handle_task_death-Ahead h = drop_task_from-Ahead ep_count h 0 (omega arith)
