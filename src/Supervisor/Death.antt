-- ===== src/Supervisor/Death.antt =====
-- `supervisor_note_task_death` for the current task, which waits nowhere.
use d_rpi_proto_os.Base.{
  ℕ, ◌<◌, ◌≡◌, ◌≢◌, inl, inr, false, ◌==◌, leb, arith, update, update_ne, ◌∙◌, Bool-cases, ==_of_ne,
  sym,
}
use d_rpi_proto_os.Config.{thread_slot_idle, thread_count, slot_none}
use d_rpi_proto_os.State.{Kernel}
use d_rpi_proto_os.State.Effect.{Ensures, put_thread}
use d_rpi_proto_os.Task.{woken}
use d_rpi_proto_os.Waits.{waiter}
use d_rpi_proto_os.Waits.Table.{at_supervisor, not_recorded, Agree-unpark}
use d_rpi_proto_os.Handling.Stages.{Stage-supervisor}
use d_rpi_proto_os.Handling.Ahead.{Ahead, Ahead-death, Ahead-request}
use d_rpi_proto_os.Handling.Woken.{Ahead-wake}
use d_rpi_proto_os.Supervisor.{notify, supervisor_note_task_death}

module _ {k : Kernel} {c : ℕ} (small : c < thread_slot_idle) {k' : Kernel}
    (h : Ahead k c k' false) where
  unrecorded : waiter k' at_supervisor ≢ c
  unrecorded = not_recorded h.stage.sound.waits at_supervisor c tt small h.own_eq

  -- The waiting supervisor is woken and removed, or the death is kept.
  pub supervisor_note_task_death-Ahead :
      Ensures (supervisor_note_task_death c k') (λ _ after. Ahead k c after false)
  unfolding supervisor_note_task_death notify
  supervisor_note_task_death-Ahead =
      let in_range : leb thread_count c ≡ false = ground arith in
      let other : (c == k'.blocked_supervisor_slot) ≡ false =
        ==_of_ne c _ (λ e. unrecorded (sym e)) in
      rw (in_range, other)
        (elim (Bool-cases (k'.blocked_supervisor_slot == slot_none)) [
          | inl free ↦ rw free (Ahead-death small h c)
          | inr taken ↦
              let busy : k'.blocked_supervisor_slot ≢ slot_none = ground arith in
              rw (taken, (Ahead-wake small h at_supervisor c tt busy unrecorded).0, Ensures)
                (Ahead-request small (cleared busy))
        ])
    where
      waiting_slot : ℕ
      waiting_slot = k'.blocked_supervisor_slot

      cleared :
          k'.blocked_supervisor_slot ≢ slot_none
          → Ahead k c
              (record (put_thread waiting_slot (woken c (k'.threads waiting_slot)) k') {
                blocked_supervisor_slot = slot_none;
              })
              false
      cleared busy = record {
        held = update h.held k'.blocked_supervisor_slot false;
        waits = update h.waits k'.blocked_supervisor_slot false;
        stage =
            Stage-supervisor (Ahead-wake small h at_supervisor c tt busy unrecorded).1 slot_none
              (Agree-unpark h.stage.sound.waits at_supervisor tt busy);
        agree = λ s lts nes. ground (arith, h.agree s lts nes);
        own_eq = update_ne h.held k'.blocked_supervisor_slot false c unrecorded ∙ h.own_eq;
      }
