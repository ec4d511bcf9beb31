-- ===== src/Examples/Scheduling.antt =====
-- Tests of the scheduler.
use d_rpi_proto_os.Base.{ℕ, zero, suc, ◌≤◌, ◌<◌, ◌%◌, ◌≡◌, refl, arith, some}
use d_rpi_proto_os.Config.{micro}
use d_rpi_proto_os.State.{Kernel}
use d_rpi_proto_os.State.Effect.{Ensures}
use d_rpi_proto_os.Thread.{thread_is_selectable, scan_slots, pick_next_thread, thread_switch_to}
use d_rpi_proto_os.Thread.Pick.{Choice, pick_next_thread-Choice}
use d_rpi_proto_os.Thread.Switch.{Switched, thread_switch_to-Switched}
use d_rpi_proto_os.Thread.Fair.{Turn, picked_within_three}
use d_rpi_proto_os.Task.{user_task_init}
use d_rpi_proto_os.Ipc.{ipc_init}
use d_rpi_proto_os.Supervisor.{supervisor_init}
use d_rpi_proto_os.Boot.{init_threads, init_user_thread, thread_init_slot}
use d_rpi_proto_os.Examples.{build, trapped, trapped-Trapped, frame_of, svc_esr}

abbrev going : Kernel
going = trapped micro (frame_of (λ _. 0) svc_esr)

pick_next_thread-Choice_example :
    Ensures (pick_next_thread going) (λ r k'. (k' ≡ going) × Choice going r)
unfolding init_threads init_user_thread thread_init_slot user_task_init thread_is_selectable
    supervisor_init ipc_init
pick_next_thread-Choice_example = pick_next_thread-Choice going refl

thread_switch_to-Switched_example :
    Ensures
      (thread_switch_to (build micro) (some 1) going)
      (λ _ k'. Switched (build micro) going 0 1 k')
thread_switch_to-Switched_example =
    thread_switch_to-Switched (build micro) going 0 1 refl (omega arith)
      (λ s lt ne. ((trapped-Trapped micro (λ _. 0) svc_esr).asleep s lt ne).0)
      ((trapped-Trapped micro (λ _. 0) svc_esr).sound.threads_ok 1 (omega arith)).lr
      ((trapped-Trapped micro (λ _. 0) svc_esr).sound.threads_ok 1 (omega arith)).sp

-- Task A, task B and task C are current in turn.
abbrev turn_of : ℕ → ℕ
turn_of i = i % 3

abbrev going_in_turn : ℕ → Kernel
going_in_turn i = record going { current = some (turn_of i) }

going-Turn : (i : ℕ) → i < 3 → Turn 2 (going_in_turn i) (turn_of i) (turn_of (suc i))
unfolding init_threads init_user_thread thread_init_slot user_task_init thread_is_selectable
    supervisor_init ipc_init pick_next_thread scan_slots
going-Turn zero lt = record {
  current = refl;
  slot = refl;
  small = omega arith;
  ready = refl;
  idle_ready = refl;
  picked = refl;
}
going-Turn (suc zero) lt = record {
  current = refl;
  slot = refl;
  small = omega arith;
  ready = refl;
  idle_ready = refl;
  picked = refl;
}
going-Turn (suc (suc zero)) lt = record {
  current = refl;
  slot = refl;
  small = omega arith;
  ready = refl;
  idle_ready = refl;
  picked = refl;
}
going-Turn (suc (suc (suc i))) lt = absurd (omega arith)

picked_within_three_example : (m : ℕ) × (m ≤ 3) × (turn_of m ≡ 2)
picked_within_three_example = picked_within_three 2 going_in_turn turn_of (omega arith) going-Turn
