-- ===== src/Examples/Users.antt =====
-- Tests of the user tasks.
use d_rpi_proto_os.Base.{
  ℕ, suc, ◌+◌, ◌-◌, ◌*◌, ◌≤◌, ◌≡◌, refl, List, [], ◌∷◌, ◌++◌, leb, if◌then◌else◌, update, true,
  ◌||◌, ◌==◌, arith,
}
use d_rpi_proto_os.Config.{micro, bench_off, bench_latency, bench_recovery, bench_iterations}
use d_rpi_proto_os.Printk.{decimal}
use d_rpi_proto_os.State.Effect.{codes}
use d_rpi_proto_os.User.Calls.{Answers, Request, read_cntvct, written}
use d_rpi_proto_os.User.Emit.{char_at, bench_emit_u64}
use d_rpi_proto_os.User.Written.{Emits, bench_emit_u64-Emits}
use d_rpi_proto_os.User.Collect.{bench_collect_write_samples, bench_collect_ipc_samples}
use d_rpi_proto_os.User.Measured.{Collected, bench_collect-Collected}
use d_rpi_proto_os.User.TaskA.{task_a_program}
use d_rpi_proto_os.User.TaskA.Reports.{LatencyText, RecoveryText, task_a_program-Text}
use d_rpi_proto_os.User.Sort.{shift, sort_from, middle, bench_sort_u64, bench_median_u64}
use d_rpi_proto_os.User.Sorted.{tally, Ascending, bench_sort_u64-Ascending}
use d_rpi_proto_os.User.Median.{bench_median_u64-sides}
use d_rpi_proto_os.User.Tasks.{
  task_a_entry, task_a_rounds, task_a_round, tick_reached, task_b_entry, task_b_rounds,
  task_b_round, crash_once, task_c_entry,
}
use d_rpi_proto_os.User.Clock.{ticks_request, messages, task_a_entry-Paced}
use d_rpi_proto_os.User.Server.{Serving, crash_count, lives, phase_of, is_alive, fresh_state}
use d_rpi_proto_os.User.Server.Lives.{lives-Serving}
use d_rpi_proto_os.User.Supervising.{Service, task_c_entry-Service}

-- A kernel that answers 1 to every request; the tick and the counter of the second one grow with the
-- requests.
abbrev one_each : Answers
one_each rs = record { x0 = 1; filled = λ _. 7 }

abbrev count : List Request → ℕ
count [] = 0
count (r ∷ rs) = suc (count rs)

abbrev counting : Answers
counting (read_cntvct ∷ rs) = record { x0 = count rs; filled = λ _. 0 }
counting _ = one_each []

-- Five samples.
abbrev five : ℕ → ℕ
five = update (update (update (update (update (λ _. 0) 0 9) 1 4) 2 7) 3 4) 4 1

bench_sort_u64-Ascending_example :
    Ascending (bench_sort_u64 five 5) 5
    × (tally (λ v. leb v 4) (bench_sort_u64 five 5) 5 ≡ tally (λ v. leb v 4) five 5)
bench_sort_u64-Ascending_example = bench_sort_u64-Ascending (λ v. leb v 4) five 5

median_of_five : bench_median_u64 five 5 ≡ 4
unfolding bench_median_u64 middle bench_sort_u64 sort_from shift
median_of_five = refl

bench_median_u64-sides_example :
    (bench_median_u64 five 0 ≡ 0)
    × (5 ≤ 2 * tally (λ v. leb v (bench_median_u64 five 5)) five 5)
    × (5 ≤ 2 * tally (λ v. leb (bench_median_u64 five 5) v) five 5)
bench_median_u64-sides_example = bench_median_u64-sides five 5

bench_emit_u64-Emits_example : Emits (bench_emit_u64 one_each 507) (decimal 507)
bench_emit_u64-Emits_example = bench_emit_u64-Emits one_each 507 (omega arith)

bench_collect-Collected_example :
    Collected bench_iterations (bench_collect_write_samples counting (λ _. 0) fresh_state).0
    × Collected bench_iterations
        (bench_collect_ipc_samples counting (λ _. 0) (λ _. 0) fresh_state).0
bench_collect-Collected_example = bench_collect-Collected counting (λ _. 0) (λ _. 0) fresh_state

task_a_program-Text_example :
    LatencyText micro 1 fresh_state
      (task_a_program one_each bench_latency micro 3 (λ _. 0) (λ _. 0) fresh_state).1
    × RecoveryText micro 1 fresh_state
        (task_a_program one_each bench_recovery micro 3 (λ _. 0) (λ _. 0) fresh_state).1
task_a_program-Text_example =
    task_a_program-Text one_each micro 3 (λ _. 0) (λ _. 0) fresh_state (omega arith)

-- A clock that starts at 5 and tells 300 behind the first request.
abbrev clock : Answers
clock (r ∷ []) = record { x0 = 5; filled = λ _. 0 }
clock _ = record { x0 = 300; filled = λ _. 0 }

clock_until : (rs : List Request) → (clock (ticks_request ∷ rs)).x0 ≤ 300
clock_until [] = omega arith
clock_until (r ∷ rs) = omega arith

task_a_entry-Paced_example :
    (let first = (clock (ticks_request ∷ [])).x0 in
      let after = task_a_entry clock 6 fresh_state in
      (k : ℕ) × (after.0 ≡ first + 200 * suc k)
      × (200 * k ≤ 300 - first)
      × (written after.1.requests ≡ written [] ++ messages k))
task_a_entry-Paced_example = task_a_entry-Paced clock 300 6 fresh_state clock_until (omega arith)

task_a_says : written (task_a_entry clock 6 fresh_state).1.requests ≡ codes "A\n"
unfolding task_a_entry written task_a_rounds task_a_round tick_reached char_at
task_a_says = refl

lives-Serving_example :
    (let (life, s) = lives one_each bench_off 4 1 (λ _. 0) fresh_state in
      Serving one_each bench_off (phase_of 4 life) s.requests s.crashed_once
      × (crash_count s.requests ≡ (if s.crashed_once then 1 else 0))
      × ((is_alive life || (1 == 0)) ≡ true))
lives-Serving_example = lives-Serving one_each bench_off 4 1 (λ _. 0)

crashes_once : crash_count (lives one_each bench_off 4 1 (λ _. 0) fresh_state).1.requests ≡ 1
unfolding lives crash_count task_b_entry task_b_rounds task_b_round crash_once
crashes_once = refl

task_c_entry-Service_example :
    Service bench_off one_each 3 (task_c_entry one_each bench_off 3 (λ _. 0) fresh_state).1.requests
task_c_entry-Service_example = task_c_entry-Service one_each bench_off 3 (λ _. 0)
