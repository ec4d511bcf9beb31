-- ===== src/User/Text.antt =====
-- kernel/el0/user_tasks.c: the texts of the user tasks, without their zero bytes.
use d_rpi_proto_os.Base.{ℕ, List}
use d_rpi_proto_os.Config.{Flavor, mono, micro, BenchMode, bench_off, bench_latency, bench_recovery}
use d_rpi_proto_os.State.Effect.{codes}

-- KERNEL_FLAVOR_STR and BENCH_MODE_STR
abbrev pub flavor_str : Flavor → List ℕ
flavor_str mono = codes "MONO"
flavor_str micro = codes "MICRO"

abbrev pub mode_str : BenchMode → List ℕ
mode_str bench_off = codes "OFF"
mode_str bench_latency = codes "LATENCY"
mode_str bench_recovery = codes "RECOVERY"

abbrev pub task_a_msg : List ℕ
task_a_msg = codes "A\n"

abbrev pub uart_ready_msg : List ℕ
uart_ready_msg = codes "[uart] ready\n"

abbrev pub sup_ready_msg : List ℕ
sup_ready_msg = codes "[sup] ready\n"

abbrev pub sup_restarted_msg : List ℕ
sup_restarted_msg = codes "[sup] restarted uart\n"

abbrev pub bench_test_sys_write : List ℕ
bench_test_sys_write = codes "sys_write"

abbrev pub bench_test_ipc_roundtrip : List ℕ
bench_test_ipc_roundtrip = codes "ipc_roundtrip"

abbrev pub bench_meta_end_prefix : List ℕ
bench_meta_end_prefix = codes "BENCH_META schema=1 phase=end flavor="

abbrev pub bench_line_prefix : List ℕ
bench_line_prefix = codes "BENCH test="

abbrev pub bench_recovery_prefix : List ℕ
bench_recovery_prefix = codes "BENCH test=recovery_window flavor="

abbrev pub bench_mode_field : List ℕ
bench_mode_field = codes " mode="

abbrev pub bench_flavor_field : List ℕ
bench_flavor_field = codes " flavor="

abbrev pub bench_iter_field : List ℕ
bench_iter_field = codes " iter="

abbrev pub bench_failures_field : List ℕ
bench_failures_field = codes " failures="

abbrev pub bench_min_field : List ℕ
bench_min_field = codes " min_cycles="

abbrev pub bench_median_field : List ℕ
bench_median_field = codes " median_cycles="

abbrev pub bench_max_field : List ℕ
bench_max_field = codes " max_cycles="

abbrev pub bench_total_field : List ℕ
bench_total_field = codes " total_cycles="

abbrev pub bench_cycles_field : List ℕ
bench_cycles_field = codes " cycles="

abbrev pub bench_cntfrq_field : List ℕ
bench_cntfrq_field = codes " cntfrq_hz="

abbrev pub bench_iterations_field : List ℕ
bench_iterations_field = codes " iterations="

abbrev pub bench_newline : List ℕ
bench_newline = codes "\n"
