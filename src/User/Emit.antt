-- ===== src/User/Emit.antt =====
-- kernel/el0/user_tasks.c: the output of the measurements.
use d_rpi_proto_os.Base.{ℕ, zero, suc, ◌+◌, ◌/◌, ◌%◌, List, [], ◌∷◌, ◌==◌, if◌then◌else◌, update}
use d_rpi_proto_os.Config.{Flavor, BenchMode, bench_iterations}
use d_rpi_proto_os.User.Text.{
  flavor_str, mode_str, bench_meta_end_prefix, bench_line_prefix, bench_recovery_prefix,
  bench_mode_field, bench_flavor_field, bench_iter_field, bench_failures_field, bench_min_field,
  bench_median_field, bench_max_field, bench_total_field, bench_cycles_field, bench_cntfrq_field,
  bench_iterations_field, bench_newline,
}
use d_rpi_proto_os.User.Calls.{Answers, U, pure, ◌>>◌, el0_write}

-- A string is the list of its bytes, with a zero byte behind it.
unfoldable pub char_at : List ℕ → ℕ → ℕ
char_at [] i = 0
char_at (c ∷ s) zero = c
char_at (c ∷ s) (suc i) = char_at s i

unfoldable pub bench_cstr_len : List ℕ → ℕ
bench_cstr_len [] = 0
bench_cstr_len (c ∷ s) = if c == 0 then 0 else suc (bench_cstr_len s)

-- The loop that stores the digits, the lowest one first, with `room` places left from place i.
unfoldable pub store_low : ℕ → ℕ → (ℕ → ℕ) → ℕ → (ℕ → ℕ) × ℕ
store_low zero value buf i = (buf, i)
store_low (suc room) value buf i =
    let rest = store_low room (value / 10) (update buf i (b'0' + value % 10)) (suc i) in
    if value == 0 then (buf, i) else rest

-- The array of digits and their number; what the array holds before is not read.
unfoldable pub low_digits : ℕ → (ℕ → ℕ) × ℕ
low_digits value = if value == 0 then (update (λ _. 0) 0 b'0', 1) else store_low 21 value (λ _. 0) 0

module _ (answers : Answers) where
  unfoldable pub bench_emit_str : List ℕ → U (Unit {0})
  bench_emit_str s = el0_write answers (char_at s) (bench_cstr_len s)

  -- The second loop of `bench_emit_u64`.
  unfoldable pub emit_down : (ℕ → ℕ) → ℕ → U (Unit {0})
  emit_down buf zero = pure tt
  emit_down buf (suc i) = do el0_write answers (λ n. buf (i + n)) 1; emit_down buf i

  unfoldable pub bench_emit_u64 : ℕ → U (Unit {0})
  bench_emit_u64 value = let (buf, i) = low_digits value in emit_down buf i

module _ (flavor : Flavor) (answers : Answers) where
  unfoldable pub bench_emit_meta_end : BenchMode → ℕ → U (Unit {0})
  bench_emit_meta_end mode cntfrq_hz = do
    bench_emit_str answers bench_meta_end_prefix
    bench_emit_str answers (flavor_str flavor)
    bench_emit_str answers bench_mode_field
    bench_emit_str answers (mode_str mode)
    bench_emit_str answers bench_cntfrq_field
    bench_emit_u64 answers cntfrq_hz
    bench_emit_str answers bench_iterations_field
    bench_emit_u64 answers bench_iterations
    bench_emit_str answers bench_newline

  unfoldable pub bench_emit_latency_result : List ℕ → ℕ → ℕ → ℕ → ℕ → ℕ → U (Unit {0})
  bench_emit_latency_result test_name failures min_cycles median_cycles max_cycles total_cycles = do
    bench_emit_str answers bench_line_prefix
    bench_emit_str answers test_name
    bench_emit_str answers bench_flavor_field
    bench_emit_str answers (flavor_str flavor)
    bench_emit_str answers bench_iter_field
    bench_emit_u64 answers bench_iterations
    bench_emit_str answers bench_failures_field
    bench_emit_u64 answers failures
    bench_emit_str answers bench_min_field
    bench_emit_u64 answers min_cycles
    bench_emit_str answers bench_median_field
    bench_emit_u64 answers median_cycles
    bench_emit_str answers bench_max_field
    bench_emit_u64 answers max_cycles
    bench_emit_str answers bench_total_field
    bench_emit_u64 answers total_cycles
    bench_emit_str answers bench_newline

  unfoldable pub bench_emit_recovery_result : ℕ → ℕ → U (Unit {0})
  bench_emit_recovery_result failures cycles = do
    bench_emit_str answers bench_recovery_prefix
    bench_emit_str answers (flavor_str flavor)
    bench_emit_str answers bench_iter_field
    bench_emit_u64 answers 1
    bench_emit_str answers bench_failures_field
    bench_emit_u64 answers failures
    bench_emit_str answers bench_cycles_field
    bench_emit_u64 answers cycles
    bench_emit_str answers bench_newline
