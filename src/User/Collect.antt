-- ===== src/User/Collect.antt =====
-- kernel/el0/user_tasks.c: the measurements, `bench_collect_write_samples`,
-- `bench_collect_ipc_samples`, `bench_run_latency` and `bench_run_recovery`.
use d_rpi_proto_os.Base.{
  ℕ, zero, suc, ◌+◌, ◌-◌, ◌%◌, ◌^◌, ◌||◌, List, ◌==◌, ltb, if◌then◌else◌, update,
}
use d_rpi_proto_os.Config.{Flavor, bench_iterations, ep_bench, bench_latency, bench_recovery}
use d_rpi_proto_os.User.Text.{bench_test_sys_write, bench_test_ipc_roundtrip}
use d_rpi_proto_os.User.Calls.{
  Answers, U, pure, ◌>>=◌, ◌>>◌, el0_write_ret, el0_ipc_call, el0_read_cntvct, el0_read_cntfrq,
  el0_yield,
}
use d_rpi_proto_os.User.Emit.{
  bench_emit_meta_end, bench_emit_latency_result, bench_emit_recovery_result,
}
use d_rpi_proto_os.User.Sort.{bench_median_u64}

-- The variables of the two collecting functions.
pub record Stats : Type 0 where
  pub samples : ℕ → ℕ
  pub success_count : ℕ
  pub min_cycles : ℕ
  pub max_cycles : ℕ
  pub total_cycles : ℕ
  pub failures : ℕ

-- The payloads of one byte.
abbrev bench_write_payload : ℕ → ℕ
bench_write_payload _ = 0

abbrev bench_ipc_payload : ℕ → ℕ
bench_ipc_payload _ = 0x5A

-- end - start on a uint64_t
abbrev pub elapsed_cycles : ℕ → ℕ → ℕ
elapsed_cycles start end = (end + 2 ^ 64 - start) % 2 ^ 64

-- The part of a round behind the second reading of the counter.
unfoldable pub take_sample : ℕ → Stats → Stats
take_sample elapsed st =
    let success_count = suc st.success_count in
    record {
      samples = update st.samples st.success_count elapsed;
      success_count = success_count;
      total_cycles = (st.total_cycles + elapsed) % 2 ^ 64;
      min_cycles =
          if success_count == 1 || ltb elapsed st.min_cycles then elapsed else st.min_cycles;
      max_cycles = if ltb st.max_cycles elapsed then elapsed else st.max_cycles;
      failures = st.failures;
    }

unfoldable pub fail_sample : Stats → Stats
fail_sample st = record st { failures = suc st.failures }

-- What the two functions set before their loops; the array is the caller's.
abbrev pub no_stats : (ℕ → ℕ) → Stats
no_stats samples = record {
  samples = samples;
  success_count = 0;
  min_cycles = 0;
  max_cycles = 0;
  total_cycles = 0;
  failures = 0;
}

module _ (answers : Answers) where
  -- A round of the loops, which differ in the call that they measure.
  unfoldable pub sample_round : U ℕ → Stats → U Stats
  sample_round call st = do
    start ← el0_read_cntvct answers
    retval ← call
    if retval == 1
        then (do end ← el0_read_cntvct answers; pure (take_sample (elapsed_cycles start end) st))
        else pure (fail_sample st)

  unfoldable pub sample_rounds : U ℕ → ℕ → Stats → U Stats
  sample_rounds call zero st = pure st
  sample_rounds call (suc left) st = do st' ← sample_round call st; sample_rounds call left st'

  unfoldable pub bench_collect_write_samples : (ℕ → ℕ) → U Stats
  bench_collect_write_samples samples =
      sample_rounds (el0_write_ret answers bench_write_payload 1) bench_iterations
        (no_stats samples)

  unfoldable pub bench_collect_ipc_samples : (ℕ → ℕ) → (ℕ → ℕ) → U Stats
  bench_collect_ipc_samples samples reply_buf =
      sample_rounds (el0_ipc_call answers ep_bench bench_ipc_payload 1 reply_buf 1) bench_iterations
        (no_stats samples)

  -- `left` rounds of the loop of `bench_settle`.
  unfoldable pub settle_rounds : ℕ → U (Unit {0})
  settle_rounds zero = pure tt
  settle_rounds (suc left) = do el0_yield answers; settle_rounds left

  unfoldable pub bench_settle : U (Unit {0})
  bench_settle = settle_rounds 8

  unfoldable pub bench_report : Flavor → List ℕ → Stats → U (Unit {0})
  bench_report flavor test_name st =
      bench_emit_latency_result flavor answers test_name st.failures st.min_cycles
        (bench_median_u64 st.samples st.success_count) st.max_cycles st.total_cycles

  -- `bench_run_latency` up to its final loop of yields; the arrays come uninitialised.
  unfoldable pub bench_run_latency : Flavor → (ℕ → ℕ) → (ℕ → ℕ) → U (Unit {0})
  bench_run_latency flavor samples reply_buf = do
    cntfrq_hz ← el0_read_cntfrq answers
    bench_settle
    _ ← el0_write_ret answers bench_write_payload 1
    _ ← el0_ipc_call answers ep_bench bench_ipc_payload 1 reply_buf 1
    st ← bench_collect_write_samples samples
    bench_report flavor bench_test_sys_write st
    st' ← bench_collect_ipc_samples st.samples reply_buf
    bench_report flavor bench_test_ipc_roundtrip st'
    bench_emit_meta_end flavor answers bench_latency cntfrq_hz

  -- `bench_run_recovery` up to its final loop of yields.
  unfoldable pub bench_run_recovery : Flavor → U (Unit {0})
  bench_run_recovery flavor = do
    cntfrq_hz ← el0_read_cntfrq answers
    bench_settle
    start ← el0_read_cntvct answers
    retval ← el0_write_ret answers bench_write_payload 1
    (failures, cycles) ←
        (if retval == 1
          then (do end ← el0_read_cntvct answers; pure (0, elapsed_cycles start end))
          else pure (1, 0))
    bench_emit_recovery_result flavor answers failures cycles
    bench_emit_meta_end flavor answers bench_recovery cntfrq_hz
