-- ===== src/User/Report.antt =====
-- `bench_run_latency`: the line that a measurement is reported with.
use d_rpi_proto_os.Base.{ℕ, ◌^◌, ◌≤◌, ◌<◌, List, arith}
use d_rpi_proto_os.Config.{Flavor}
use d_rpi_proto_os.User.Calls.{Answers}
use d_rpi_proto_os.User.Collect.{Stats, bench_report}
use d_rpi_proto_os.User.Lines.{latency_line, bench_emit_latency_result-Emits}
use d_rpi_proto_os.User.Measured.{Collected, bench_median_u64-bounds}
use d_rpi_proto_os.User.Sort.{bench_median_u64}
use d_rpi_proto_os.User.Written.{Emits, Terminated}

-- If the variables are those behind fewer than 2 ^ 64 rounds and the test's name has no zero byte,
-- then the report asks for one line with the name, the flavor, the number of rounds, and in decimal
-- the failures, the minimum, the median, the maximum and the total; and the median lies between the
-- minimum and the maximum.
pub bench_report-Emits :
    (flavor : Flavor) (answers : Answers) (test_name : List ℕ) (rounds : ℕ) (st : Stats)
    → Terminated test_name
    → rounds < 2 ^ 64
    → Collected rounds st
    → (let median = bench_median_u64 st.samples st.success_count in
        Emits (bench_report answers flavor test_name st) (
          latency_line flavor test_name st.failures st.min_cycles median st.max_cycles
            st.total_cycles)
        × (st.min_cycles ≤ median)
        × (median ≤ st.max_cycles))
unfolding bench_report
bench_report-Emits flavor answers test_name rounds st ends lt c =
    let (low, high) = bench_median_u64-bounds rounds st c in
    (
      bench_emit_latency_result-Emits flavor answers test_name st.failures st.min_cycles _
          st.max_cycles st.total_cycles ends (omega (arith, c.counted)) (omega (arith, c.words.0))
          (omega (arith, high, c.words.1)) (omega (arith, c.words.1)) (omega (arith, c.summed)),
      low,
      high,
    )
