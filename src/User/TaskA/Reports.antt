-- ===== src/User/TaskA/Reports.antt =====
-- `bench_run_latency` and `bench_run_recovery` whole: the text that a run of the measurements writes.
use d_rpi_proto_os.Base.{
  ℕ, ◌^◌, ◌≤◌, ◌<◌, ◌≡◌, ◌⊎◌, refl, ◌∙◌, inl, inr, List, [], ◌∷◌, ◌++◌, ◌==◌, Bool-cases, arith,
}
use d_rpi_proto_os.Config.{Flavor, bench_iterations, ep_bench, bench_latency, bench_recovery}
use d_rpi_proto_os.User.Calls.{
  Answers, UserState, read_cntfrq, read_cntvct, asked_text, bytes_of, written, el0_write_ret,
  el0_ipc_call, requested,
}
use d_rpi_proto_os.User.Collect.{
  Stats, elapsed_cycles, bench_settle, bench_collect_write_samples, bench_collect_ipc_samples,
  bench_report, bench_run_latency, bench_run_recovery,
}
use d_rpi_proto_os.User.Emit.{char_at, bench_cstr_len}
use d_rpi_proto_os.User.Lines.{
  latency_line, meta_end_line, recovery_line, bench_emit_meta_end-Emits,
  bench_emit_recovery_result-Emits,
}
use d_rpi_proto_os.User.Measured.{Collected, bench_collect-Collected}
use d_rpi_proto_os.User.Report.{bench_report-Emits}
use d_rpi_proto_os.User.Sort.{bench_median_u64}
use d_rpi_proto_os.User.TaskA.{yields, task_a_program}
use d_rpi_proto_os.User.TaskA.Silent.{
  ◌▸◌, run-Adds, copies, ask-Adds, bench_settle-Emits, yields-Emits,
  bench_collect_write_samples-Emits, bench_collect_ipc_samples-Emits,
}
use d_rpi_proto_os.User.Text.{bench_test_sys_write, bench_test_ipc_roundtrip}
use d_rpi_proto_os.User.Written.{Emits, Terminated}
use mathlib.Core.List.{append-nil}

-- The line of a measurement of 1000 rounds.
pub record Reported (flavor : Flavor) (test_name text : List ℕ) : Type 0 where
  pub st : Stats
  pub collected : Collected bench_iterations st
  pub low : st.min_cycles ≤ bench_median_u64 st.samples st.success_count
  pub high : bench_median_u64 st.samples st.success_count ≤ st.max_cycles
  pub line :
      text
      ≡ latency_line flavor test_name st.failures st.min_cycles
          (bench_median_u64 st.samples st.success_count)
          st.max_cycles
          st.total_cycles

-- The text of a whole run in the latency mode, and in the recovery mode.
abbrev pub LatencyText : Flavor → ℕ → UserState → UserState → Type 0
LatencyText flavor cntfrq_hz s s' =
    (first : List ℕ) × (second : List ℕ) × Reported flavor bench_test_sys_write first
    × Reported flavor bench_test_ipc_roundtrip second
    × (written s'.requests
        ≡ written s.requests
          ++ 0
            ∷ (copies bench_iterations (0 ∷ [])
                ++ (first ++ (second ++ meta_end_line flavor bench_latency cntfrq_hz))))

abbrev pub RecoveryText : Flavor → ℕ → UserState → UserState → Type 0
RecoveryText flavor cntfrq_hz s s' =
    (failures : ℕ) × (cycles : ℕ) × ((failures ≡ 0) ⊎ ((failures ≡ 1) × (cycles ≡ 0)))
    × (cycles < 2 ^ 64)
    × (written s'.requests
        ≡ written s.requests
          ++ 0
            ∷ (recovery_line flavor failures cycles
                ++ meta_end_line flavor bench_recovery cntfrq_hz))

names-Terminated : Terminated bench_test_sys_write × Terminated bench_test_ipc_roundtrip
unfolding Terminated bytes_of bench_cstr_len char_at
names-Terminated = (refl, refl)

module _ (answers : Answers) (flavor : Flavor) where
  reported :
      (test_name : List ℕ) (st : Stats)
      → Terminated test_name
      → Collected bench_iterations st
      → (text : List ℕ) × Reported flavor test_name text
        × Emits (bench_report answers flavor test_name st) text
  reported test_name st ends c =
      let (emits, low, high) =
        bench_report-Emits flavor answers test_name bench_iterations st ends (omega arith) c in
      (_, record { st = st; collected = c; low = low; high = high; line = refl }, emits)

  write_one : (payload : ℕ → ℕ) → Emits (el0_write_ret answers payload 1) (payload 0 ∷ [])
  unfolding asked_text bytes_of
  write_one payload = record { text = λ s. (ask-Adds answers _ s).more }

  call_one :
      (ep_id len cap : ℕ) (payload reply_buf : ℕ → ℕ)
      → Emits (el0_ipc_call answers ep_id payload len reply_buf cap) []
  unfolding asked_text
  call_one ep_id len cap payload reply_buf = record { text = λ s. (ask-Adds answers _ s).more }

  bench_run_latency-Text :
      (samples reply_buf : ℕ → ℕ) (s : UserState)
      → let cntfrq_hz = (answers (read_cntfrq ∷ s.requests)).x0 in
        cntfrq_hz < 2 ^ 64
        → LatencyText flavor cntfrq_hz s (bench_run_latency answers flavor samples reply_buf s).1
  unfolding bench_run_latency asked_text
  bench_run_latency-Text samples reply_buf s lt =
      let s1 = requested read_cntfrq s in
      let s2 = (bench_settle answers s1).1 in
      let s3 = (el0_write_ret answers (λ _. 0) 1 s2).1 in
      let s4 = (el0_ipc_call answers ep_bench (λ _. 0x5A) 1 reply_buf 1 s3).1 in
      let write_run = bench_collect_write_samples answers samples s4 in
      let (first, of_write, says_first) =
        reported bench_test_sys_write write_run.0 names-Terminated.0
          ((bench_collect-Collected answers samples reply_buf s4).0) in
      let s6 = (bench_report answers flavor bench_test_sys_write write_run.0 write_run.1).1 in
      let ipc_run = bench_collect_ipc_samples answers (write_run.0).samples reply_buf s6 in
      let (second, of_ipc, says_second) =
        reported bench_test_ipc_roundtrip ipc_run.0 names-Terminated.1
          ((bench_collect-Collected answers (write_run.0).samples reply_buf s6).1) in
      (
        first,
        second,
        of_write,
        of_ipc,
        (ask-Adds answers read_cntfrq s
            ▸ run-Adds (bench_settle-Emits answers) s1
            ▸ run-Adds (write_one (λ _. 0)) s2
            ▸ run-Adds (call_one ep_bench 1 1 (λ _. 0x5A) reply_buf) s3
            ▸ run-Adds (bench_collect_write_samples-Emits answers samples) s4
            ▸ run-Adds says_first write_run.1
            ▸ run-Adds (bench_collect_ipc_samples-Emits answers (write_run.0).samples reply_buf) s6
            ▸ run-Adds says_second ipc_run.1
            ▸ run-Adds (bench_emit_meta_end-Emits flavor answers bench_latency _ lt) _).more,
      )

  bench_run_recovery-Text :
      (s : UserState)
      → let cntfrq_hz = (answers (read_cntfrq ∷ s.requests)).x0 in
        cntfrq_hz < 2 ^ 64 → RecoveryText flavor cntfrq_hz s (bench_run_recovery answers flavor s).1
  unfolding bench_run_recovery asked_text
  bench_run_recovery-Text s lt =
      let s1 = requested read_cntfrq s in
      let s2 = (bench_settle answers s1).1 in
      let s3 = requested read_cntvct s2 in
      let asked = el0_write_ret answers (λ _. 0) 1 s3 in
      let start = (answers s3.requests).x0 in
      let before =
        ask-Adds answers read_cntfrq s
        ▸ run-Adds (bench_settle-Emits answers) s1
        ▸ ask-Adds answers read_cntvct s2
        ▸ run-Adds (write_one (λ _. 0)) s3 in
      elim (Bool-cases (asked.0 == 1)) [
        | inl h ↦ rw h (
            let s5 = requested read_cntvct asked.1 in
            let cycles = elapsed_cycles start ((answers s5.requests).x0) in
            (
              0,
              cycles,
              inl refl,
              omega arith,
              (before
                  ▸ ask-Adds answers read_cntvct asked.1
                  ▸ run-Adds
                      (bench_emit_recovery_result-Emits flavor answers 0 cycles (omega arith)
                        (omega arith))
                      s5
                  ▸ run-Adds (bench_emit_meta_end-Emits flavor answers bench_recovery _ lt) _).more,
            ))
        | inr h ↦ rw h (
          1,
          0,
          inr (refl, refl),
          omega arith,
          (before
              ▸ run-Adds
                  (bench_emit_recovery_result-Emits flavor answers 1 0 (omega arith) (omega arith))
                  asked.1
              ▸ run-Adds (bench_emit_meta_end-Emits flavor answers bench_recovery _ lt) _).more,
        )
      ]

  quiet :
      (rounds : ℕ) (s : UserState)
      → written (yields answers rounds s).1.requests ≡ written s.requests
  quiet rounds s = (yields-Emits answers rounds).text s ∙ append-nil (written s.requests)

  -- Whatever the kernel answers, if the frequency it tells is below 2 ^ 64, then task A in the
  -- latency mode writes a zero byte, the 1000 zero bytes of the measured writes, a line for each of
  -- the two tests and the line of the end, and nothing else, however long it then yields; each of
  -- the two lines reports 1000 rounds, and its median lies between its minimum and its maximum. In
  -- the recovery mode it writes a zero byte, the line of the recovery, with no failure or with one
  -- failure and 0 cycles, and the line of the end.
  pub task_a_program-Text :
      (rounds : ℕ) (samples reply_buf : ℕ → ℕ) (s : UserState)
      → let cntfrq_hz = (answers (read_cntfrq ∷ s.requests)).x0 in
        cntfrq_hz < 2 ^ 64
        → LatencyText flavor cntfrq_hz s
            (task_a_program answers bench_latency flavor rounds samples reply_buf s).1
          × RecoveryText flavor cntfrq_hz s
              (task_a_program answers bench_recovery flavor rounds samples reply_buf s).1
  unfolding task_a_program
  task_a_program-Text rounds samples reply_buf s lt =
      let (first, second, a, b, latency) = bench_run_latency-Text samples reply_buf s lt in
      let (failures, cycles, c, d, recovery) = bench_run_recovery-Text s lt in
      (
        (first, second, a, b, quiet rounds _ ∙ latency),
        (failures, cycles, c, d, quiet rounds _ ∙ recovery),
      )
