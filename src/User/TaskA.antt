-- ===== src/User/TaskA.antt =====
-- kernel/el0/user_tasks.c: task A in each mode of the build. Behind a measurement it yields for ever; the
-- number of rounds says how long we look.
pub mod Silent
pub mod Reports
use d_rpi_proto_os.Base.{ℕ, zero, suc}
use d_rpi_proto_os.Config.{Flavor, BenchMode, bench_off, bench_latency, bench_recovery}
use d_rpi_proto_os.User.Calls.{Answers, U, pure, ◌>>=◌, ◌>>◌, el0_yield}
use d_rpi_proto_os.User.Collect.{bench_run_latency, bench_run_recovery}
use d_rpi_proto_os.User.Tasks.{task_a_entry}

module _ (answers : Answers) where
  -- The loop that a measurement ends in.
  unfoldable pub yields : ℕ → U (Unit {0})
  yields zero = pure tt
  yields (suc left) = do el0_yield answers; yields left

  -- The entry of task A by the mode; the arrays of the measurements come uninitialised.
  unfoldable pub task_a_program : BenchMode → Flavor → ℕ → (ℕ → ℕ) → (ℕ → ℕ) → U (Unit {0})
  task_a_program bench_off flavor rounds samples reply_buf = do
    _ ← task_a_entry answers rounds
    pure tt
  task_a_program bench_latency flavor rounds samples reply_buf = do
    bench_run_latency answers flavor samples reply_buf
    yields rounds
  task_a_program bench_recovery flavor rounds samples reply_buf = do
    bench_run_recovery answers flavor
    yields rounds
