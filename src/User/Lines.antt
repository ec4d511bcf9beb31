-- ===== src/User/Lines.antt =====
-- The lines of the measurements as whole texts.
use d_rpi_proto_os.Base.{ℕ, ◌^◌, ◌<◌, refl, List, [], ◌∷◌, ◌++◌, arith}
use d_rpi_proto_os.Config.{
  Flavor, mono, micro, BenchMode, bench_off, bench_latency, bench_recovery, bench_iterations,
}
use d_rpi_proto_os.Printk.{decimal}
use d_rpi_proto_os.State.Effect.{codes}
use Prim.Native.String.{String}
use d_rpi_proto_os.User.Calls.{Answers, bytes_of}
use d_rpi_proto_os.User.Text.{flavor_str, mode_str}
use d_rpi_proto_os.User.Emit.{
  char_at, bench_cstr_len, bench_emit_str, bench_emit_meta_end, bench_emit_latency_result,
  bench_emit_recovery_result,
}
use d_rpi_proto_os.User.Written.{Emits, ◌⨾◌, Terminated, bench_emit_str-Emits, bench_emit_u64-Emits}

-- A number that a uint64_t holds.
abbrev Word : ℕ → Type 0
Word n = n < 2 ^ 64

-- Texts one behind the other.
abbrev row : List (List ℕ) → List ℕ
row [] = []
row (s ∷ rest) = s ++ row rest

-- The line of a test, of the end, and of the recovery.
abbrev pub latency_line : Flavor → List ℕ → ℕ → ℕ → ℕ → ℕ → ℕ → List ℕ
latency_line flavor test_name failures min_cycles median_cycles max_cycles total_cycles = row (
    codes "BENCH test="
    ∷ test_name
    ∷ codes " flavor="
    ∷ flavor_str flavor
    ∷ codes " iter="
    ∷ decimal bench_iterations
    ∷ codes " failures="
    ∷ decimal failures
    ∷ codes " min_cycles="
    ∷ decimal min_cycles
    ∷ codes " median_cycles="
    ∷ decimal median_cycles
    ∷ codes " max_cycles="
    ∷ decimal max_cycles
    ∷ codes " total_cycles="
    ∷ decimal total_cycles
    ∷ codes "\n"
    ∷ [])

abbrev pub meta_end_line : Flavor → BenchMode → ℕ → List ℕ
meta_end_line flavor mode cntfrq_hz = row (
    codes "BENCH_META schema=1 phase=end flavor="
    ∷ flavor_str flavor
    ∷ codes " mode="
    ∷ mode_str mode
    ∷ codes " cntfrq_hz="
    ∷ decimal cntfrq_hz
    ∷ codes " iterations="
    ∷ decimal bench_iterations
    ∷ codes "\n"
    ∷ [])

abbrev pub recovery_line : Flavor → ℕ → ℕ → List ℕ
recovery_line flavor failures cycles = row (
    codes "BENCH test=recovery_window flavor="
    ∷ flavor_str flavor
    ∷ codes " iter="
    ∷ decimal 1
    ∷ codes " failures="
    ∷ decimal failures
    ∷ codes " cycles="
    ∷ decimal cycles
    ∷ codes "\n"
    ∷ [])

flavor_str-Terminated : (flavor : Flavor) → Terminated (flavor_str flavor)
unfolding Terminated bytes_of bench_cstr_len char_at
flavor_str-Terminated mono = refl
flavor_str-Terminated micro = refl

mode_str-Terminated : (mode : BenchMode) → Terminated (mode_str mode)
unfolding Terminated bytes_of bench_cstr_len char_at
mode_str-Terminated bench_off = refl
mode_str-Terminated bench_latency = refl
mode_str-Terminated bench_recovery = refl

module _ (flavor : Flavor) (answers : Answers) where
  literal : (s : String) → Terminated (codes s) → Emits (bench_emit_str answers (codes s)) (codes s)
  literal s ends = bench_emit_str-Emits answers (codes s) ends

  flavor_name : Emits (bench_emit_str answers (flavor_str flavor)) (flavor_str flavor)
  flavor_name = bench_emit_str-Emits answers (flavor_str flavor) (flavor_str-Terminated flavor)

  -- If the test's name has no zero byte and the five numbers are below 2 ^ 64, then
  -- bench_emit_latency_result asks for the one line of the test: its name, the flavor, the number of
  -- rounds and the five numbers in decimal, each behind its key.
  pub bench_emit_latency_result-Emits :
      (test_name : List ℕ) (failures min_cycles median_cycles max_cycles total_cycles : ℕ)
      → Terminated test_name
      → Word failures
      → Word min_cycles
      → Word median_cycles
      → Word max_cycles
      → Word total_cycles
      → Emits
          (bench_emit_latency_result flavor answers test_name failures min_cycles median_cycles
            max_cycles total_cycles)
          (latency_line flavor test_name failures min_cycles median_cycles max_cycles total_cycles)
  unfolding bench_emit_latency_result Terminated bytes_of bench_cstr_len char_at
  bench_emit_latency_result-Emits test_name failures min_cycles median_cycles max_cycles
        total_cycles ends f mi me ma to =
      literal "BENCH test=" refl
      ⨾ bench_emit_str-Emits answers test_name ends
      ⨾ literal " flavor=" refl
      ⨾ flavor_name
      ⨾ literal " iter=" refl
      ⨾ bench_emit_u64-Emits answers bench_iterations (omega arith)
      ⨾ literal " failures=" refl
      ⨾ bench_emit_u64-Emits answers failures f
      ⨾ literal " min_cycles=" refl
      ⨾ bench_emit_u64-Emits answers min_cycles mi
      ⨾ literal " median_cycles=" refl
      ⨾ bench_emit_u64-Emits answers median_cycles me
      ⨾ literal " max_cycles=" refl
      ⨾ bench_emit_u64-Emits answers max_cycles ma
      ⨾ literal " total_cycles=" refl
      ⨾ bench_emit_u64-Emits answers total_cycles to
      ⨾ literal "\n" refl

  pub bench_emit_meta_end-Emits :
      (mode : BenchMode) (cntfrq_hz : ℕ)
      → Word cntfrq_hz
      → Emits
          (bench_emit_meta_end flavor answers mode cntfrq_hz)
          (meta_end_line flavor mode cntfrq_hz)
  unfolding bench_emit_meta_end Terminated bytes_of bench_cstr_len char_at
  bench_emit_meta_end-Emits mode cntfrq_hz lt =
      literal "BENCH_META schema=1 phase=end flavor=" refl
      ⨾ flavor_name
      ⨾ literal " mode=" refl
      ⨾ bench_emit_str-Emits answers (mode_str mode) (mode_str-Terminated mode)
      ⨾ literal " cntfrq_hz=" refl
      ⨾ bench_emit_u64-Emits answers cntfrq_hz lt
      ⨾ literal " iterations=" refl
      ⨾ bench_emit_u64-Emits answers bench_iterations (omega arith)
      ⨾ literal "\n" refl

  pub bench_emit_recovery_result-Emits :
      (failures cycles : ℕ)
      → Word failures
      → Word cycles
      → Emits
          (bench_emit_recovery_result flavor answers failures cycles)
          (recovery_line flavor failures cycles)
  unfolding bench_emit_recovery_result Terminated bytes_of bench_cstr_len char_at
  bench_emit_recovery_result-Emits failures cycles f c =
      literal "BENCH test=recovery_window flavor=" refl
      ⨾ flavor_name
      ⨾ literal " iter=" refl
      ⨾ bench_emit_u64-Emits answers 1 (omega arith)
      ⨾ literal " failures=" refl
      ⨾ bench_emit_u64-Emits answers failures f
      ⨾ literal " cycles=" refl
      ⨾ bench_emit_u64-Emits answers cycles c
      ⨾ literal "\n" refl
