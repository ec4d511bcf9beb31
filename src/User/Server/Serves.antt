-- ===== src/User/Server/Serves.antt =====
-- Task B's rounds and lives, step by step of the service.
use d_rpi_proto_os.Base.{
  ℕ, zero, suc, ◌+◌, eq_of_==, ◌≡◌, refl, ap, inl, inr, Bool, true, false, Bool-cases, List, ◌∷◌,
  ◌==◌, if◌then◌else◌, arith,
}
use d_rpi_proto_os.Config.{BenchMode, bench_off, bench_latency, bench_recovery, minus_one}
use d_rpi_proto_os.User.Calls.{Answers, UserState, U, Request}
use mathlib.Core.Path.{subst}
use d_rpi_proto_os.User.Tasks.{
  Life, alive, dead, unless_dead, crash_once, task_b_round, task_b_rounds, task_b_entry,
}
use d_rpi_proto_os.User.Server.{
  recv_request, Phase, entry, rounds_done, Message, round_trip, Serving, begun, announces, enters,
  hears_nothing, serves, crashes, crash_count, Served, if_dead, lives,
}

pub Serving-crash_count :
    (answers : Answers) (mode : BenchMode) (p : Phase) (rs : List Request) (crashed : Bool)
    → Serving answers mode p rs crashed
    → crash_count rs ≡ (if crashed then 1 else 0)
unfolding crash_count
Serving-crash_count answers mode _ _ _ begun = refl
Serving-crash_count answers mode _ _ _ (announces off sv) =
    Serving-crash_count answers mode _ _ _ sv
Serving-crash_count answers mode _ _ _ (enters other sv) = Serving-crash_count answers mode _ _ _ sv
Serving-crash_count answers mode _ _ _ (hears_nothing buf sv h) =
    Serving-crash_count answers mode _ _ _ sv
Serving-crash_count answers mode _ _ _ (serves buf sv h up) =
    Serving-crash_count answers mode _ _ _ sv
Serving-crash_count answers mode _ _ _ (crashes buf sv h other) =
    ap suc (Serving-crash_count answers mode _ _ _ sv)

abbrev Ready : Answers → BenchMode → ℕ → UserState → Type 0
Ready answers mode n s = Serving answers mode (rounds_done n) s.requests s.crashed_once

module _ (answers : Answers) where
  crash_once-Served :
      (mode : BenchMode) (n : ℕ) (buf keep : ℕ → ℕ) (rs : List Request) (crashed : Bool)
      → Serving answers mode (rounds_done n) rs crashed
      → Message answers rs buf
      → Served answers mode (suc n) (
          crash_once answers mode keep
            (record { requests = round_trip answers rs buf; crashed_once = crashed }))
  unfolding crash_once
  crash_once-Served bench_latency n buf keep rs crashed sv h = serves buf sv h (inl refl)
  crash_once-Served bench_off n buf keep rs true sv h = serves buf sv h (inr refl)
  crash_once-Served bench_off n buf keep rs false sv h = crashes buf sv h (λ e. ground (arith, e))
  crash_once-Served bench_recovery n buf keep rs true sv h = serves buf sv h (inr refl)
  crash_once-Served bench_recovery n buf keep rs false sv h =
      crashes buf sv h (λ e. ground (arith, e))

  task_b_round-Served :
      (mode : BenchMode) (n : ℕ) (buf : ℕ → ℕ) (s : UserState)
      → Ready answers mode n s
      → Served answers mode (suc n) (task_b_round answers mode buf s)
  unfolding task_b_round
  task_b_round-Served mode n buf s sv =
      let got = answers (recv_request buf ∷ s.requests) in
      elim (Bool-cases (got.x0 == minus_one)) [
        | inl e ↦ rw e (hears_nothing buf sv (eq_of_== got.x0 minus_one e))
        | inr e ↦
            rw e
              (crash_once-Served mode n buf got.filled s.requests s.crashed_once sv (ground arith))
      ]

  unless_dead-Served :
      (mode : BenchMode) (n left : ℕ) (rest : (ℕ → ℕ) → U Life)
      → ((buf : ℕ → ℕ) (s : UserState)
          → Ready answers mode n s
          → Served answers mode (n + left) (rest buf s))
      → (life : Life) (s : UserState) → Served answers mode n (life, s)
      → Served answers mode (n + left) (unless_dead rest life s)
  unless_dead-Served mode n left rest goes_on (alive buf) s sv = goes_on buf s sv
  unless_dead-Served mode n left rest goes_on dead s sv = sv

  task_b_rounds-Served :
      (mode : BenchMode) (n left : ℕ) (buf : ℕ → ℕ) (s : UserState)
      → Ready answers mode n s
      → Served answers mode (n + left) (task_b_rounds answers mode left buf s)
  unfolding task_b_rounds
  task_b_rounds-Served mode n zero buf s sv = subst (λ m. Ready answers mode m s) (omega arith) sv
  task_b_rounds-Served mode n (suc left) buf s sv =
      let first = task_b_round answers mode buf s in
      subst
        (λ m. Served answers mode m (unless_dead (task_b_rounds answers mode left) first.0 first.1))
        (omega arith)
        (unless_dead-Served mode (suc n) left (task_b_rounds answers mode left)
          (task_b_rounds-Served mode (suc n) left) first.0 first.1
          (task_b_round-Served mode n buf s sv))

  task_b_loop-Served :
      (mode : BenchMode) (rounds : ℕ) (buf : ℕ → ℕ) (s : UserState)
      → Ready answers mode 0 s
      → Served answers mode rounds (task_b_rounds answers mode rounds buf s)
  task_b_loop-Served mode rounds buf s sv =
      subst (λ m. Served answers mode m (task_b_rounds answers mode rounds buf s)) (omega arith)
        (task_b_rounds-Served mode 0 rounds buf s sv)

  task_b_entry-Served :
      (mode : BenchMode) (rounds : ℕ) (buf : ℕ → ℕ) (s : UserState)
      → Serving answers mode entry s.requests s.crashed_once
      → Served answers mode rounds (task_b_entry answers mode rounds buf s)
  unfolding task_b_entry
  task_b_entry-Served bench_off rounds buf s sv =
      task_b_loop-Served bench_off rounds buf _ (announces refl sv)
  task_b_entry-Served bench_latency rounds buf s sv =
      task_b_loop-Served bench_latency rounds buf s (enters (λ e. ground (arith, e)) sv)
  task_b_entry-Served bench_recovery rounds buf s sv =
      task_b_loop-Served bench_recovery rounds buf s (enters (λ e. ground (arith, e)) sv)

if_dead-Served :
    (answers : Answers) (mode : BenchMode) (rounds : ℕ) (next : U Life)
    → ((s : UserState)
        → Serving answers mode entry s.requests s.crashed_once
        → Served answers mode rounds (next s))
    → (life : Life) (s : UserState) → Served answers mode rounds (life, s)
    → Served answers mode rounds (if_dead next life s)
if_dead-Served answers mode rounds next goes_on (alive buf) s sv = sv
if_dead-Served answers mode rounds next goes_on dead s sv = goes_on s sv

pub lives-Served :
    (answers : Answers) (mode : BenchMode) (rounds restarts : ℕ) (buf : ℕ → ℕ) (s : UserState)
    → Serving answers mode entry s.requests s.crashed_once
    → Served answers mode rounds (lives answers mode rounds restarts buf s)
unfolding lives
lives-Served answers mode rounds zero buf s sv = task_b_entry-Served answers mode rounds buf s sv
lives-Served answers mode rounds (suc restarts) buf s sv =
    if_dead-Served answers mode rounds (lives answers mode rounds restarts buf)
      (lives-Served answers mode rounds restarts buf) _ _
      (task_b_entry-Served answers mode rounds buf s sv)
