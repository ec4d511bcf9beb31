-- ===== src/User/Server.antt =====
-- The UART server, task B: the service that it gives, as an automaton on its requests.
pub mod Serves
pub mod Lives
use d_rpi_proto_os.Base.{
  ℕ, zero, suc, ◌+◌, ◌⊎◌, eq_of_==, ◌≡◌, ◌≢◌, refl, ap, inl, inr, Bool, true, false, Bool-cases,
  List, [], ◌∷◌, ◌==◌, ◌||◌, if◌then◌else◌, arith,
}
use d_rpi_proto_os.Config.{
  BenchMode, bench_off, bench_latency, bench_recovery, ep_uart, ipc_msg_size, minus_one,
}
use d_rpi_proto_os.State.Effect.{codes}
use d_rpi_proto_os.User.Calls.{
  Answers, UserState, U, pure, Request, svc, brk, read_cntvct, read_cntfrq, word, buffer,
}
use d_rpi_proto_os.User.Emit.{char_at}
use mathlib.Core.Path.{subst}
use d_rpi_proto_os.User.Tasks.{
  Life, alive, dead, unless_dead, crash_once, task_b_round, task_b_rounds, task_b_entry,
}

abbrev pub recv_request : (ℕ → ℕ) → Request
recv_request buf = svc 5 (word ep_uart ∷ buffer buf ∷ word ipc_msg_size ∷ [])

abbrev pub write_request : (ℕ → ℕ) → ℕ → Request
write_request buf len = svc 2 (buffer buf ∷ word len ∷ [])

abbrev pub reply_request : (ℕ → ℕ) → Request
reply_request buf = svc 6 (word ep_uart ∷ buffer buf ∷ word 0 ∷ [])

-- A life of the server is about to begin, or has gone through a number of rounds.
pub data Phase : Type 0 where
  entry : Phase
  rounds_done : ℕ → Phase

-- The server goes on behind a reply: it has crashed before, or the mode has no crash.
abbrev pub StaysUp : BenchMode → Bool → Type 0
StaysUp mode crashed = (mode ≡ bench_latency) ⊎ (crashed ≡ true)

abbrev pub Message : Answers → List Request → (ℕ → ℕ) → Type 0
Message answers rs buf = (answers (recv_request buf ∷ rs)).x0 ≢ minus_one

-- A round with a message: it is received, written as it came, and answered with an empty reply.
abbrev pub round_trip : Answers → List Request → (ℕ → ℕ) → List Request
round_trip answers rs buf =
    let got = answers (recv_request buf ∷ rs) in
    reply_request got.filled ∷ write_request got.filled got.x0 ∷ recv_request buf ∷ rs

-- The service. A life begins with the announcement in the mode without measurements, and without one in
-- the others. Every round is one of three: no message comes; a message is served; or the first message
-- of all lives is served, and the server crashes behind the reply, unless the mode has no crash.
pub data Serving (answers : Answers) (mode : BenchMode) : Phase → List Request → Bool → Type 0 where
  begun : Serving answers mode entry [] false
  announces :
      {rs : List Request} {crashed : Bool}
      → mode ≡ bench_off
      → Serving answers mode entry rs crashed
      → Serving answers mode
          (rounds_done 0)
          (write_request (char_at (codes "[uart] ready\n")) 13 ∷ rs)
          crashed
  enters :
      {rs : List Request} {crashed : Bool}
      → mode ≢ bench_off
      → Serving answers mode entry rs crashed
      → Serving answers mode (rounds_done 0) rs crashed
  hears_nothing :
      {n : ℕ} {rs : List Request} {crashed : Bool} (buf : ℕ → ℕ)
      → Serving answers mode (rounds_done n) rs crashed
      → (answers (recv_request buf ∷ rs)).x0 ≡ minus_one
      → Serving answers mode (rounds_done (suc n)) (recv_request buf ∷ rs) crashed
  serves :
      {n : ℕ} {rs : List Request} {crashed : Bool} (buf : ℕ → ℕ)
      → Serving answers mode (rounds_done n) rs crashed
      → Message answers rs buf
      → StaysUp mode crashed
      → Serving answers mode (rounds_done (suc n)) (round_trip answers rs buf) crashed
  crashes :
      {n : ℕ} {rs : List Request} (buf : ℕ → ℕ)
      → Serving answers mode (rounds_done n) rs false
      → Message answers rs buf
      → mode ≢ bench_latency
      → Serving answers mode entry (brk ∷ round_trip answers rs buf) true

-- The number of crashes.
unfoldable pub crash_count : List Request → ℕ
crash_count [] = 0
crash_count (brk ∷ rs) = suc (crash_count rs)
crash_count (svc nr args ∷ rs) = crash_count rs
crash_count (read_cntvct ∷ rs) = crash_count rs
crash_count (read_cntfrq ∷ rs) = crash_count rs

-- Where a life of so many rounds has ended: it has gone through all of them, or the server is dead.
abbrev pub phase_of : ℕ → Life → Phase
phase_of n (alive buf) = rounds_done n
phase_of n dead = entry

abbrev pub Served : Answers → BenchMode → ℕ → Life × UserState → Type 0
Served answers mode n end =
    Serving answers mode (phase_of n end.0) end.1.requests end.1.crashed_once

-- The server's lives: each starts at the entry and goes through a number of rounds unless it crashes,
-- and a crash is followed by the next one, as long as there are restarts.
abbrev pub if_dead : U Life → Life → U Life
if_dead next (alive buf) s = (alive buf, s)
if_dead next dead s = next s

unfoldable pub lives : Answers → BenchMode → ℕ → ℕ → (ℕ → ℕ) → U Life
lives answers mode rounds zero buf s = task_b_entry answers mode rounds buf s
lives answers mode rounds (suc restarts) buf s =
    let first = task_b_entry answers mode rounds buf s in
    if_dead (lives answers mode rounds restarts buf) first.0 first.1

abbrev pub is_alive : Life → Bool
is_alive (alive buf) = true
is_alive dead = false

abbrev pub fresh_state : UserState
fresh_state = record { requests = []; crashed_once = false }
