-- ===== src/User/Server/Lives.antt =====
-- Task B's lives: the crash flag from life to life, and the service as a whole.
use d_rpi_proto_os.Base.{
  ℕ, zero, suc, ◌≡◌, refl, inl, inr, Bool, true, false, Bool-cases, List, ◌∷◌, ◌==◌, ◌||◌,
  if◌then◌else◌, arith,
}
use d_rpi_proto_os.Config.{BenchMode, bench_off, bench_latency, bench_recovery, minus_one}
use d_rpi_proto_os.User.Calls.{Answers, UserState, U, pure, Request}
use mathlib.Core.Path.{subst}
use d_rpi_proto_os.User.Tasks.{
  Life, alive, dead, unless_dead, crash_once, task_b_round, task_b_rounds, task_b_entry,
}
use d_rpi_proto_os.User.Server.{
  recv_request, round_trip, Serving, begun, crash_count, phase_of, if_dead, lives, is_alive,
  fresh_state,
}
use d_rpi_proto_os.User.Server.Serves.{Serving-crash_count, lives-Served}

-- What a part of a life leaves of the flag: only a death sets it, and only where it was not set.
abbrev Flagged : Bool → Life × UserState → Type 0
Flagged f (alive buf, s) = s.crashed_once ≡ f
Flagged f (dead, s) = (f ≡ false) × (s.crashed_once ≡ true)

crash_once-Flagged :
    (answers : Answers) (mode : BenchMode) (f : Bool) (buf : ℕ → ℕ) (rs : List Request)
    → Flagged f (crash_once answers mode buf (record { requests = rs; crashed_once = f }))
unfolding crash_once
crash_once-Flagged answers bench_latency f buf rs = refl
crash_once-Flagged answers bench_off true buf rs = refl
crash_once-Flagged answers bench_off false buf rs = (refl, refl)
crash_once-Flagged answers bench_recovery true buf rs = refl
crash_once-Flagged answers bench_recovery false buf rs = (refl, refl)

module _ (answers : Answers) (mode : BenchMode) (f : Bool) where
  task_b_round-Flagged :
      (buf : ℕ → ℕ) (s : UserState)
      → s.crashed_once ≡ f
      → Flagged f (task_b_round answers mode buf s)
  unfolding task_b_round
  task_b_round-Flagged buf s e =
      elim (Bool-cases ((answers (recv_request buf ∷ s.requests)).x0 == minus_one)) [
        | inl h ↦ rw h e
        | inr h ↦ rw h (
            let got = answers (recv_request buf ∷ s.requests) in
            subst
              (λ g. Flagged g (
                crash_once answers mode got.filled (record {
                  requests = round_trip answers s.requests buf;
                  crashed_once = s.crashed_once;
                })))
              e
              (crash_once-Flagged answers mode s.crashed_once got.filled
                (round_trip answers s.requests buf)))
      ]

  unless_dead-Flagged :
      (rest : (ℕ → ℕ) → U Life)
      → ((buf : ℕ → ℕ) (s : UserState) → s.crashed_once ≡ f → Flagged f (rest buf s))
      → (life : Life) (s : UserState) → Flagged f (life, s)
      → Flagged f (unless_dead rest life s)
  unless_dead-Flagged rest goes_on (alive buf) s e = goes_on buf s e
  unless_dead-Flagged rest goes_on dead s e = e

  task_b_rounds-Flagged :
      (left : ℕ) (buf : ℕ → ℕ) (s : UserState)
      → s.crashed_once ≡ f
      → Flagged f (task_b_rounds answers mode left buf s)
  unfolding task_b_rounds
  task_b_rounds-Flagged zero buf s e = e
  task_b_rounds-Flagged (suc left) buf s e =
      unless_dead-Flagged (task_b_rounds answers mode left) (task_b_rounds-Flagged left) _ _
        (task_b_round-Flagged buf s e)

task_b_entry-Flagged :
    (answers : Answers) (mode : BenchMode) (rounds : ℕ) (buf : ℕ → ℕ) (s : UserState)
    → Flagged s.crashed_once (task_b_entry answers mode rounds buf s)
unfolding task_b_entry
task_b_entry-Flagged answers bench_off rounds buf s =
    task_b_rounds-Flagged answers bench_off s.crashed_once rounds buf _ refl
task_b_entry-Flagged answers bench_latency rounds buf s =
    task_b_rounds-Flagged answers bench_latency s.crashed_once rounds buf s refl
task_b_entry-Flagged answers bench_recovery rounds buf s =
    task_b_rounds-Flagged answers bench_recovery s.crashed_once rounds buf s refl

-- The flag keeps a server alive.
flag-alive :
    (next : U Life) (life : Life) (s : UserState)
    → Flagged true (life, s)
    → (is_alive life ≡ true) × (is_alive (if_dead next life s).0 ≡ true)
flag-alive next (alive buf) s e = (refl, refl)
flag-alive next dead s (e, set) = absurd (ground (arith, e))

Flagged-start :
    (answers : Answers) (mode : BenchMode) (rounds : ℕ) (buf : ℕ → ℕ) (s : UserState) (f : Bool)
    → s.crashed_once ≡ f
    → Flagged f (task_b_entry answers mode rounds buf s)
Flagged-start answers mode rounds buf s f set =
    subst (λ f. Flagged f (task_b_entry answers mode rounds buf s)) set
      (task_b_entry-Flagged answers mode rounds buf s)

lives-alive :
    (answers : Answers) (mode : BenchMode) (rounds restarts : ℕ) (buf : ℕ → ℕ) (s : UserState)
    → s.crashed_once ≡ true
    → is_alive (lives answers mode rounds restarts buf s).0 ≡ true
unfolding lives
lives-alive answers mode rounds zero buf s set =
    (flag-alive (pure dead) _ _ (Flagged-start answers mode rounds buf s true set)).0
lives-alive answers mode rounds (suc restarts) buf s set =
    (flag-alive (lives answers mode rounds restarts buf) _ _
      (Flagged-start answers mode rounds buf s true set)).1

-- A first crash sets the flag.
second_life-alive :
    (next : U Life)
    → ((s : UserState) → s.crashed_once ≡ true → is_alive (next s).0 ≡ true)
    → (life : Life) (s : UserState) → Flagged false (life, s)
    → is_alive (if_dead next life s).0 ≡ true
second_life-alive next goes_on (alive buf) s e = refl
second_life-alive next goes_on dead s (e, set) = goes_on s set

restarted-alive :
    (answers : Answers) (mode : BenchMode) (rounds restarts : ℕ) (buf : ℕ → ℕ)
    → (is_alive (lives answers mode rounds restarts buf fresh_state).0 || (restarts == 0)) ≡ true
unfolding lives
restarted-alive answers mode rounds zero buf = ground arith
restarted-alive answers mode rounds (suc restarts) buf =
    let lives_on =
      second_life-alive (lives answers mode rounds restarts buf)
        (lives-alive answers mode rounds restarts buf) _ _
        (Flagged-start answers mode rounds buf fresh_state false refl) in
    rw lives_on refl

-- Whatever the kernel answers, in every mode, from the first start on and through any number of
-- restarts, with any number of rounds in each life, the requests of task B are those of the service
-- that Serving describes, and a last life that has not crashed has gone through all its rounds.
-- Behind the announcement of a life, which the mode without measurements has and the others have
-- not, a round is a receive that the kernel answers with -1, and nothing else; or a receive, a
-- write of the message as it came, and an empty reply. Only a round with a message may end in a
-- crash, behind its reply; it does exactly if the server has not crashed before and the mode is not
-- that of the latency. There is one crash if the flag is set and none otherwise, and with one
-- restart or more the last life is alive.
pub lives-Serving :
    (answers : Answers) (mode : BenchMode) (rounds restarts : ℕ) (buf : ℕ → ℕ)
    → (let (life, s) = lives answers mode rounds restarts buf fresh_state in
        Serving answers mode (phase_of rounds life) s.requests s.crashed_once
        × (crash_count s.requests ≡ (if s.crashed_once then 1 else 0))
        × ((is_alive life || (restarts == 0)) ≡ true))
lives-Serving answers mode rounds restarts buf =
    let sv = lives-Served answers mode rounds restarts buf fresh_state begun in
    (
      sv,
      Serving-crash_count answers mode _ _ _ sv,
      restarted-alive answers mode rounds restarts buf,
    )
