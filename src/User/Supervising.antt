-- ===== src/User/Supervising.antt =====
-- Task C: what the supervisor asks of the kernel, and the echo of the latency mode, as automata on
-- their requests.
use d_rpi_proto_os.Base.{
  ℕ, zero, suc, ◌+◌, ◌≡◌, ◌≢◌, refl, sym, inl, inr, Bool-cases, eq_of_==, List, [], ◌∷◌, ◌==◌,
  arith,
}
use d_rpi_proto_os.Config.{
  BenchMode, bench_off, bench_latency, bench_recovery, ep_bench, ipc_msg_size, minus_one,
  thread_slot_task_b,
}
use d_rpi_proto_os.State.Effect.{codes}
use d_rpi_proto_os.User.Calls.{Answers, UserState, Request, svc, word, buffer}
use d_rpi_proto_os.User.Emit.{char_at}
use mathlib.Core.Path.{subst}
use d_rpi_proto_os.User.Server.{write_request, fresh_state}
use d_rpi_proto_os.User.Tasks.{
  echo_round, echo_rounds, report_restart, supervisor_round, supervisor_rounds, task_c_entry,
}

abbrev pub wait_request : Request
wait_request = svc 7 (word 0 ∷ word 0 ∷ [])

abbrev pub restart_request : ℕ → Request
restart_request slot = svc 8 (word slot ∷ word 0 ∷ [])

abbrev pub bench_recv_request : (ℕ → ℕ) → Request
bench_recv_request buf = svc 5 (word ep_bench ∷ buffer buf ∷ word ipc_msg_size ∷ [])

abbrev pub bench_reply_request : (ℕ → ℕ) → ℕ → Request
bench_reply_request buf len = svc 6 (word ep_bench ∷ buffer buf ∷ word len ∷ [])

-- Behind a restart that succeeded: the report of the mode without measurements.
abbrev pub reported : BenchMode → List Request → List Request
reported bench_off rs = write_request (char_at (codes "[sup] restarted uart\n")) 21 ∷ rs
reported _ rs = rs

-- The supervisor's service. Every round waits for a death; if the kernel tells that of task B, and only
-- then, a restart of task B follows at once, and a report directly behind a restart that succeeded.
pub data Supervising (answers : Answers) (mode : BenchMode) : ℕ → List Request → Type 0 where
  begun : mode ≢ bench_off → Supervising answers mode 0 []
  announced :
      mode ≡ bench_off
      → Supervising answers mode 0 (write_request (char_at (codes "[sup] ready\n")) 12 ∷ [])
  ignores :
      {n : ℕ} {rs : List Request}
      → Supervising answers mode n rs
      → (answers (wait_request ∷ rs)).x0 ≢ thread_slot_task_b
      → Supervising answers mode (suc n) (wait_request ∷ rs)
  fails :
      {n : ℕ} {rs : List Request}
      → Supervising answers mode n rs
      → (answers (wait_request ∷ rs)).x0 ≡ thread_slot_task_b
      → (answers (restart_request thread_slot_task_b ∷ wait_request ∷ rs)).x0 ≢ 0
      → Supervising answers mode (suc n) (restart_request thread_slot_task_b ∷ wait_request ∷ rs)
  restarts :
      {n : ℕ} {rs : List Request}
      → Supervising answers mode n rs
      → (answers (wait_request ∷ rs)).x0 ≡ thread_slot_task_b
      → (answers (restart_request thread_slot_task_b ∷ wait_request ∷ rs)).x0 ≡ 0
      → Supervising answers mode
          (suc n)
          (reported mode (restart_request thread_slot_task_b ∷ wait_request ∷ rs))

-- The service of the latency mode. Every round receives, and sends a message back as it came.
pub data Echoing (answers : Answers) : ℕ → List Request → Type 0 where
  quiet : Echoing answers 0 []
  hears_nothing :
      {n : ℕ} {rs : List Request} (buf : ℕ → ℕ)
      → Echoing answers n rs
      → (answers (bench_recv_request buf ∷ rs)).x0 ≡ minus_one
      → Echoing answers (suc n) (bench_recv_request buf ∷ rs)
  echoes :
      {n : ℕ} {rs : List Request} (buf : ℕ → ℕ)
      → Echoing answers n rs
      → (answers (bench_recv_request buf ∷ rs)).x0 ≢ minus_one
      → Echoing answers (suc n) (
          bench_reply_request
            (answers (bench_recv_request buf ∷ rs)).filled
            (answers (bench_recv_request buf ∷ rs)).x0
          ∷ bench_recv_request buf
          ∷ rs)

module _ (answers : Answers) where
  report_restart-reported :
      (mode : BenchMode) (s : UserState)
      → (report_restart answers mode s).1.requests ≡ reported mode s.requests
  unfolding report_restart
  report_restart-reported bench_off s = refl
  report_restart-reported bench_latency s = refl
  report_restart-reported bench_recovery s = refl

  supervisor_round-Supervising :
      (mode : BenchMode) (n : ℕ) (s : UserState)
      → Supervising answers mode n s.requests
      → Supervising answers mode (suc n) (supervisor_round answers mode s).1.requests
  unfolding supervisor_round
  supervisor_round-Supervising mode n s sv =
      let slot = (answers (wait_request ∷ s.requests)).x0 in
      let asked = restart_request thread_slot_task_b ∷ wait_request ∷ s.requests in
      elim (Bool-cases (slot == thread_slot_task_b)) [
        | inl e ↦ rw e (
            let death = eq_of_== slot thread_slot_task_b e in
            elim (Bool-cases ((answers asked).x0 == 0)) [
              | inl ok ↦ rw ok (
                  subst (Supervising answers mode (suc n))
                    (sym (
                      report_restart-reported mode
                        (record { requests = asked; crashed_once = s.crashed_once })))
                    (restarts sv death (eq_of_== (answers asked).x0 0 ok)))
              | inr failed ↦ rw failed (fails sv death (ground arith))
            ])
        | inr e ↦ rw e (ignores sv (ground arith))
      ]

  supervisor_rounds-Supervising :
      (mode : BenchMode) (left n : ℕ) (s : UserState)
      → Supervising answers mode n s.requests
      → Supervising answers mode (n + left) (supervisor_rounds answers mode left s).1.requests
  unfolding supervisor_rounds
  supervisor_rounds-Supervising mode zero n s sv =
      subst (λ m. Supervising answers mode m s.requests) (omega arith) sv
  supervisor_rounds-Supervising mode (suc left) n s sv =
      subst
        (λ m. Supervising answers mode m (supervisor_rounds answers mode (suc left) s).1.requests)
        (omega arith)
        (supervisor_rounds-Supervising mode left (suc n) _
          (supervisor_round-Supervising mode n s sv))

  supervisor_loop-Supervising :
      (mode : BenchMode) (rounds : ℕ) (s : UserState)
      → Supervising answers mode 0 s.requests
      → Supervising answers mode rounds (supervisor_rounds answers mode rounds s).1.requests
  supervisor_loop-Supervising mode rounds s sv =
      subst (λ m. Supervising answers mode m (supervisor_rounds answers mode rounds s).1.requests)
        (omega arith) (supervisor_rounds-Supervising mode rounds 0 s sv)

  echo_round-Echoing :
      (buf : ℕ → ℕ) (n : ℕ) (s : UserState)
      → Echoing answers n s.requests
      → Echoing answers (suc n) (echo_round answers buf s).1.requests
  unfolding echo_round
  echo_round-Echoing buf n s ec =
      let got = answers (bench_recv_request buf ∷ s.requests) in
      elim (Bool-cases (got.x0 == minus_one)) [
        | inl e ↦ rw e (hears_nothing buf ec (eq_of_== got.x0 minus_one e))
        | inr e ↦ rw e (echoes buf ec (ground arith))
      ]

  echo_rounds-Echoing :
      (left n : ℕ) (buf : ℕ → ℕ) (s : UserState)
      → Echoing answers n s.requests
      → Echoing answers (n + left) (echo_rounds answers left buf s).1.requests
  unfolding echo_rounds
  echo_rounds-Echoing zero n buf s ec = subst (λ m. Echoing answers m s.requests) (omega arith) ec
  echo_rounds-Echoing (suc left) n buf s ec =
      subst (λ m. Echoing answers m (echo_rounds answers (suc left) buf s).1.requests) (omega arith)
        (echo_rounds-Echoing left (suc n) _ _ (echo_round-Echoing buf n s ec))

-- The service of task C in a mode, behind a number of rounds.
abbrev pub Service : BenchMode → Answers → ℕ → List Request → Type 0
Service bench_latency answers = Echoing answers
Service mode answers = Supervising answers mode

-- Whatever the kernel answers, after any number of rounds from the start the requests of task C are
-- those of that number of rounds of its mode's service. In the latency mode a round is a receive
-- that the kernel answers with -1, and nothing else, or a receive and a reply with the message as
-- it came. In the other modes a round is one wait, and a restart of task B directly behind it
-- exactly if the wait told the death of task B; the mode without measurements begins with an
-- announcement and adds a report exactly behind a restart that the kernel has answered with 0.
pub task_c_entry-Service :
    (answers : Answers) (mode : BenchMode) (rounds : ℕ) (buf : ℕ → ℕ)
    → Service mode answers rounds (task_c_entry answers mode rounds buf fresh_state).1.requests
unfolding task_c_entry
task_c_entry-Service answers bench_off rounds buf =
    supervisor_loop-Supervising answers bench_off rounds _ (announced refl)
task_c_entry-Service answers bench_latency rounds buf =
    subst (λ m. Echoing answers m (echo_rounds answers rounds buf fresh_state).1.requests)
      (omega arith) (echo_rounds-Echoing answers rounds 0 buf fresh_state quiet)
task_c_entry-Service answers bench_recovery rounds buf =
    supervisor_loop-Supervising answers bench_recovery rounds fresh_state
      (begun (λ e. ground (arith, e)))
