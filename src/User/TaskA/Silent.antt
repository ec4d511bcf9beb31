-- ===== src/User/TaskA/Silent.antt =====
-- What the parts of the measurements between the lines of text ask the kernel to write.
use d_rpi_proto_os.Base.{
  ℕ, zero, suc, ◌≡◌, refl, ap, sym, ◌∙◌, inl, inr, List, [], ◌∷◌, ◌++◌, ◌==◌, Bool-cases,
}
use d_rpi_proto_os.User.Calls.{
  Answers, U, UserState, Request, ◌>>=◌, ask, asked_text, bytes_of, written, el0_yield, requested,
  read_cntvct,
}
use d_rpi_proto_os.User.Collect.{
  Stats, no_stats, sample_round, sample_rounds, settle_rounds, bench_settle,
  bench_collect_write_samples, bench_collect_ipc_samples,
}
use d_rpi_proto_os.Config.{bench_iterations}
use d_rpi_proto_os.User.TaskA.{yields}
use d_rpi_proto_os.User.Written.{Emits, nothing-Emits}
use mathlib.Core.List.{append-nil, append_assoc}
use mathlib.Core.Path.{subst}

-- The second state has this text more than the first.
pub record Adds (s s' : UserState) (out : List ℕ) : Type 0 where
  pub more : written s'.requests ≡ written s.requests ++ out

infixr 4 ◌▸◌
pub ◌▸◌ : {s s' s'' : UserState} {a b : List ℕ} → Adds s s' a → Adds s' s'' b → Adds s s'' (a ++ b)
◌▸◌ {s} {s'} {s''} {a} {b} first next = record {
  more = next.more ∙ ap (λ t. t ++ b) first.more ∙ append_assoc (written s.requests) a b;
}

pub run-Adds :
    {A : Type 0} {m : U A} {out : List ℕ} → Emits m out → (s : UserState) → Adds s (m s).1 out
run-Adds e s = record { more = e.text s }

adding :
    {A : Type 0} {m : U A} {out : List ℕ} → ((s : UserState) → Adds s (m s).1 out) → Emits m out
adding more = record { text = λ s. (more s).more }

-- A number of copies of a text.
unfoldable pub copies : ℕ → List ℕ → List ℕ
copies zero out = []
copies (suc n) out = out ++ copies n out

copies-empty : (n : ℕ) → copies n [] ≡ []
unfolding copies
copies-empty zero = refl
copies-empty (suc n) = copies-empty n

module _ (answers : Answers) where
  pub ask-Adds : (r : Request) (s : UserState) → Adds s (ask answers r s).1 (asked_text r)
  unfolding written
  ask-Adds r s = record { more = refl }

  yield-Emits : Emits (el0_yield answers) []
  unfolding asked_text
  yield-Emits = adding (ask-Adds _)

  yielding : (m : U (Unit {0})) → Emits m [] → Emits (el0_yield answers >>= λ _. m) []
  yielding m silent = adding (λ s. run-Adds yield-Emits s ▸ run-Adds silent _)

  settle_rounds-Emits : (n : ℕ) → Emits (settle_rounds answers n) []
  unfolding settle_rounds
  settle_rounds-Emits zero = nothing-Emits
  settle_rounds-Emits (suc n) = yielding (settle_rounds answers n) (settle_rounds-Emits n)

  pub bench_settle-Emits : Emits (bench_settle answers) []
  unfolding bench_settle
  bench_settle-Emits = settle_rounds-Emits 8

  pub yields-Emits : (n : ℕ) → Emits (yields answers n) []
  unfolding yields
  yields-Emits zero = nothing-Emits
  yields-Emits (suc n) = yielding (yields answers n) (yields-Emits n)

  module _ (call : U ℕ) (out : List ℕ) (e : Emits call out) where
    sample_round-Emits : (st : Stats) → Emits (sample_round answers call st) out
    unfolding sample_round asked_text
    sample_round-Emits st = adding (λ s.
        let asked = call (requested read_cntvct s) in
        let before : Adds s asked.1 out = ask-Adds read_cntvct s ▸ run-Adds e _ in
        elim (Bool-cases (asked.0 == 1)) [
          | inl h ↦ rw h (
              subst (Adds s (requested read_cntvct asked.1)) (append-nil out)
                (before ▸ ask-Adds read_cntvct asked.1))
          | inr h ↦ rw h before
        ])

    sample_rounds-Emits :
        (left : ℕ) (st : Stats) → Emits (sample_rounds answers call left st) (copies left out)
    unfolding sample_rounds copies
    sample_rounds-Emits zero st = record { text = λ s. sym (append-nil (written s.requests)) }
    sample_rounds-Emits (suc left) st =
        adding (λ s. run-Adds (sample_round-Emits st) s ▸ run-Adds (sample_rounds-Emits left _) _)

  pub bench_collect_write_samples-Emits :
      (samples : ℕ → ℕ)
      → Emits (bench_collect_write_samples answers samples) (copies bench_iterations (0 ∷ []))
  unfolding bench_collect_write_samples asked_text bytes_of
  bench_collect_write_samples-Emits samples =
      sample_rounds-Emits _ (0 ∷ []) (adding (ask-Adds _)) bench_iterations (no_stats samples)

  pub bench_collect_ipc_samples-Emits :
      (samples reply_buf : ℕ → ℕ) → Emits (bench_collect_ipc_samples answers samples reply_buf) []
  unfolding bench_collect_ipc_samples asked_text
  bench_collect_ipc_samples-Emits samples reply_buf =
      subst (Emits (bench_collect_ipc_samples answers samples reply_buf))
        (copies-empty bench_iterations)
        (sample_rounds-Emits _ [] (adding (ask-Adds _)) bench_iterations (no_stats samples))
