-- ===== src/User/Measured.antt =====
-- The loops of the measurements: what their variables hold behind them.
use d_rpi_proto_os.Base.{
  ℕ, zero, suc, ◌+◌, ◌%◌, ◌^◌, ◌≤◌, ◌<◌, ◌≡◌, refl, ap, ◌∙◌, inl, inr, ◌||◌, ltb, leb, ◌==◌, Bool,
  true, Bool-cases, update, update_self, eq_of_==, arith,
}
use d_rpi_proto_os.Config.{bench_iterations}
use d_rpi_proto_os.User.Calls.{Answers, U, UserState, requested, read_cntvct}
use d_rpi_proto_os.User.Collect.{
  Stats, take_sample, fail_sample, no_stats, sample_round, sample_rounds,
  bench_collect_write_samples, bench_collect_ipc_samples,
}
use d_rpi_proto_os.User.Sort.{bench_median_u64}
use d_rpi_proto_os.User.Sorted.{tally, tally_step}
use d_rpi_proto_os.User.Median.{bench_median_u64-sides}
use mathlib.Core.Path.{subst}

unfoldable pub sum_of : (ℕ → ℕ) → ℕ → ℕ
sum_of f zero = 0
sum_of f (suc n) = sum_of f n + f n

sum_of_step : (f : ℕ → ℕ) (n : ℕ) → sum_of f (suc n) ≡ sum_of f n + f n
unfolding sum_of
sum_of_step f n = refl

sum_of_same : (f g : ℕ → ℕ) (n : ℕ) → ((x : ℕ) → x < n → f x ≡ g x) → sum_of f n ≡ sum_of g n
unfolding sum_of
sum_of_same f g zero same = refl
sum_of_same f g (suc n) same =
    rw (same n (omega arith), sum_of_same f g n (λ x lt. same x (omega arith))) refl

-- A sample among the first n has this value.
abbrev pub Attained : (ℕ → ℕ) → ℕ → ℕ → Type 0
Attained f n v = (x : ℕ) × (x < n) × (f x ≡ v)

-- The variables behind a number of rounds.
pub record Collected (rounds : ℕ) (st : Stats) : Type 0 where
  pub counted : st.success_count + st.failures ≡ rounds
  pub bounded :
      (x : ℕ)
      → x < st.success_count
      → (st.min_cycles ≤ st.samples x) × (st.samples x ≤ st.max_cycles)
  pub least : 0 < st.success_count → Attained st.samples st.success_count st.min_cycles
  pub most : 0 < st.success_count → Attained st.samples st.success_count st.max_cycles
  pub empty : st.success_count ≡ 0 → (st.min_cycles ≡ 0) × (st.max_cycles ≡ 0)
  pub summed : st.total_cycles ≡ sum_of st.samples st.success_count % 2 ^ 64
  pub words : (st.min_cycles < 2 ^ 64) × (st.max_cycles < 2 ^ 64)

fail_sample-Collected : (n : ℕ) (st : Stats) → Collected n st → Collected (suc n) (fail_sample st)
unfolding fail_sample
fail_sample-Collected n st c = record {
  counted = omega (arith, c.counted);
  bounded = c.bounded;
  least = c.least;
  most = c.most;
  empty = c.empty;
  summed = c.summed;
  words = c.words;
}

new_sample : (f : ℕ → ℕ) (n a v : ℕ) → a ≡ v → Attained (update f n a) (suc n) v
new_sample f n a v e = (n, omega arith, update_self f n a ∙ e)

old_sample : (f : ℕ → ℕ) (n a v : ℕ) → Attained f n v → Attained (update f n a) (suc n) v
old_sample f n a v (x, lt, e) = (x, omega arith, ground (arith, e))

take_sample-Collected :
    (n : ℕ) (st : Stats) (elapsed : ℕ)
    → elapsed < 2 ^ 64
    → Collected n st
    → Collected (suc n) (take_sample elapsed st)
unfolding take_sample
take_sample-Collected n st elapsed lt c =
    let k = st.success_count in
    let samples = update st.samples k elapsed in
    record {
      counted = omega (arith, c.counted);
      bounded = λ x below. ground (arith, c.bounded x, c.empty);
      least = λ some. elim (Bool-cases (suc k == 1 || ltb elapsed st.min_cycles)) [
        | inl e ↦ rw e (new_sample st.samples k elapsed elapsed refl)
        | inr e ↦ rw e (old_sample st.samples k elapsed st.min_cycles (c.least (ground arith)))
      ];
      most = λ some. elim (Bool-cases (ltb st.max_cycles elapsed)) [
        | inl e ↦ rw e (new_sample st.samples k elapsed elapsed refl)
        | inr e ↦ rw e (elim (Bool-cases (k == 0)) [
          | inl first ↦
              new_sample st.samples k elapsed st.max_cycles
                (ground (arith, (c.empty (eq_of_== k 0 first)).1))
          | inr more ↦ old_sample st.samples k elapsed st.max_cycles (c.most (ground arith))
        ])
      ];
      empty = λ e. absurd (omega arith);
      summed = omega (
        arith,
        c.summed,
        sum_of_step samples k,
        update_self st.samples k elapsed,
        sum_of_same samples st.samples k (λ x lt'. ground arith),
      );
      words = ground (arith, c.words);
    }

sample_round-Collected :
    (answers : Answers) (call : U ℕ) (n : ℕ) (st : Stats) (s : UserState)
    → Collected n st
    → Collected (suc n) (sample_round answers call st s).0
unfolding sample_round
sample_round-Collected answers call n st s c =
    let asked = call (requested read_cntvct s) in
    elim (Bool-cases (asked.0 == 1)) [
      | inl e ↦ rw e (take_sample-Collected n st _ (omega arith) c)
      | inr e ↦ rw e (fail_sample-Collected n st c)
    ]

sample_rounds-Collected :
    (answers : Answers) (call : U ℕ) (left n : ℕ) (st : Stats) (s : UserState)
    → Collected n st
    → Collected (n + left) (sample_rounds answers call left st s).0
unfolding sample_rounds
sample_rounds-Collected answers call zero n st s c = subst (λ m. Collected m st) (omega arith) c
sample_rounds-Collected answers call (suc left) n st s c =
    let first = sample_round answers call st s in
    subst (λ m. Collected m (sample_rounds answers call left first.0 first.1).0) (omega arith)
      (sample_rounds-Collected answers call left (suc n) first.0 first.1
        (sample_round-Collected answers call n st s c))

none-Collected : (samples : ℕ → ℕ) → Collected 0 (no_stats samples)
unfolding sum_of
none-Collected samples = record {
  counted = refl;
  bounded = λ x lt. absurd (omega arith);
  least = λ some. absurd (omega arith);
  most = λ some. absurd (omega arith);
  empty = λ e. (refl, refl);
  summed = refl;
  words = (omega arith, omega arith);
}

-- Whatever the kernel answers, both collecting functions make 1000 rounds, each of which is a
-- success or a failure; the minimum and the maximum bound the samples of the successes and are
-- among them, they are 0 if there is none, and the total is the samples' sum modulo 2 ^ 64.
pub bench_collect-Collected :
    (answers : Answers) (samples reply_buf : ℕ → ℕ) (s : UserState)
    → Collected bench_iterations (bench_collect_write_samples answers samples s).0
      × Collected bench_iterations (bench_collect_ipc_samples answers samples reply_buf s).0
unfolding bench_collect_write_samples bench_collect_ipc_samples
bench_collect-Collected answers samples reply_buf s = (
  sample_rounds-Collected answers _ bench_iterations 0 (no_stats samples) s
      (none-Collected samples),
  sample_rounds-Collected answers _ bench_iterations 0 (no_stats samples) s
      (none-Collected samples),
)

tally_none : (p : ℕ → Bool) (f : ℕ → ℕ) → tally p f 0 ≡ 0
unfolding tally
tally_none p f = refl

-- A test that some sample passes.
tally-Attained :
    (p : ℕ → Bool) (f : ℕ → ℕ) (n : ℕ) → 0 < tally p f n → (x : ℕ) × (x < n) × (p (f x) ≡ true)
tally-Attained p f zero lt = absurd (omega (arith, tally_none p f))
tally-Attained p f (suc n) lt = elim (Bool-cases (p (f n))) [
  | inl e ↦ (n, omega arith, e)
  | inr e ↦
      let (x, below, passes) = tally-Attained p f n (ground (arith, tally_step p f n)) in
      (x, omega arith, passes)
]

-- The median of a measurement's samples lies between its minimum and its maximum, and is 0 like both
-- of them if there is no sample.
pub bench_median_u64-bounds :
    (n : ℕ) (st : Stats)
    → Collected n st
    → (st.min_cycles ≤ bench_median_u64 st.samples st.success_count)
      × (bench_median_u64 st.samples st.success_count ≤ st.max_cycles)
bench_median_u64-bounds n st c =
    let m = bench_median_u64 st.samples st.success_count in
    let sides = bench_median_u64-sides st.samples st.success_count in
    elim (Bool-cases (st.success_count == 0)) [
      | inl e ↦
          (let no_samples : m ≡ 0 =
              ap (bench_median_u64 st.samples) (eq_of_== st.success_count 0 e) ∙ sides.0 in
            let cleared = c.empty (eq_of_== st.success_count 0 e) in
            (omega (arith, no_samples, cleared.0), omega (arith, no_samples, cleared.1)))
      | inr e ↦
          let low =
            tally-Attained (λ v. leb v m) st.samples st.success_count (ground (arith, sides.1)) in
          let high =
            tally-Attained (λ v. leb m v) st.samples st.success_count (ground (arith, sides.2)) in
          (
            ground (arith, (c.bounded low.0 low.1).0, low.2),
            ground (arith, (c.bounded high.0 high.1).1, high.2),
          )
    ]
