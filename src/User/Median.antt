-- ===== src/User/Median.antt =====
-- `bench_median_u64`: its value lies in the middle of the samples, whatever their order.
use d_rpi_proto_os.Base.{
  ℕ, zero, suc, ◌+◌, ◌-◌, ◌*◌, ◌/◌, ◌%◌, ◌≤◌, ◌<◌, ◌≡◌, refl, inl, inr, leb, ◌==◌, Bool, true,
  false, Bool-cases, arith,
}
use d_rpi_proto_os.User.Sort.{middle, bench_sort_u64, bench_median_u64}
use d_rpi_proto_os.User.Sorted.{tally, tally_step, Ascending, bench_sort_u64-Ascending}

-- The test holds on all places before n, or from place a on.
tally_before :
    (p : ℕ → Bool) (f : ℕ → ℕ) (a n : ℕ)
    → a ≤ n
    → ((x : ℕ) → x < a → p (f x) ≡ true)
    → a ≤ tally p f n
tally_before p f a zero le all = omega arith
tally_before p f a (suc n) le all = elim (Bool-cases (a == suc n)) [
  | inl e ↦ ground (arith, tally_step p f n, tally_before p f n n, all n)
  | inr e ↦ ground (arith, tally_step p f n, tally_before p f a n)
]

tally_from :
    (p : ℕ → Bool) (f : ℕ → ℕ) (a n : ℕ)
    → ((x : ℕ) → a ≤ x → x < n → p (f x) ≡ true)
    → n ≤ a + tally p f n
tally_from p f a zero all = omega arith
tally_from p f a (suc n) all =
    ground (arith, tally_step p f n, tally_from p f a n (λ x le lt. all x le (omega arith)), all n)

-- A value that bounds the samples before place a from above and those from place b on from below.
tally_sides :
    (f : ℕ → ℕ) (n m a b : ℕ)
    → a ≤ n
    → ((x : ℕ) → x < a → f x ≤ m)
    → ((x : ℕ) → b ≤ x → x < n → m ≤ f x)
    → (a ≤ tally (λ v. leb v m) f n) × (n ≤ b + tally (λ v. leb m v) f n)
tally_sides f n m a b le low high = (
  tally_before (λ v. leb v m) f a n le (λ x lt. ground (arith, low x lt)),
  tally_from (λ v. leb m v) f b n (λ x from lt. ground (arith, high x from lt)),
)

-- The median of sorted samples has half of them on either side.
middle-sides :
    (f : ℕ → ℕ) (n : ℕ)
    → 0 < n
    → Ascending f n
    → (n ≤ 2 * tally (λ v. leb v (middle f n)) f n) × (n ≤ 2 * tally (λ v. leb (middle f n) v) f n)
unfolding middle Ascending
middle-sides f n pos up = elim (Bool-cases (n % 2 == 0)) [
  | inl e ↦ rw e (
      let order : f (n / 2 - 1) ≤ f (n / 2) = up (n / 2 - 1) (n / 2) (omega arith) (omega arith) in
      let (below, above) =
        tally_sides f n (f (n / 2 - 1) + (f (n / 2) - f (n / 2 - 1)) / 2) (n / 2) (n / 2)
          (omega arith) (λ x lt. omega (arith, order, up x (n / 2 - 1) (omega arith) (omega arith)))
          (λ x from lt. omega (arith, order, up (n / 2) x from lt)) in
      (ground (arith, below), ground (arith, above)))
  | inr e ↦ rw e (
      let (below, above) =
        tally_sides f n (f (n / 2)) (n / 2 + 1) (n / 2) (ground arith)
          (λ x lt. up x (n / 2) (omega arith) (omega arith)) (λ x from lt. up (n / 2) x from lt) in
      (ground (arith, below), ground (arith, above)))
]

-- The median is 0 without samples; else at least half of the samples, as they were before the sort,
-- are not above it, and at least half are not below it.
pub bench_median_u64-sides :
    (samples : ℕ → ℕ) (count : ℕ)
    → (bench_median_u64 samples 0 ≡ 0)
      × (count ≤ 2 * tally (λ v. leb v (bench_median_u64 samples count)) samples count)
      × (count ≤ 2 * tally (λ v. leb (bench_median_u64 samples count) v) samples count)
unfolding bench_median_u64
bench_median_u64-sides samples zero = (refl, omega arith, omega arith)
bench_median_u64-sides samples (suc n) =
    let sorted = λ (p : ℕ → Bool). bench_sort_u64-Ascending p samples (suc n) in
    let sides =
      middle-sides (bench_sort_u64 samples (suc n)) (suc n) (omega arith) (sorted (λ v. true)).0 in
    let m = middle (bench_sort_u64 samples (suc n)) (suc n) in
    let some_n : (suc n == 0) ≡ false = ground arith in
    rw some_n (
      refl,
      omega (arith, sides.0, (sorted (λ v. leb v m)).1),
      omega (arith, sides.1, (sorted (λ v. leb m v)).1),
    )
