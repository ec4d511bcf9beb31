-- ===== src/User/Sorted.antt =====
-- `bench_sort_u64`: the samples come out in order, and they are the same samples.
use d_rpi_proto_os.Base.{
  ℕ, zero, suc, ◌+◌, ◌≤◌, ◌<◌, ◌≡◌, refl, ap, sym, ◌∙◌, inl, inr, ltb, ◌==◌, if◌then◌else◌, update,
  update_self, Bool, true, false, Bool-cases, arith,
}
use mathlib.Core.Path.{subst}
use d_rpi_proto_os.User.Sort.{shift, sort_from, bench_sort_u64}

-- The number of the first n samples that pass a test.
unfoldable pub tally : (ℕ → Bool) → (ℕ → ℕ) → ℕ → ℕ
tally p samples zero = 0
tally p samples (suc n) = (if p (samples n) then 1 else 0) + tally p samples n

pub tally_same :
    (p : ℕ → Bool) (f g : ℕ → ℕ) (n : ℕ) → ((x : ℕ) → x < n → f x ≡ g x) → tally p f n ≡ tally p g n
unfolding tally
tally_same p f g zero same = refl
tally_same p f g (suc n) same =
    rw (same n (omega arith))
      (ap (λ m. (if p (g n) then 1 else 0) + m) (tally_same p f g n (λ x lt. same x (omega arith))))

-- The first n samples are in order.
unfoldable pub Ascending : (ℕ → ℕ) → ℕ → Type 0
Ascending samples n = (x y : ℕ) → x ≤ y → y < n → samples x ≤ samples y

-- The places behind j keep their samples.
shift-behind : (samples : ℕ → ℕ) (key j x : ℕ) → j < x → shift samples key j x ≡ samples x
unfolding shift
shift-behind samples key zero x lt = ground arith
shift-behind samples key (suc j) x lt =
    ground (arith, shift-behind (update samples (suc j) (samples j)) key j x (omega arith))

-- A bound on the samples before j and on the key is a bound on what the loop leaves up to j.
shift_bound :
    (samples : ℕ → ℕ) (key j m : ℕ)
    → key ≤ m
    → ((x : ℕ) → x < j → samples x ≤ m)
    → (x : ℕ) → x ≤ j
    → shift samples key j x ≤ m
unfolding shift
shift_bound samples key zero m key_le all x le = ground arith
shift_bound samples key (suc j) m key_le all x le =
    let last = all j (omega arith) in
    elim (Bool-cases (ltb key (samples j))) [
      | inl e ↦ rw e (elim (Bool-cases (x == suc j)) [
        | inl top ↦
            ground (arith, shift-behind (update samples (suc j) (samples j)) key j x, last, top)
        | inr inner ↦
            shift_bound (update samples (suc j) (samples j)) key j m key_le
              (λ y lt. ground (arith, all y)) x (ground arith)
      ])
      | inr e ↦ rw e (ground (arith, all x))
    ]

-- The loop puts the key in its place.
shift-Ascending :
    (samples : ℕ → ℕ) (key j : ℕ) → Ascending samples j → Ascending (shift samples key j) (suc j)
unfolding shift Ascending
shift-Ascending samples key zero up x y le lt = ground arith
shift-Ascending samples key (suc j) up x y le lt =
    let moved = update samples (suc j) (samples j) in
    elim (Bool-cases (ltb key (samples j))) [
      | inl e ↦ rw e (elim (Bool-cases (y == suc j)) [
        | inl top ↦ ground (
          arith,
          shift-behind moved key j y,
          shift_bound moved key j (samples j) (ground arith) (λ z lt'. ground (arith, up z j)) x,
          top,
        )
        | inr inner ↦
            shift-Ascending moved key j (λ a b le' lt'. ground (arith, up a b)) x y le
              (ground arith)
      ])
      | inr e ↦ rw e (ground (arith, up x y, up x j))
    ]

shift-on :
    (samples : ℕ → ℕ) (key j : ℕ)
    → ltb key (samples j) ≡ true
    → shift samples key (suc j) ≡ shift (update samples (suc j) (samples j)) key j
unfolding shift
shift-on samples key j e = rw e refl

shift-ends :
    (samples : ℕ → ℕ) (key j : ℕ)
    → ltb key (samples j) ≡ false
    → shift samples key (suc j) ≡ update samples (suc j) key
unfolding shift
shift-ends samples key j e = rw e refl

pub tally_step :
    (p : ℕ → Bool) (samples : ℕ → ℕ) (n : ℕ)
    → tally p samples (suc n) ≡ (if p (samples n) then 1 else 0) + tally p samples n
unfolding tally
tally_step p samples n = refl

tally-shift_first :
    (p : ℕ → Bool) (samples : ℕ → ℕ) (key : ℕ)
    → tally p (shift samples key 0) 1 ≡ (if p key then 1 else 0) + tally p samples 0
unfolding tally shift
tally-shift_first p samples key = refl

-- Each test counts the key and the samples before j.
tally-shift :
    (p : ℕ → Bool) (samples : ℕ → ℕ) (key j : ℕ)
    → tally p (shift samples key j) (suc j) ≡ (if p key then 1 else 0) + tally p samples j
tally-shift p samples key zero = tally-shift_first p samples key
tally-shift p samples key (suc j) =
    let moved = update samples (suc j) (samples j) in
    elim (Bool-cases (ltb key (samples j))) [
      | inl e ↦
          rw
            (
              shift-on samples key j e,
              tally_step p (shift moved key j) (suc j),
              shift-behind moved key j (suc j) (omega arith),
              update_self samples (suc j) (samples j),
              tally-shift p moved key j,
              tally_same p moved samples j (λ x lt. ground arith),
              tally_step p samples j,
            )
            (omega arith)
      | inr e ↦
          rw
            (
              shift-ends samples key j e,
              tally_step p (update samples (suc j) key) (suc j),
              update_self samples (suc j) key,
              tally_same p (update samples (suc j) key) samples (suc j) (λ x lt. ground arith),
            )
            refl
    ]

-- The outer loop sorts the first i + left samples if the first i are in order, and keeps each count.
sort_from-Ascending :
    (samples : ℕ → ℕ) (i left : ℕ)
    → Ascending samples i
    → Ascending (sort_from samples i left) (i + left)
unfolding sort_from
sort_from-Ascending samples i zero up = subst (Ascending samples) (omega arith) up
sort_from-Ascending samples i (suc left) up =
    let next = shift samples (samples i) i in
    subst (Ascending (sort_from next (suc i) left)) (omega arith)
      (sort_from-Ascending next (suc i) left (shift-Ascending samples (samples i) i up))

-- What lies behind the place that the loop is at counts as before.
tally-shift_more :
    (p : ℕ → Bool) (samples : ℕ → ℕ) (i m : ℕ)
    → tally p (shift samples (samples i) i) (suc i + m) ≡ tally p samples (suc i + m)
tally-shift_more p samples i zero =
    subst (λ n. tally p (shift samples (samples i) i) n ≡ tally p samples n) (omega arith)
      (tally-shift p samples (samples i) i ∙ sym (tally_step p samples i))
tally-shift_more p samples i (suc m) =
    let next = shift samples (samples i) i in
    subst (λ n. tally p next n ≡ tally p samples n) {x = suc (suc i + m)} (omega arith)
      (rw
        (
          tally_step p next (suc i + m),
          tally_step p samples (suc i + m),
          shift-behind samples (samples i) i (suc i + m) (omega arith),
          tally-shift_more p samples i m,
        )
        refl)

tally-sort_from :
    (p : ℕ → Bool) (samples : ℕ → ℕ) (i left : ℕ)
    → tally p (sort_from samples i left) (i + left) ≡ tally p samples (i + left)
unfolding sort_from
tally-sort_from p samples i zero = refl
tally-sort_from p samples i (suc left) =
    subst
      (λ n. tally p (sort_from (shift samples (samples i) i) (suc i) left) n ≡ tally p samples n)
      (omega arith)
      (tally-sort_from p (shift samples (samples i) i) (suc i) left
        ∙ tally-shift_more p samples i left)

pub sort_rounds :
    (samples : ℕ → ℕ) (left : ℕ) → bench_sort_u64 samples (suc left) ≡ sort_from samples 1 left
unfolding bench_sort_u64
sort_rounds samples left = ap (sort_from samples 1) (omega arith)

sort_none :
    (p : ℕ → Bool) (samples : ℕ → ℕ)
    → Ascending (bench_sort_u64 samples 0) 0
      × (tally p (bench_sort_u64 samples 0) 0 ≡ tally p samples 0)
unfolding tally Ascending
sort_none p samples = (λ x y le lt. absurd (omega arith), refl)

sort_some : (samples : ℕ → ℕ) (left : ℕ) → Ascending (sort_from samples 1 left) (1 + left)
unfolding Ascending
sort_some samples left = sort_from-Ascending samples 1 left (λ x y le lt. ground arith)

-- The sort leaves the first count samples in ascending order, and they are the samples that were
-- there: any test p is passed by as many of them as before.
pub bench_sort_u64-Ascending :
    (p : ℕ → Bool) (samples : ℕ → ℕ) (count : ℕ)
    → Ascending (bench_sort_u64 samples count) count
      × (tally p (bench_sort_u64 samples count) count ≡ tally p samples count)
bench_sort_u64-Ascending p samples zero = sort_none p samples
bench_sort_u64-Ascending p samples (suc left) = rw (sort_rounds samples left) (
  subst (Ascending (sort_from samples 1 left)) {x = 1 + left} {y = suc left} (omega arith)
      (sort_some samples left),
  subst (λ n. tally p (sort_from samples 1 left) n ≡ tally p samples n) {x = 1 + left}
      {y = suc left} (omega arith) (tally-sort_from p samples 1 left),
)
