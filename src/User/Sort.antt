-- ===== src/User/Sort.antt =====
-- kernel/el0/user_tasks.c: `bench_sort_u64` and `bench_median_u64`, on an array of samples.
use d_rpi_proto_os.Base.{ℕ, zero, suc, ◌+◌, ◌-◌, ◌/◌, ◌%◌, ltb, ◌==◌, if◌then◌else◌, update}

-- The inner loop at place j, and the store of `key` behind it.
unfoldable pub shift : (ℕ → ℕ) → ℕ → ℕ → ℕ → ℕ
shift samples key zero = update samples 0 key
shift samples key (suc j) =
    let rest = shift (update samples (suc j) (samples j)) key j in
    if ltb key (samples j) then rest else update samples (suc j) key

-- The outer loop, with `left` rounds to go from place i.
unfoldable pub sort_from : (ℕ → ℕ) → ℕ → ℕ → ℕ → ℕ
sort_from samples i zero = samples
sort_from samples i (suc left) = sort_from (shift samples (samples i) i) (suc i) left

unfoldable pub bench_sort_u64 : (ℕ → ℕ) → ℕ → ℕ → ℕ
bench_sort_u64 samples count = sort_from samples 1 (count - 1)

-- The median of the sorted samples.
unfoldable pub middle : (ℕ → ℕ) → ℕ → ℕ
middle sorted count =
    let mid = count / 2 in
    if count % 2 == 0
    then (let lower = sorted (mid - 1) in let upper = sorted mid in lower + (upper - lower) / 2)
    else sorted mid

unfoldable pub bench_median_u64 : (ℕ → ℕ) → ℕ → ℕ
bench_median_u64 samples count =
    if count == 0 then 0 else middle (bench_sort_u64 samples count) count
