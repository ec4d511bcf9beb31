-- ===== src/Base/Bits.antt =====
-- The `|` of the native numbers: its law for the lowest bit, and bits set in a number that lacks them.
use Prim.Native.Nat.{ℕ, zero, suc, ◌+◌, ◌*◌, ◌/◌, ◌%◌, ◌≤◌, max, bit_or, digits, bit_or-bitwise}
use mathlib.Core.Path.{◌≡◌, refl}
use native.Mathlib.Omega.{arith}

-- The recursion that `bit_or` stands for takes one round for each bit of its first number.
abbrev or_rounds : ℕ → ℕ → ℕ → ℕ
or_rounds n a b = digits (λ y. y) max n a b

or_rounds_enough : (n m a b : ℕ) → a ≤ n → a ≤ m → or_rounds n a b ≡ or_rounds m a b
or_rounds_enough n m zero b p q = none_left n m b
  where
    none_left : (n m b : ℕ) → or_rounds n 0 b ≡ or_rounds m 0 b
    none_left zero zero b = refl
    none_left zero (suc m) b = refl
    none_left (suc n) zero b = refl
    none_left (suc n) (suc m) b = refl
or_rounds_enough zero m (suc a) b p q = absurd (omega arith)
or_rounds_enough (suc n) zero (suc a) b p q = absurd (omega arith)
or_rounds_enough (suc n) (suc m) (suc a) b p q =
    omega (arith, or_rounds_enough n m (suc a / 2) (b / 2) (omega arith) (omega arith))

zero-bit_or : (b : ℕ) → bit_or 0 b ≡ b
zero-bit_or b = bit_or-bitwise 0 b

pub bit_or_low : (a b : ℕ) → bit_or a b ≡ bit_or (a / 2) (b / 2) * 2 + max (a % 2) (b % 2)
bit_or_low zero b = omega (arith, zero-bit_or b, zero-bit_or (b / 2))
bit_or_low (suc a) b = omega (
  arith,
  bit_or-bitwise (suc a) b,
  bit_or-bitwise (suc a / 2) (b / 2),
  or_rounds_enough a (suc a / 2) (suc a / 2) (b / 2) (omega arith) (omega arith),
)

none_up_to : (n a : ℕ) → a ≤ n → bit_or a 0 ≡ a
none_up_to n zero h = refl
none_up_to zero (suc a) h = absurd (omega arith)
none_up_to (suc n) (suc a) h =
    omega (arith, bit_or_low (suc a) 0, none_up_to n (suc a / 2) (omega arith))

pub bit_or-zero : (a : ℕ) → bit_or a 0 ≡ a
bit_or-zero a = none_up_to a a (omega arith)

pub bit_or_one : (a : ℕ) → bit_or (a * 2) 1 ≡ a * 2 + 1
bit_or_one a = ground (arith, bit_or_low (a * 2) 1, bit_or-zero a)

pub bit_or_two : (a : ℕ) → bit_or (a * 4 + 1) 2 ≡ a * 4 + 3
bit_or_two a = ground (arith, bit_or_low (a * 4 + 1) 2, bit_or_low (a * 2) 1, bit_or-zero a)

-- The bit at a place.
unfoldable pub bit : ℕ → ℕ → ℕ
bit zero a = a % 2
bit (suc k) a = bit k (a / 2)

-- Each bit of `|` is the greater one of the two bits.
pub bit-bit_or : (k a b : ℕ) → bit k (bit_or a b) ≡ max (bit k a) (bit k b)
unfolding bit
bit-bit_or zero a b = omega (arith, bit_or_low a b)
bit-bit_or (suc k) a b = rw halved (bit-bit_or k (a / 2) (b / 2))
  where
    halved : bit_or a b / 2 ≡ bit_or (a / 2) (b / 2)
    halved = omega (arith, bit_or_low a b)
