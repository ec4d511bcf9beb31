-- ===== src/Printk/Numbers.antt =====
-- `printk_u64` and `printk_hex_u64`: the texts of a number read back.
use d_rpi_proto_os.Base.{
  ℕ, zero, suc, ◌+◌, ◌-◌, ◌*◌, ◌/◌, ◌%◌, ◌^◌, ◌<◌, ◌≡◌, refl, ap, Bool, true, false, List, [], ◌∷◌,
  inl, inr, arith, ◌==◌, ◌||◌, not, Bool-cases, if◌then◌else◌, ltb,
}
use d_rpi_proto_os.Printk.{hex_digit, hex_from, decimal, hexadecimal}
use d_rpi_proto_os.Printk.Decimal.{read_decimal, read_decimal-decimal}
use native.Mathlib.Nat.{div-div-eq-div-mul, pow-suc}

-- The value of a hexadecimal digit, and the number that a text of them denotes behind value `acc`.
unfoldable digit_value : ℕ → ℕ
digit_value c = if ltb c b'a' then c - b'0' else c - b'a' + 10

unfoldable pub read_hexadecimal : List ℕ → ℕ → ℕ
unfolding digit_value
read_hexadecimal [] acc = acc
read_hexadecimal (c ∷ s) acc = read_hexadecimal s (acc * 16 + digit_value c)

digit_value-hex_digit : (n : ℕ) → n < 16 → digit_value (hex_digit n) ≡ n
unfolding digit_value hex_digit
digit_value-hex_digit n lt = ground arith

-- The digits of `v` above place `i` and the digit of that place.
next_place : (v i : ℕ) → v / 16 ^ suc i * 16 + v / 16 ^ i % 16 ≡ v / 16 ^ i
next_place v i = omega (arith, div-div-eq-div-mul v (16 ^ i) 16, ap (λ p. v / p) (pow-suc 16 i))

read_hexadecimal-hex_from :
    (n v acc : ℕ) (started : Bool)
    → acc ≡ v / 16 ^ n
    → (started ≡ false → acc ≡ 0)
    → read_hexadecimal (hex_from n v started) acc ≡ v
unfolding hex_from read_hexadecimal
read_hexadecimal-hex_from zero v acc started so_far silent = omega (arith, so_far)
read_hexadecimal-hex_from (suc i) v acc started so_far silent =
    let nibble = v / 16 ^ i % 16 in
    let shown = not (nibble == 0) || started || i == 0 in
    elim (Bool-cases shown) [
      | inl e ↦ rw e (
          read_hexadecimal-hex_from i v (acc * 16 + digit_value (hex_digit nibble)) true
            (omega (arith, digit_value-hex_digit nibble (omega arith), next_place v i, so_far))
            (λ eq. ground (arith, eq)))
      | inr e ↦ rw e (
          read_hexadecimal-hex_from i v acc false (ground (arith, e, next_place v i, so_far))
            (λ _. silent (ground (arith, e))))
    ]

-- The text that printk_u64 writes for a number below 2 ^ 64, read as decimal digits, gives the
-- number back, and so does the text that printk_hex_u64 writes for it, read as hexadecimal digits.
pub read-printed :
    (v : ℕ)
    → v < 2 ^ 64
    → (read_decimal (decimal v) 0 ≡ v) × (read_hexadecimal (hexadecimal v) 0 ≡ v)
unfolding hexadecimal
read-printed v lt =
    (read_decimal-decimal v lt, read_hexadecimal-hex_from 16 v 0 false (omega arith) (λ _. refl))
