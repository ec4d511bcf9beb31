-- ===== src/Printk/Decimal.antt =====
-- `printk_u64`: its text read back.
use d_rpi_proto_os.Base.{
  ℕ, zero, suc, ◌+◌, ◌-◌, ◌*◌, ◌/◌, ◌%◌, ◌^◌, ◌<◌, ◌≡◌, refl, ap, ◌∙◌, List, [], ◌∷◌, inl, inr,
  arith, ◌==◌, Bool-cases, eq_of_==,
}
use d_rpi_proto_os.Printk.{store_digits, decimal}

-- The number that a decimal text denotes, behind digits of value `acc`.
unfoldable pub read_decimal : List ℕ → ℕ → ℕ
read_decimal [] acc = acc
read_decimal (c ∷ s) acc = read_decimal s (acc * 10 + (c - b'0'))

-- The loop puts the digits of `v` before the text, if there is room for them.
read_decimal-store_digits :
    (room v : ℕ) (buf : List ℕ)
    → v < 10 ^ room
    → read_decimal (store_digits room v buf) 0 ≡ read_decimal buf v
unfolding store_digits read_decimal
read_decimal-store_digits zero v buf lt = ap (read_decimal buf) (omega arith)
read_decimal-store_digits (suc room) v buf lt = elim (Bool-cases (v == 0)) [
  | inl e ↦ rw (e, eq_of_== v 0 e) refl
  | inr e ↦ rw e (
      read_decimal-store_digits room (v / 10) ((b'0' + v % 10) ∷ buf) (omega arith)
      ∙ ap (read_decimal buf) (omega arith))
]

-- The text that printk_u64 writes for a number below 2 ^ 64, read as decimal digits, gives the
-- number back.
pub read_decimal-decimal : (v : ℕ) → v < 2 ^ 64 → read_decimal (decimal v) 0 ≡ v
unfolding decimal read_decimal
read_decimal-decimal v lt = elim (Bool-cases (v == 0)) [
  | inl e ↦ rw (e, eq_of_== v 0 e) refl
  | inr e ↦ rw e (read_decimal-store_digits 20 v [] (omega arith))
]
