-- ===== src/Printk.antt =====
-- kernel/core/printk.c: decimal and hexadecimal output of a uint64_t.
pub mod Decimal
pub mod Numbers
use d_rpi_proto_os.Base.{
  ℕ, zero, suc, ◌+◌, ◌-◌, ◌/◌, ◌%◌, ◌^◌, Bool, false, ◌||◌, not, List, [], ◌∷◌, ◌==◌, if◌then◌else◌,
  ltb,
}
use d_rpi_proto_os.State.{Kernel}
use d_rpi_proto_os.State.Effect.{uart_puts}

-- The first loop of `printk_u64`, with `room` places left in `buf`: the head is the last digit stored.
unfoldable pub store_digits : ℕ → ℕ → List ℕ → List ℕ
store_digits zero v buf = buf
store_digits (suc room) v buf =
    let rest = store_digits room (v / 10) ((b'0' + v % 10) ∷ buf) in if v == 0 then buf else rest

-- The text that `printk_u64` writes; `buf` has 21 bytes, and the loop uses 20 of them.
unfoldable pub decimal : ℕ → List ℕ
decimal v = if v == 0 then b'0' ∷ [] else store_digits 20 v []

pub printk_u64 : ℕ → Kernel → Kernel
printk_u64 v k = uart_puts (decimal v) k

-- hex[nibble]
unfoldable pub hex_digit : ℕ → ℕ
hex_digit n = if ltb n 10 then b'0' + n else b'a' + n - 10

-- The loop of `printk_hex_u64` from place i = n - 1 down to 0.
unfoldable pub hex_from : ℕ → ℕ → Bool → List ℕ
hex_from zero v started = []
hex_from (suc i) v started =
    let nibble = v / 16 ^ i % 16 in
    let shown = not (nibble == 0) || started || i == 0 in
    let rest = hex_from i v shown in if shown then hex_digit nibble ∷ rest else rest

unfoldable pub hexadecimal : ℕ → List ℕ
unfolding hex_from hex_digit
hexadecimal v = hex_from 16 v false

pub printk_hex_u64 : ℕ → Kernel → Kernel
printk_hex_u64 v k = uart_puts (hexadecimal v) k
