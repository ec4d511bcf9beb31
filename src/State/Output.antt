-- ===== src/State/Output.antt =====
-- Lines that the code prints piece by piece, and that they change the output only.
use d_rpi_proto_os.Base.{ℕ, zero, suc, ◌+◌, List, [], ◌∷◌, ◌++◌, ◌≡◌, refl, ap, ◌∙◌}
use d_rpi_proto_os.State.{Kernel}
use d_rpi_proto_os.State.Effect.{uart_puts, uart_puts_lem, crlf}

-- A row of calls of `uart_puts`, or of `printk_u64` and `printk_hex_u64` on a number's text.
unfoldable pub print_all : List (List ℕ) → Kernel → Kernel
print_all [] k = k
print_all (s ∷ rest) k = print_all rest (uart_puts s k)

-- The second state is the first with another output.
abbrev pub Prints : Kernel → Kernel → Type 0
Prints k k' = (out : List ℕ) × (k' ≡ record k { uart = out })

print_all-uart :
    (texts : List (List ℕ)) (k : Kernel) (out : List ℕ)
    → Prints k (print_all texts (record k { uart = out }))
unfolding print_all
print_all-uart [] k out = (out, refl)
print_all-uart (s ∷ rest) k out =
    let (last, e) = print_all-uart rest k (out ++ crlf s) in
    (last, ap (print_all rest) (uart_puts_lem s (record k { uart = out })) ∙ e)

pub print_all-Prints : (texts : List (List ℕ)) (k : Kernel) → Prints k (print_all texts k)
print_all-Prints texts k = print_all-uart texts k k.uart

pub Prints-trans : (k : Kernel) {k' k'' : Kernel} → Prints k k' → Prints k' k'' → Prints k k''
Prints-trans k (out, e) (out', e') = (out', e' ∙ ap {A = Kernel} (λ k. record k { uart = out' }) e)

-- `n` bytes of memory from `buf`, from byte `i` on.
unfoldable pub bytes_from : (ℕ → ℕ) → ℕ → ℕ → ℕ → List ℕ
bytes_from m buf i zero = []
bytes_from m buf i (suc n) = m (buf + i) ∷ bytes_from m buf (i + 1) n
