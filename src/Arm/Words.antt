-- ===== src/Arm/Words.antt =====
-- Words written one after the other at offsets from a base, and what is read at an offset then.
use d_rpi_proto_os.Base.{
  ℕ, ◌^◌, ◌<◌, ◌≡◌, ◌≢◌, refl, ap, ◌∙◌, List, [], ◌∷◌, ◌==◌, if◌then◌else◌, update, update_ne,
  arith,
}
use d_rpi_proto_os.Arm.{at}

-- An offset and a word for each write.
abbrev pub Writes : Type 0
Writes = List (ℕ × ℕ)

abbrev pub write_all : ℕ → Writes → (ℕ → ℕ) → ℕ → ℕ
write_all base [] m = m
write_all base ((off, v) ∷ ws) m = write_all base ws (update m (at base off) v)

-- The word at an offset behind the writes, if it was `before` in front of them.
abbrev pub last_write : Writes → ℕ → ℕ → ℕ
last_write [] off before = before
last_write ((o, v) ∷ ws) off before = last_write ws off (if o == off then v else before)

abbrev pub Within : ℕ → Writes → Type 0
Within n [] = Unit {0}
Within n ((o, v) ∷ ws) = (o < n) × Within n ws

at_cancel : (base i j : ℕ) → i < 2 ^ 64 → j < 2 ^ 64 → (at base i == at base j) ≡ (i == j)
at_cancel base i j p q = ground arith

pub write_all-at :
    (ws : Writes) (base off : ℕ) (m : ℕ → ℕ)
    → Within (2 ^ 64) ws
    → off < 2 ^ 64
    → write_all base ws m (at base off) ≡ last_write ws off (m (at base off))
write_all-at [] base off m small lt = refl
write_all-at ((o, v) ∷ ws) base off m small lt =
    write_all-at ws base off (update m (at base o) v) small.1 lt
    ∙ ap (λ b. last_write ws off (if b then v else m (at base off)))
        (at_cancel base o off small.0 lt)

-- A word at none of the first `n` offsets stays.
pub write_all-outside :
    (ws : Writes) (base n a : ℕ) (m : ℕ → ℕ)
    → Within n ws
    → ((i : ℕ) → i < n → at base i ≢ a)
    → write_all base ws m a ≡ m a
write_all-outside [] base n a m small outside = refl
write_all-outside ((o, v) ∷ ws) base n a m small outside =
    write_all-outside ws base n a (update m (at base o) v) small.1 outside
    ∙ update_ne m (at base o) v a (outside o small.0)
