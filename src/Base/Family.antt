-- ===== src/Base/Family.antt =====
-- A static array, as a function of the index, and a write to one of its places.
use d_rpi_proto_os.Base.Tests.{◌==◌, if◌then◌else◌, eq_of_==, Bool-cases}
use Prim.Native.Nat.{ℕ, zero, suc, ◌<◌}
use mathlib.Core.List.{List, [], ◌∷◌}
use mathlib.Core.Path.{◌≡◌, subst}
use mathlib.Core.Logic.{◌≢◌, inl, inr}
use native.Mathlib.Omega.{arith}

module _ {ℓ} {A : Type ℓ} where
  abbrev pub update : (ℕ → A) → ℕ → A → ℕ → A
  update f i a j = if i == j then a else f j

  pub update_self : (f : ℕ → A) (i : ℕ) (a : A) → update f i a i ≡ a
  update_self f i a = ground arith

  pub update_ne : (f : ℕ → A) (i : ℕ) (a : A) (j : ℕ) → i ≢ j → update f i a j ≡ f j
  update_ne f i a j h = ground arith

  -- What holds of all the first `n` members, and of the new one, holds after the write.
  pub update_all {κ} :
      (P : ℕ → A → Type κ) (n : ℕ) (f : ℕ → A) (i : ℕ) (a : A)
      → ((j : ℕ) → j < n → P j (f j))
      → P i a
      → (j : ℕ) → j < n
      → P j (update f i a j)
  update_all P n f i a all new j lt = elim (Bool-cases (i == j)) [
    | inl e ↦ rw e (subst (λ x. P x a) (eq_of_== i j e) new)
    | inr e ↦ rw e (all j lt)
  ]

-- The first `n` members, the last one first. Families with equal tables agree on them.
abbrev pub table : ℕ → (ℕ → ℕ) → List ℕ
table zero f = []
table (suc n) f = f n ∷ table n f

pub table-at : (n : ℕ) (f g : ℕ → ℕ) (j : ℕ) → table n f ≡ table n g → j < n → f j ≡ g j
table-at zero f g j same lt = absurd (omega arith)
table-at (suc n) f g j same lt = elim (Bool-cases (j == n)) [
  | inl e ↦ ground (arith, same)
  | inr e ↦ table-at n f g j (cc same) (ground (arith, e))
]
