-- ===== src/Ipc/Copy.antt =====
-- The loop of `bytes_copy`, against what it leaves at each address.
use d_rpi_proto_os.Base.{
  ℕ, zero, suc, ◌+◌, ◌-◌, ◌≤◌, ◌<◌, ◌≡◌, ◌⊎◌, refl, ◌&&◌, arith, ltb, leb, if◌then◌else◌, update,
}
use d_rpi_proto_os.Ipc.{bytes_copy, bytes_copy_within}

-- From round `i`, `n` rounds copy the places i to i + n - 1, and no other address changes.
bytes_copy_from :
    (n i : ℕ) (dst : ℕ → ℕ) (d : ℕ) (src : ℕ → ℕ) (s a : ℕ)
    → bytes_copy n i dst d src s a
      ≡ (if leb (d + i) a && ltb a (d + i + n) then src (s + (a - d)) else dst a)
unfolding bytes_copy
bytes_copy_from zero i dst d src s a = ground arith
bytes_copy_from (suc n) i dst d src s a =
    ground (arith, bytes_copy_from n (i + 1) (update dst (d + i) (src (s + i))) d src s a)

pub bytes_copy_lem :
    (n : ℕ) (dst : ℕ → ℕ) (d : ℕ) (src : ℕ → ℕ) (s a : ℕ)
    → bytes_copy n 0 dst d src s a ≡ (if leb d a && ltb a (d + n) then src (s + (a - d)) else dst a)
bytes_copy_lem n dst d src s a = ground (arith, bytes_copy_from n 0 dst d src s a)

-- Inside one array the same holds if the destination does not start within the bytes still to be
-- read.
bytes_copy_within_from :
    (n i : ℕ) (m : ℕ → ℕ) (d s a : ℕ)
    → (d ≤ s) ⊎ (s + i + n ≤ d + i)
    → bytes_copy_within n i m d s a
      ≡ (if leb (d + i) a && ltb a (d + i + n) then m (s + (a - d)) else m a)
unfolding bytes_copy_within
bytes_copy_within_from zero i m d s a h = ground arith
bytes_copy_within_from (suc n) i m d s a h =
    ground (arith, bytes_copy_within_from n (i + 1) (update m (d + i) (m (s + i))) d s a)

-- If the destination does not start inside the bytes still to be read, the copy loop puts at each
-- address of the destination the byte that the source had, and changes no other address.
pub bytes_copy_within_lem :
    (n : ℕ) (m : ℕ → ℕ) (d s a : ℕ)
    → (d ≤ s) ⊎ (s + n ≤ d)
    → bytes_copy_within n 0 m d s a ≡ (if leb d a && ltb a (d + n) then m (s + (a - d)) else m a)
bytes_copy_within_lem n m d s a h = ground (arith, bytes_copy_within_from n 0 m d s a)

-- Wherever the ranges lie, no address outside the destination changes.
bytes_copy_within_outside_from :
    (n i : ℕ) (m : ℕ → ℕ) (d s a : ℕ)
    → (a < d + i) ⊎ (d + i + n ≤ a)
    → bytes_copy_within n i m d s a ≡ m a
unfolding bytes_copy_within
bytes_copy_within_outside_from zero i m d s a h = refl
bytes_copy_within_outside_from (suc n) i m d s a h =
    ground (arith, bytes_copy_within_outside_from n (i + 1) (update m (d + i) (m (s + i))) d s a)

pub bytes_copy_within_outside :
    (n : ℕ) (m : ℕ → ℕ) (d s a : ℕ) → (a < d) ⊎ (d + n ≤ a) → bytes_copy_within n 0 m d s a ≡ m a
bytes_copy_within_outside n m d s a h = bytes_copy_within_outside_from n 0 m d s a (omega arith)
