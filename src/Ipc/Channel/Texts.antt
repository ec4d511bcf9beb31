-- ===== src/Ipc/Channel/Texts.antt =====
-- The bytes of a message as a list, against the copies of the code.
use d_rpi_proto_os.Base.{
  ℕ, zero, suc, ◌+◌, ◌-◌, ◌≤◌, ◌<◌, ◌≡◌, refl, ap, ◌∙◌, inl, inr, Bool-cases, ◌∷◌, ltb, arith,
}
use d_rpi_proto_os.State.Output.{bytes_from}
use d_rpi_proto_os.Ipc.{bytes_copy, min_u64}
use d_rpi_proto_os.Ipc.Copy.{bytes_copy_lem}
use d_rpi_proto_os.Ipc.Rendezvous.{Copied}
use d_rpi_proto_os.Ipc.Channel.{length, take}
use d_rpi_proto_os.Ipc.Channel.Meaning.{nth, Holds}

pub bytes_from_same :
    (m m' : ℕ → ℕ) (buf buf' i n : ℕ)
    → ((j : ℕ) → j < i + n → m (buf + j) ≡ m' (buf' + j))
    → bytes_from m buf i n ≡ bytes_from m' buf' i n
unfolding bytes_from
bytes_from_same m m' buf buf' i zero same = refl
bytes_from_same m m' buf buf' i (suc n) same =
    rw
      (same i (omega arith), bytes_from_same m m' buf buf' (i + 1) n (λ j lt. same j (omega arith)))
      refl

pub length-bytes_from : (m : ℕ → ℕ) (p i n : ℕ) → length (bytes_from m p i n) ≡ n
unfolding bytes_from length
length-bytes_from m p i zero = refl
length-bytes_from m p i (suc n) = ap suc (length-bytes_from m p (i + 1) n)

take-short :
    (m : ℕ → ℕ) (p i n room : ℕ) → n ≤ room → take room (bytes_from m p i n) ≡ bytes_from m p i n
unfolding bytes_from take
take-short m p i zero zero le = refl
take-short m p i zero (suc room) le = refl
take-short m p i (suc n) zero le = absurd (omega arith)
take-short m p i (suc n) (suc room) le =
    ap (λ vs. m (p + i) ∷ vs) (take-short m p (i + 1) n room (omega arith))

take-long :
    (m : ℕ → ℕ) (p i n room : ℕ) → room ≤ n → take room (bytes_from m p i n) ≡ bytes_from m p i room
unfolding bytes_from take
take-long m p i n zero le = refl
take-long m p i zero (suc room) le = absurd (omega arith)
take-long m p i (suc n) (suc room) le =
    ap (λ vs. m (p + i) ∷ vs) (take-long m p (i + 1) n room (omega arith))

pub take-bytes_from :
    (m : ℕ → ℕ) (p i n room : ℕ)
    → take room (bytes_from m p i n) ≡ bytes_from m p i (min_u64 n room)
take-bytes_from m p i n room = elim (Bool-cases (ltb n room)) [
  | inl e ↦ rw e (take-short m p i n room (ground arith))
  | inr e ↦ rw e (take-long m p i n room (ground arith))
]

nth-bytes_from : (m : ℕ → ℕ) (p i n j : ℕ) → j < n → nth (bytes_from m p i n) j ≡ m (p + (i + j))
unfolding bytes_from nth
nth-bytes_from m p i zero j lt = absurd (omega arith)
nth-bytes_from m p i (suc n) zero lt = ap m (omega arith)
nth-bytes_from m p i (suc n) (suc j) lt =
    nth-bytes_from m p (i + 1) n j (omega arith) ∙ ap m (omega arith)

-- What the copy loop leaves is the memory with the text in it.
pub Copied-Holds :
    (m' m old : ℕ → ℕ) (dst src n room : ℕ)
    → Copied m' m dst old src (min_u64 n room)
    → Holds m' m dst (take room (bytes_from old src 0 n))
Copied-Holds m' m old dst src n room copied a = rw (take-bytes_from old src 0 n room) (
    ground (
      arith,
      copied a,
      length-bytes_from old src 0 (min_u64 n room),
      nth-bytes_from old src 0 (min_u64 n room) (a - dst),
    ))

-- A message that was copied into the endpoint.
pub kept_message :
    (old m : ℕ → ℕ) (src n : ℕ)
    → bytes_from (bytes_copy n 0 old 0 m src) 0 0 n ≡ bytes_from m src 0 n
kept_message old m src n =
    bytes_from_same (bytes_copy n 0 old 0 m src) m 0 src 0 n
      (λ j lt. ground (arith, bytes_copy_lem n old 0 m src (0 + j)))

pub taken_length :
    (m : ℕ → ℕ) (p n room : ℕ) → length (take room (bytes_from m p 0 n)) ≡ min_u64 n room
taken_length m p n room =
    ap length (take-bytes_from m p 0 n room) ∙ length-bytes_from m p 0 (min_u64 n room)
