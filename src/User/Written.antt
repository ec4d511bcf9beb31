-- ===== src/User/Written.antt =====
-- The text that the output functions of kernel/el0/user_tasks.c ask the kernel to write.
use d_rpi_proto_os.Base.{
  ℕ, zero, suc, ◌+◌, ◌/◌, ◌%◌, ◌^◌, ◌<◌, ◌≡◌, refl, ap, sym, ◌∙◌, inl, inr, List, [], ◌∷◌, ◌++◌,
  ◌==◌, Bool-cases, eq_of_==, false, update, update_self, arith,
}
use d_rpi_proto_os.Printk.{decimal, store_digits}
use d_rpi_proto_os.User.Calls.{
  Answers, U, UserState, pure, ◌>>◌, el0_write, bytes_of, asked_text, written,
}
use d_rpi_proto_os.User.Emit.{
  char_at, bench_cstr_len, store_low, low_digits, bench_emit_str, emit_down, bench_emit_u64,
}
use mathlib.Core.Path.{subst}
use mathlib.Core.List.{append-nil, append_assoc}

-- The run asks for one text more.
pub record Emits {A : Type 0} (m : U A) (out : List ℕ) : Type 0 where
  pub text : (s : UserState) → written (m s).1.requests ≡ written s.requests ++ out

pub nothing-Emits : Emits (pure tt) []
nothing-Emits = record { text = λ s. sym (append-nil (written s.requests)) }

infixr 4 ◌⨾◌
pub ◌⨾◌ : {m n : U (Unit {0})} {a b : List ℕ} → Emits m a → Emits n b → Emits (m >> n) (a ++ b)
◌⨾◌ {m} {n} {a} {b} first next = record {
  text = λ s.
      next.text (m s).1 ∙ ap (λ t. t ++ b) (first.text s) ∙ append_assoc (written s.requests) a b;
}

write-Emits :
    (answers : Answers) (buf : ℕ → ℕ) (len : ℕ)
    → Emits (el0_write answers buf len) (bytes_of len buf)
unfolding written asked_text
write-Emits answers buf len = record { text = λ s. refl }

-- The digits from place i - 1 down.
unfoldable down : (ℕ → ℕ) → ℕ → List ℕ
down buf zero = []
down buf (suc i) = buf i ∷ down buf i

down_nothing : (f : ℕ → ℕ) → down f 0 ≡ []
unfolding down
down_nothing f = refl

down_same : (f g : ℕ → ℕ) (i : ℕ) → ((x : ℕ) → x < i → f x ≡ g x) → down f i ≡ down g i
unfolding down
down_same f g zero same = refl
down_same f g (suc i) same =
    rw (same i (omega arith), down_same f g i (λ x lt. same x (omega arith))) refl

down-update : (buf : ℕ → ℕ) (i d : ℕ) → down (update buf i d) (suc i) ≡ d ∷ down buf i
unfolding down
down-update buf i d =
    rw (update_self buf i d, down_same (update buf i d) buf i (λ x lt. ground arith)) refl

-- The array from the top down has the digits in the order of the kernel's array.
down-store_low :
    (room value : ℕ) (buf : ℕ → ℕ) (i : ℕ)
    → (let end = store_low room value buf i in down end.0 end.1)
      ≡ store_digits room value (down buf i)
unfolding store_low store_digits
down-store_low zero value buf i = refl
down-store_low (suc room) value buf i = elim (Bool-cases (value == 0)) [
  | inl e ↦ rw e refl
  | inr e ↦ rw e (
      down-store_low room (value / 10) (update buf i (b'0' + value % 10)) (suc i)
      ∙ ap (store_digits room (value / 10)) (down-update buf i (b'0' + value % 10)))
]

-- A place more makes no difference to a number that fits.
store_digits-room :
    (room value : ℕ) (buf : List ℕ)
    → value < 10 ^ room
    → store_digits (suc room) value buf ≡ store_digits room value buf
unfolding store_digits
store_digits-room zero value buf lt = ground arith
store_digits-room (suc room) value buf lt = elim (Bool-cases (value == 0)) [
  | inl e ↦ rw e refl
  | inr e ↦ rw e (store_digits-room room (value / 10) ((b'0' + value % 10) ∷ buf) (omega arith))
]

low_digits_some :
    (value : ℕ) → (value == 0) ≡ false → low_digits value ≡ store_low 21 value (λ _. 0) 0
unfolding low_digits
low_digits_some value e = rw e refl

decimal_some : (value : ℕ) → (value == 0) ≡ false → decimal value ≡ store_digits 20 value []
unfolding decimal
decimal_some value e = rw e refl

low_digits_zero : (let end = low_digits 0 in down end.0 end.1) ≡ decimal 0
unfolding low_digits decimal down
low_digits_zero = refl

down-low_digits :
    (value : ℕ) → value < 2 ^ 64 → (let end = low_digits value in down end.0 end.1) ≡ decimal value
down-low_digits value lt = elim (Bool-cases (value == 0)) [
  | inl e ↦ rw (eq_of_== value 0 e) low_digits_zero
  | inr e ↦
      rw (low_digits_some value e, decimal_some value e)
        (down-store_low 21 value (λ _. 0) 0
          ∙ ap (store_digits 21 value) (down_nothing (λ _. 0))
          ∙ store_digits-room 20 value [] (omega arith))
]

emit_down-Emits :
    (answers : Answers) (buf : ℕ → ℕ) (i : ℕ) → Emits (emit_down answers buf i) (down buf i)
unfolding emit_down down bytes_of
emit_down-Emits answers buf zero = nothing-Emits
emit_down-Emits answers buf (suc i) =
    subst (λ d. Emits (emit_down answers buf (suc i)) (d ∷ down buf i)) (ap buf (omega arith))
      (write-Emits answers (λ n. buf (i + n)) 1 ⨾ emit_down-Emits answers buf i)

-- For a number below 2 ^ 64, bench_emit_u64 asks the kernel to write, in one request or several,
-- the text that the kernel's own printk_u64 writes, and nothing else.
pub bench_emit_u64-Emits :
    (answers : Answers) (value : ℕ)
    → value < 2 ^ 64
    → Emits (bench_emit_u64 answers value) (decimal value)
unfolding bench_emit_u64
bench_emit_u64-Emits answers value lt =
    subst (Emits (bench_emit_u64 answers value)) (down-low_digits value lt)
      (let end = low_digits value in emit_down-Emits answers end.0 end.1)

-- A string without a zero byte.
unfoldable pub Terminated : List ℕ → Type 0
Terminated s = bytes_of (bench_cstr_len s) (char_at s) ≡ s

pub bench_emit_str-Emits :
    (answers : Answers) (s : List ℕ) → Terminated s → Emits (bench_emit_str answers s) s
unfolding bench_emit_str Terminated
bench_emit_str-Emits answers s ends =
    subst (Emits (bench_emit_str answers s)) ends
      (write-Emits answers (char_at s) (bench_cstr_len s))
