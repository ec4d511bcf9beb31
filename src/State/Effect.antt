-- ===== src/State/Effect.antt =====
-- The code's effects: it reads and writes the kernel's state, and it may end in `panic`, which prints
-- its message and never returns (core/panic.c). Output goes through the UART driver.
use d_rpi_proto_os.Base.{
  ℕ, List, [], ◌∷◌, ◌++◌, ◌==◌, if◌then◌else◌, ◌≡◌, ap, sym, ◌∙◌, inl, inr, Bool-cases, update,
}
use d_rpi_proto_os.State.{Kernel, Thread, Endpoint}
use mathlib.Core.List.{append-nil, append_assoc}
use Prim.Native.Char.{code}
use Prim.Native.String.{String}

pub data Outcome (A : Type 0) : Type 0 where
  done : A → Kernel → Outcome A
  panicked : String → Kernel → Outcome A

abbrev pub M : Type 0 → Type 0
M A = Kernel → Outcome A

abbrev pub pure : {A : Type 0} → A → M A
pure a k = done a k

infixl 5 ◌>>=◌ ◌>>◌
abbrev pub ◌>>=◌ : {A B : Type 0} → M A → (A → M B) → M B
◌>>=◌ m f k = elim (m k) [ done a k' ↦ f a k' | panicked s k' ↦ panicked s k' ]

abbrev pub ◌>>◌ : {B : Type 0} → M (Unit {0}) → M B → M B
m >> n = m >>= λ _. n

abbrev pub gets : {A : Type 0} → (Kernel → A) → M A
gets f k = done (f k) k

abbrev pub modify : (Kernel → Kernel) → M (Unit {0})
modify f k = done tt (f k)

abbrev pub skip : M (Unit {0})
skip = pure tt

-- Writes to one thread and to one endpoint.
abbrev pub put_thread : ℕ → Thread → Kernel → Kernel
put_thread slot t k = record k { threads = update k.threads slot t }

abbrev pub put_endpoint : ℕ → Endpoint → Kernel → Kernel
put_endpoint i ep k = record k { endpoints = update k.endpoints i ep }

-- The code points of a text, which are its bytes in ASCII.
abbrev pub codes : String → List ℕ
codes String.[] = []
codes (String.◌∷◌ c s) = code c ∷ codes s

-- `uart_putc`: a newline is preceded by a carriage return. The wait for room in the FIFO is the
-- hardware's.
unfoldable pub uart_putc : ℕ → Kernel → Kernel
uart_putc c k =
    if c == b'\n'
    then record k { uart = k.uart ++ b'\r' ∷ c ∷ [] }
    else record k { uart = k.uart ++ c ∷ [] }

unfoldable pub uart_puts : List ℕ → Kernel → Kernel
uart_puts [] k = k
uart_puts (c ∷ s) k = uart_puts s (uart_putc c k)

-- `panic`: the message goes out, and the machine stops in a loop of `wfi`.
unfoldable pub panic : {A : Type 0} → String → M A
panic msg k =
    panicked msg (uart_puts (codes "\n") (uart_puts (codes msg) (uart_puts (codes "[panic] ") k)))

-- The output that a text becomes: carriage returns before its newlines.
unfoldable pub crlf : List ℕ → List ℕ
crlf [] = []
crlf (c ∷ s) = if c == b'\n' then b'\r' ∷ c ∷ crlf s else c ∷ crlf s

abbrev put_uart : Kernel → List ℕ → Kernel
put_uart k out = record k { uart = out }

-- Writing a text appends to the output and touches nothing else.
pub uart_puts_lem : (s : List ℕ) (k : Kernel) → uart_puts s k ≡ record k { uart = k.uart ++ crlf s }
unfolding uart_puts uart_putc crlf
uart_puts_lem [] k = ap (put_uart k) (sym (append-nil k.uart))
uart_puts_lem (c ∷ s) k = elim (Bool-cases (c == b'\n')) [
  | inl e ↦ rw e (
      uart_puts_lem s (put_uart k (k.uart ++ b'\r' ∷ c ∷ []))
      ∙ ap (put_uart k) (append_assoc k.uart (b'\r' ∷ c ∷ []) (crlf s)))
  | inr e ↦ rw e (
      uart_puts_lem s (put_uart k (k.uart ++ c ∷ []))
      ∙ ap (put_uart k) (append_assoc k.uart (c ∷ []) (crlf s)))
]

-- Total correctness: the run does not end in `panic`, and its result and state satisfy the predicate.
abbrev pub Ensures : {A : Type 0} → Outcome A → (A → Kernel → Type 0) → Type 0
Ensures (done a k) P = P a k
Ensures (panicked s k) P = ⊥

-- The rule for a sequence, with the middle condition given.
pub Ensures->>= :
    {A B : Type 0} (P : A → Kernel → Type 0) (Q : B → Kernel → Type 0) (m : M A) (f : A → M B)
    (k : Kernel)
    → Ensures (m k) P
    → ((a : A) (k' : Kernel) → P a k' → Ensures (f a k') Q)
    → Ensures ((m >>= f) k) Q
Ensures->>= {A} {B} P Q m f k h next = go (m k) h
  where
    go :
        (o : Outcome A)
        → Ensures o P
        → Ensures {A = B} (elim o [ done a k' ↦ f a k' | panicked s k' ↦ panicked s k' ]) Q
    go (done a k') h = next a k' h
    go (panicked s k') h = elim h [ ]

-- A weaker condition.
pub Ensures-map :
    {A : Type 0} {P Q : A → Kernel → Type 0}
    → ((a : A) (k : Kernel) → P a k → Q a k)
    → (o : Outcome A) → Ensures o P
    → Ensures o Q
Ensures-map f (done a k) h = f a k h
Ensures-map f (panicked s k) h = h

-- A part that does not panic, and what follows it.
pub next :
    {A B : Type 0} (m : M A) (f : A → M B) {k k' : Kernel} {a : A}
    → m k ≡ done a k'
    → (m >>= f) k ≡ f a k'
next {A} {B} m f e =
    ap
      (λ (o : Outcome A). elim o as (λ _. Outcome B) [
        | done a k' ↦ f a k'
        | panicked msg k' ↦ panicked msg k'
      ])
      e
