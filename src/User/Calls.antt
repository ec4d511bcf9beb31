-- ===== src/User/Calls.antt =====
-- kernel/el0/user_tasks.c: the system calls of the user tasks, and what a task asks of the kernel and
-- the hardware. A task's program is a function of the requests made so far; what the kernel answers is
-- a parameter, so that a statement on a program holds against every kernel.
use d_rpi_proto_os.Base.{ℕ, zero, suc, Bool, List, [], ◌∷◌, ◌++◌, ◌==◌, if◌then◌else◌}

-- What goes into an argument register: a number, or the address of an object, as its bytes.
pub data Arg : Type 0 where
  word : ℕ → Arg
  buffer : (ℕ → ℕ) → Arg

-- `svc` with the number in x8 and the arguments from x0 on; the reads of the counter registers; `brk`.
pub data Request : Type 0 where
  svc : ℕ → List Arg → Request
  read_cntvct read_cntfrq brk : Request

-- What comes back: x0, and the bytes of the buffer that the call may fill.
pub record Answer : Type 0 where
  pub x0 : ℕ
  pub filled : ℕ → ℕ

-- The requests, the last one first, and `g_uart_server_crashed_once`.
pub record UserState : Type 0 where
  pub requests : List Request
  pub crashed_once : Bool

-- The answer to the first of the requests, behind the others.
abbrev pub Answers : Type 0
Answers = List Request → Answer

abbrev pub U : Type 0 → Type 0
U A = UserState → A × UserState

abbrev pub pure : {A : Type 0} → A → U A
pure a s = (a, s)

infixl 5 ◌>>=◌ ◌>>◌
abbrev pub ◌>>=◌ : {A B : Type 0} → U A → (A → U B) → U B
◌>>=◌ m f s = f (m s).0 (m s).1

abbrev pub ◌>>◌ : {B : Type 0} → U (Unit {0}) → U B → U B
m >> n = m >>= λ _. n

abbrev pub requested : Request → UserState → UserState
requested r s = record s { requests = r ∷ s.requests }

module _ (answers : Answers) where
  abbrev pub ask : Request → U Answer
  ask r s = (answers (r ∷ s.requests), requested r s)

  abbrev pub el0_syscall2 : ℕ → Arg → Arg → U ℕ
  el0_syscall2 nr arg0 arg1 = do a ← ask (svc nr (arg0 ∷ arg1 ∷ [])); pure a.x0

  abbrev pub el0_syscall3 : ℕ → Arg → Arg → Arg → U Answer
  el0_syscall3 nr arg0 arg1 arg2 = ask (svc nr (arg0 ∷ arg1 ∷ arg2 ∷ []))

  abbrev pub el0_syscall5 : ℕ → Arg → Arg → Arg → Arg → Arg → U ℕ
  el0_syscall5 nr arg0 arg1 arg2 arg3 arg4 = do
    a ← ask (svc nr (arg0 ∷ arg1 ∷ arg2 ∷ arg3 ∷ arg4 ∷ []))
    pure a.x0

  abbrev pub el0_write_ret : (ℕ → ℕ) → ℕ → U ℕ
  el0_write_ret buf len = el0_syscall2 2 (buffer buf) (word len)

  abbrev pub el0_write : (ℕ → ℕ) → ℕ → U (Unit {0})
  el0_write buf len = do _ ← el0_write_ret buf len; pure tt

  abbrev pub el0_yield : U (Unit {0})
  el0_yield = do _ ← el0_syscall2 0 (word 0) (word 0); pure tt

  abbrev pub el0_time_ticks : U ℕ
  el0_time_ticks = el0_syscall2 1 (word 0) (word 0)

  abbrev pub el0_ipc_call : ℕ → (ℕ → ℕ) → ℕ → (ℕ → ℕ) → ℕ → U ℕ
  el0_ipc_call ep_id send_ptr send_len reply_ptr reply_cap =
      el0_syscall5 4 (word ep_id) (buffer send_ptr) (word send_len) (buffer reply_ptr)
        (word reply_cap)

  -- The buffer holds what the kernel has put there.
  abbrev pub el0_ipc_recv : ℕ → (ℕ → ℕ) → ℕ → U Answer
  el0_ipc_recv ep_id recv_ptr recv_cap =
      el0_syscall3 5 (word ep_id) (buffer recv_ptr) (word recv_cap)

  abbrev pub el0_ipc_reply : ℕ → (ℕ → ℕ) → ℕ → U ℕ
  el0_ipc_reply ep_id reply_ptr reply_len = do
    a ← el0_syscall3 6 (word ep_id) (buffer reply_ptr) (word reply_len)
    pure a.x0

  abbrev pub el0_supervise_wait : U ℕ
  el0_supervise_wait = el0_syscall2 7 (word 0) (word 0)

  abbrev pub el0_task_restart : ℕ → U ℕ
  el0_task_restart slot = el0_syscall2 8 (word slot) (word 0)

  abbrev pub el0_read_cntvct : U ℕ
  el0_read_cntvct = do a ← ask read_cntvct; pure a.x0

  abbrev pub el0_read_cntfrq : U ℕ
  el0_read_cntfrq = do a ← ask read_cntfrq; pure a.x0

-- The first n bytes of an object.
unfoldable pub bytes_of : ℕ → (ℕ → ℕ) → List ℕ
bytes_of zero buf = []
bytes_of (suc n) buf = buf 0 ∷ bytes_of n (λ i. buf (suc i))

-- The text that a request asks the kernel to write: the bytes of the buffer of SYS_write.
unfoldable pub asked_text : Request → List ℕ
unfolding bytes_of
asked_text (svc nr (buffer buf ∷ word len ∷ [])) = if nr == 2 then bytes_of len buf else []
asked_text _ = []

-- The text of a row of requests, the last one first.
unfoldable pub written : List Request → List ℕ
unfolding asked_text
written [] = []
written (r ∷ rs) = written rs ++ asked_text r
