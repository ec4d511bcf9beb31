-- ===== src/Ipc/Range.antt =====
-- The bounds check of the IPC buffers, against the sandbox as a set of addresses.
use d_rpi_proto_os.Base.{ℕ, ◌+◌, ◌≤◌, ◌<◌, ◌≡◌, ◌↔◌, true, arith}
use d_rpi_proto_os.Config.{el0_sandbox_base, el0_sandbox_end}
use d_rpi_proto_os.Ipc.{el0_buf_range_ok}

-- The address lies in the sandbox.
abbrev pub InSandbox : ℕ → Type 0
InSandbox a = (el0_sandbox_base ≤ a) × (a < el0_sandbox_end)

-- Every byte of the buffer lies in the sandbox.
abbrev pub Inside : ℕ → ℕ → Type 0
Inside ptr len = (i : ℕ) → i < len → InSandbox (ptr + i)

-- The check accepts a buffer exactly if its address lies in the sandbox and its end, as a sum that
-- does not wrap, is at most the sandbox's end.
pub el0_buf_range_ok_iff :
    (buf len : ℕ)
    → (el0_buf_range_ok buf len ≡ true) ↔ (InSandbox buf × (buf + len ≤ el0_sandbox_end))
unfolding el0_buf_range_ok
el0_buf_range_ok_iff buf len = (λ h. ground arith, λ h. ground arith)

pub el0_buf_range_ok-Inside : (buf len : ℕ) → el0_buf_range_ok buf len ≡ true → Inside buf len
el0_buf_range_ok-Inside buf len h i lt = let r = (el0_buf_range_ok_iff buf len).0 h in ground arith
