-- ===== src/Ipc/Buffers.antt =====
-- The helpers of kernel/core/ipc.c: the copy of bytes, the check of a buffer, and the parts of an endpoint.
use d_rpi_proto_os.Base.{
  ℕ, zero, suc, ◌+◌, ◌-◌, Bool, false, ◌&&◌, ◌||◌, not, ◌==◌, if◌then◌else◌, ltb, leb, update,
}
use d_rpi_proto_os.Config.{el0_sandbox_base, el0_sandbox_end, ep_none, ep_count, slot_none}
use d_rpi_proto_os.State.{Endpoint}

abbrev pub endpoint_valid : ℕ → Bool
endpoint_valid ep_id = ltb ep_none ep_id && ltb ep_id ep_count

abbrev pub min_u64 : ℕ → ℕ → ℕ
min_u64 a b = if ltb a b then a else b

-- `bytes_copy` between two arrays, and inside one: `n` rounds left, from round `i`. The code calls
-- it for at least one byte; for none the loop has no round.
unfoldable pub bytes_copy : ℕ → ℕ → (ℕ → ℕ) → ℕ → (ℕ → ℕ) → ℕ → ℕ → ℕ
bytes_copy zero i dst d src s = dst
bytes_copy (suc n) i dst d src s = bytes_copy n (i + 1) (update dst (d + i) (src (s + i))) d src s

unfoldable pub bytes_copy_within : ℕ → ℕ → (ℕ → ℕ) → ℕ → ℕ → ℕ → ℕ
bytes_copy_within zero i m d s = m
bytes_copy_within (suc n) i m d s = bytes_copy_within n (i + 1) (update m (d + i) (m (s + i))) d s

abbrev pub endpoint_clear_pending : Endpoint → Endpoint
endpoint_clear_pending ep = record ep { has_pending = false; pending_len = 0 }

abbrev pub endpoint_clear_caller : Endpoint → Endpoint
endpoint_clear_caller ep = record ep {
  blocked_caller_slot = slot_none;
  caller_reply_ptr = 0;
  caller_reply_cap = 0;
  caller_result_override = 0;
}

abbrev pub endpoint_clear_receiver : Endpoint → Endpoint
endpoint_clear_receiver ep = record ep {
  blocked_receiver_slot = slot_none;
  receiver_buf_ptr = 0;
  receiver_buf_cap = 0;
}

unfoldable pub el0_buf_range_ok : ℕ → ℕ → Bool
el0_buf_range_ok buf len =
    if buf == 0
    then false
    else if len == 0
    then leb el0_sandbox_base buf && ltb buf el0_sandbox_end
    else if ltb buf el0_sandbox_base || leb el0_sandbox_end buf
    then false
    else not (ltb (el0_sandbox_end - buf) len)
