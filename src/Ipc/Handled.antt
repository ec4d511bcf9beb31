-- ===== src/Ipc/Handled.antt =====
-- Each system call of core/ipc.c, made by a running user task in a sound kernel, does not panic, keeps the
-- kernel sound and changes no byte outside the sandbox.
use d_rpi_proto_os.Base.{
  ℕ, ◌≤◌, ◌<◌, ◌≡◌, ◌≢◌, refl, inl, inr, true, false, arith, Bool-cases, ==_refl,
}
use d_rpi_proto_os.Config.{ep_count, ep_uart, slot_none, minus_one, ipc_msg_size}
use d_rpi_proto_os.State.{Kernel, Endpoint, Build, return_ipc_block}
use d_rpi_proto_os.State.Effect.{Ensures, Ensures->>=, done, put_endpoint}
use d_rpi_proto_os.Thread.Current.{thread_current_user_slot_lem}
use d_rpi_proto_os.Waits.{waiter}
use d_rpi_proto_os.Waits.Table.{Place, at_receiver, IsPlace, not_recorded}
use d_rpi_proto_os.Invariant.{EndpointOk, Writable}
use d_rpi_proto_os.Handling.{Trapped, Trapped-awake, Handled}
use d_rpi_proto_os.Handling.Ahead.{Ahead, Trapped-start, Ahead-caller}
use d_rpi_proto_os.Handling.Woken.{Ahead-goes_on, Ahead-leaves}
use d_rpi_proto_os.Ipc.Range.{el0_buf_range_ok_iff}
use d_rpi_proto_os.Ipc.Deliver.{deliver-Ahead}
use d_rpi_proto_os.Ipc.{
  deliver, accept_call, call_refused, ipc_syscall_call, route_refused, ipc_route_uart_write,
  el0_buf_range_ok,
}

-- A buffer that passes the check may be written.
pub range_ok-Writable : (buf len : ℕ) → el0_buf_range_ok buf len ≡ true → Writable buf len
range_ok-Writable buf len h z = let r = (el0_buf_range_ok_iff buf len).0 h in ground arith

module _ {k : Kernel} {c : ℕ} (b : Build) (t : Trapped k c) where
  start : Ahead k c k false
  start = Trapped-start t

  -- The running task is recorded nowhere.
  pub unrecorded : (p : Place) → IsPlace p → waiter k p ≢ c
  unrecorded p okp = not_recorded t.sound.waits p c okp t.small (Trapped-awake t)

  pub refused : (r : ℕ) → Ensures (done r k) (λ _ k'. Handled b k c k')
  refused r = Ahead-goes_on b t start

  accept_call-Handled :
      (i send_ptr send_len reply_ptr reply_cap override : ℕ)
      → i < ep_count
      → (k.endpoints i).blocked_caller_slot ≡ slot_none
      → Writable reply_ptr reply_cap
      → send_len ≤ ipc_msg_size
      → Ensures
          (accept_call b i send_ptr send_len reply_ptr reply_cap override k)
          (λ _ k'. Handled b k c k')
  unfolding accept_call
  accept_call-Handled i send_ptr send_len reply_ptr reply_cap override lt free fits le =
      rw (thread_current_user_slot_lem k c t.current, Ensures, accept_call)
        (Ensures->>= (λ _ k'. Ahead k c k' true) _ (deliver i send_ptr send_len) _ _
          (deliver-Ahead t.small recorded i send_ptr send_len lt le
            (rw (==_refl i) (unrecorded (at_receiver i) lt)))
          (λ _ k' h.
            let (goes, handled) = Ahead-leaves b t return_ipc_block (λ e. cc) h in
            rw (goes, Ensures) handled))
    where
      ok : EndpointOk (k.endpoints i)
      ok = t.sound.endpoints_ok i lt

      ep : Endpoint
      ep = record (k.endpoints i) {
        blocked_caller_slot = c;
        caller_reply_ptr = reply_ptr;
        caller_reply_cap = reply_cap;
        caller_result_override = override;
      }

      recorded : Ahead k c (put_endpoint i ep k) true
      recorded =
          Ahead-caller t.small start i ep lt refl
            (record {
              owner = ok.owner;
              reply_buf = fits;
              recv_buf = ok.recv_buf;
              fits = ok.fits;
              unheard = ok.unheard;
            })
            free refl refl

  -- `SYS_ipc_call`.
  pub ipc_syscall_call-Handled : Ensures (ipc_syscall_call b k) (λ _ k'. Handled b k c k')
  unfolding ipc_syscall_call
  ipc_syscall_call-Handled = elim (Bool-cases (call_refused k (x 0) (x 1) (x 2) (x 3) (x 4))) [
    | inl e ↦ rw e (refused minus_one)
    | inr e ↦ rw e (
        accept_call-Handled (x 0) (x 1) (x 2) (x 3) (x 4) 0 (ground arith) (ground arith)
          (range_ok-Writable (x 3) (x 4) (ground arith)) (ground arith))
  ]
    where
      x : ℕ → ℕ
      x = k.frame.x

  -- `SYS_write` of the MICRO flavor, routed to the UART server.
  pub ipc_route_uart_write-Handled :
      (buf len : ℕ) → Ensures (ipc_route_uart_write b buf len k) (λ _ k'. Handled b k c k')
  unfolding ipc_route_uart_write
  ipc_route_uart_write-Handled buf len = elim (Bool-cases (route_refused k buf len)) [
    | inl e ↦ rw e (refused minus_one)
    | inr e ↦ rw e (
        accept_call-Handled ep_uart buf len 0 0 len (omega arith) (ground arith)
          (λ z. absurd (omega arith)) (ground arith))
  ]
