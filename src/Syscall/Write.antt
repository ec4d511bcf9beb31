-- ===== src/Syscall/Write.antt =====
-- `uart_write_direct`: the bytes that go out.
use d_rpi_proto_os.Base.{ℕ, zero, suc, ◌+◌, ◌≡◌, refl, ap, ◌∙◌, ◌++◌, arith}
use d_rpi_proto_os.State.{Kernel}
use d_rpi_proto_os.State.Effect.{done, uart_putc, uart_puts, crlf, uart_puts_lem}
use d_rpi_proto_os.State.Output.{bytes_from}
use d_rpi_proto_os.Syscall.{put_bytes, uart_write_direct}

uart_putc-mem : (c : ℕ) (k : Kernel) → (uart_putc c k).mem ≡ k.mem
unfolding uart_putc
uart_putc-mem c k = ground arith

put_bytes-eq :
    (n i buf : ℕ) (m : ℕ → ℕ) (k : Kernel)
    → k.mem ≡ m
    → put_bytes n i buf k ≡ uart_puts (bytes_from m buf i n) k
unfolding put_bytes uart_puts bytes_from
put_bytes-eq zero i buf m k e = refl
put_bytes-eq (suc n) i buf m k e =
    put_bytes-eq n (i + 1) buf m (uart_putc (k.mem (buf + i)) k)
      (uart_putc-mem (k.mem (buf + i)) k ∙ e)
    ∙ ap (λ (f : ℕ → ℕ). uart_puts (bytes_from m buf (i + 1) n) (uart_putc (f (buf + i)) k)) e

-- The output loop returns the length, appends the buffer's bytes to the output, with a carriage
-- return before each newline, and changes nothing else.
pub uart_write_direct_lem :
    (buf len : ℕ) (k : Kernel)
    → uart_write_direct buf len k
      ≡ done len (record k { uart = k.uart ++ crlf (bytes_from k.mem buf 0 len) })
unfolding uart_write_direct
uart_write_direct_lem buf len k =
    ap (done len)
      (put_bytes-eq len 0 buf k.mem k refl ∙ uart_puts_lem (bytes_from k.mem buf 0 len) k)
