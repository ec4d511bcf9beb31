-- ===== src/System.antt =====
-- The whole kernel as a system of steps: it starts, a user task traps, an interrupt comes, the idle thread
-- wakes up. vectors.S saves a frame on entry and returns to the frame's address.
pub mod Steps
pub mod Interrupted
pub mod Alive
pub mod Reachable
use d_rpi_proto_os.Base.{ℕ, ◌<◌, ◌≤◌, ◌≡◌, ◌⊎◌, Option, some, ◌==◌, if◌then◌else◌}
use d_rpi_proto_os.Config.{thread_slot_idle, el0_sandbox_base, el0_sandbox_end}
use d_rpi_proto_os.State.{Kernel, TrapFrame, Build}
use d_rpi_proto_os.State.Effect.{M, done, ◌>>=◌, ◌>>◌, gets, skip}
use d_rpi_proto_os.Devices.{Devices, Hardware, exception_irq}
use d_rpi_proto_os.State.Output.{Prints}
use d_rpi_proto_os.Trap.{exception_sync_el0}
use d_rpi_proto_os.Ipc.Range.{InSandbox}
use d_rpi_proto_os.Handling.{Outside}
use d_rpi_proto_os.Return.{user_task_return_to_kernel, idle_round, thread_start}
use d_rpi_proto_os.Boot.{kernel_setup}

-- An exception from EL0: the handler, and what the return address of the frame leads to.
unfoldable pub serve_el0 : Build → M (Unit {0})
serve_el0 b = do
  exception_sync_el0 b
  k ← gets (λ k. k)
  if k.frame.elr == b.user_task_return_to_kernel then user_task_return_to_kernel b else skip

-- The state in which the handler finds the kernel: the frame that was saved, and the memory as the
-- user code has left it.
abbrev pub entered : TrapFrame → (ℕ → ℕ) → Kernel → Kernel
entered tf m k = record k { frame = tf; mem = m }

-- The states that the kernel reaches. User code runs in the sandbox, and writes only there.
pub data Reached (b : Build) : Kernel → Type 0 where
  started :
      (k k' k1 k2 : Kernel)
      → kernel_setup b k ≡ done tt k'
      → Prints k' k1
      → thread_start b k1 ≡ done tt k2
      → Reached b k2
  interrupted :
      (hw : Hardware) (d : Devices) (k : Kernel)
      → Reached b k
      → Reached b (exception_irq hw b.mode d k).1
  idle_woken :
      (k k' : Kernel)
      → Reached b k
      → k.current ≡ some thread_slot_idle
      → idle_round b k ≡ done tt k'
      → Reached b k'
  trapped :
      (k k' : Kernel) (c : ℕ) (tf : TrapFrame) (m : ℕ → ℕ)
      → Reached b k
      → k.current ≡ some c
      → c < thread_slot_idle
      → InSandbox tf.elr
      → ((a : ℕ) → Outside a → m a ≡ k.mem a)
      → serve_el0 b (entered tf m k) ≡ done tt k'
      → Reached b k'
