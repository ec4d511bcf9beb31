-- ===== src/Trap.antt =====
-- kernel/arch/aarch64/arch.c: the synchronous exceptions.
pub mod Handled
pub mod Outside
use d_rpi_proto_os.Base.{ℕ, List, [], ◌∷◌, ◌/◌, ◌%◌, ◌^◌, ◌==◌, if◌then◌else◌, update}
use d_rpi_proto_os.State.{Kernel, TrapFrame, Build}
use d_rpi_proto_os.State.Effect.{M, ◌>>=◌, modify, panic, codes}
use d_rpi_proto_os.State.Output.{print_all}
use d_rpi_proto_os.Printk.{hexadecimal}
use d_rpi_proto_os.Task.{thread_user_fault}
use d_rpi_proto_os.Syscall.{Origin, el0_origin, el1_origin, syscall_dispatch}

-- The exception class, bits 26 to 31 of ESR; 0x15 is SVC.
abbrev pub exception_class : ℕ → ℕ
exception_class esr = esr / 2 ^ 26 % 64

-- `tf->x[0] = syscall_dispatch(tf, origin)`
unfoldable pub syscall_to_x0 : Build → Origin → M (Unit {0})
syscall_to_x0 b origin = do
  result ← syscall_dispatch b origin
  modify (λ k. record k { frame = record (k.frame) { x = update k.frame.x 0 result } })

unfoldable pub exception_sync_el0 : Build → M (Unit {0})
exception_sync_el0 b k =
    if exception_class k.frame.esr == 0x15
    then syscall_to_x0 b el0_origin k
    else thread_user_fault b k

abbrev el1_fault_texts : TrapFrame → List (List ℕ)
el1_fault_texts tf =
    codes "[sync] el1 esr=0x"
    ∷ hexadecimal tf.esr
    ∷ codes " elr=0x"
    ∷ hexadecimal tf.elr
    ∷ codes "\n"
    ∷ []

unfoldable pub exception_sync_el1 : Build → M (Unit {0})
exception_sync_el1 b k =
    if exception_class k.frame.esr == 0x15
    then syscall_to_x0 b el1_origin k
    else panic "EL1 sync exception" (print_all (el1_fault_texts k.frame) k)
