-- ===== src/Task/Wake.antt =====
-- The wake-up of a user task.
use d_rpi_proto_os.Base.{ℕ, ◌<◌, ◌≡◌, false, arith}
use d_rpi_proto_os.Config.{thread_slot_idle}
use d_rpi_proto_os.State.{Kernel, is_stopped}
use d_rpi_proto_os.State.Effect.{done, put_thread}
use d_rpi_proto_os.Task.{thread_user_wake_with_x0, woken}
use d_rpi_proto_os.Invariant.{ThreadOk}

-- A task that lives is woken.
pub thread_user_wake_with_x0_lem :
    (s v : ℕ) (k : Kernel)
    → s < thread_slot_idle
    → ThreadOk s (k.threads s)
    → is_stopped (k.threads s).state ≡ false
    → thread_user_wake_with_x0 s v k ≡ done tt (put_thread s (woken v (k.threads s)) k)
unfolding thread_user_wake_with_x0
thread_user_wake_with_x0_lem s v k lt ok live = ground (arith, ok.kind, ok.dead)
