-- ===== src/Thread/Current.antt =====
-- The current user task, as the operations of core/thread.c look it up.
use d_rpi_proto_os.Base.{ℕ, ◌≡◌, Option, some, arith, ==_refl}
use d_rpi_proto_os.State.{Kernel, Thread, user_task}
use d_rpi_proto_os.State.Effect.{done}
use d_rpi_proto_os.Thread.{current_user_task, thread_current_user_slot}
use Prim.Native.String.{String}

-- Thread `s` runs its user task, for the pointers `current` and `task` and the thread `t`.
pub record CurrentParts (current task : Option ℕ) (t : Thread) (s : ℕ) : Type 0 where
  pub current_eq : current ≡ some s
  pub task_eq : task ≡ some s
  pub kind : t.kind ≡ user_task
  pub slot : t.slot ≡ s

abbrev pub IsCurrent : Kernel → ℕ → Type 0
IsCurrent k s = CurrentParts k.current k.current_task (k.threads s) s

pub current_user_task_lem :
    (msg : String) (k : Kernel) (s : ℕ) → IsCurrent k s → current_user_task msg k ≡ done s k
unfolding current_user_task
current_user_task_lem msg k s c = rw (c.task_eq, c.current_eq, c.kind) (rw (==_refl s))

pub thread_current_user_slot_lem :
    (k : Kernel) (s : ℕ) → IsCurrent k s → thread_current_user_slot k ≡ done s k
unfolding thread_current_user_slot
thread_current_user_slot_lem k s c =
    ground (arith, current_user_task_lem "invalid current user task" k s c, c.slot)
