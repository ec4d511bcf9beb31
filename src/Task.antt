-- ===== src/Task.antt =====
-- kernel/core/thread.c: what the system calls do to user tasks (wake, restart, redirection of a trap to
-- the kernel's continuation, a fault).
pub mod Wake
pub mod Redirect
pub mod Restart
pub mod Registers
use d_rpi_proto_os.Base.{
  ℕ, zero, suc, ◌+◌, Bool, true, false, ◌&&◌, ◌||◌, not, Option, none, some, List, [], ◌∷◌, ◌++◌,
  ◌==◌, if◌then◌else◌, ltb, leb, update,
}
use d_rpi_proto_os.Config.{
  thread_count, el0_sandbox_base, el0_sandbox_end, spsr_el0t_masked, spsr_el1h_masked, BenchMode,
  bench_off, bench_latency, bench_recovery, Flavor, mono, micro,
}
use d_rpi_proto_os.State.{
  Kernel, Thread, UserTask, TrapFrame, ReturnReason, Build, is_user_task, is_stopped, is_dead,
  return_none, return_fault, task_runnable, runnable,
}
use d_rpi_proto_os.State.Effect.{M, done, ◌>>=◌, ◌>>◌, gets, modify, put_thread, panic, codes}
use d_rpi_proto_os.State.Output.{print_all}
use d_rpi_proto_os.Printk.{hexadecimal}
use d_rpi_proto_os.Thread.{thread_request_resched, current_user_task}
use Prim.Native.String.{String}

-- The loops over the 31 general registers: `n` rounds left, from round `i`.
unfoldable pub clear_regs : ℕ → ℕ → (ℕ → ℕ) → ℕ → ℕ
clear_regs zero i x = x
clear_regs (suc n) i x = clear_regs n (i + 1) (update x i 0)

unfoldable pub copy_regs : ℕ → ℕ → (ℕ → ℕ) → (ℕ → ℕ) → ℕ → ℕ
copy_regs zero i from x = x
copy_regs (suc n) i from x = copy_regs n (i + 1) from (update x i (from i))

unfoldable pub user_task_init : Option String → ℕ → ℕ → Thread → Thread
user_task_init name entry sp t = record t {
  user = record (t.user) {
    ctx = record {
      x = clear_regs 31 0 t.user.ctx.x;
      sp_el0 = sp;
      elr = entry;
      spsr = spsr_el0t_masked;
    };
    state = task_runnable;
    return_reason = return_none;
    user_entry = entry;
    user_sp = sp;
    name = name;
    started = false;
  };
}

abbrev pub has_name : Option String → Bool
has_name none = false
has_name (some s) = true

-- The guards of `thread_user_restart`, past the range check.
unfoldable pub may_restart : Thread → Bool
may_restart t =
    is_user_task t.kind
    && (is_dead t.user.state && is_stopped t.state)
    && (not (t.user.user_entry == 0) && not (t.user.user_sp == 0) && has_name t.user.name)

-- True for the return value 0, false for -1.
unfoldable pub thread_user_restart : ℕ → Kernel → Bool × Kernel
thread_user_restart slot k =
    if leb thread_count slot
    then (false, k)
    else let t = k.threads slot in
      if may_restart t
      then (
        true,
        thread_request_resched (
            put_thread slot
              (record (user_task_init t.user.name t.user.user_entry t.user.user_sp t) {
                state = runnable;
              })
              k),
      )
      else (false, k)

-- The assignments of `thread_user_wake_with_x0`.
abbrev pub woken : ℕ → Thread → Thread
woken retval t = record t {
  state = runnable;
  user = record (t.user) {
    ctx = record (t.user.ctx) { x = update t.user.ctx.x 0 retval };
    state = task_runnable;
  };
}

unfoldable pub thread_user_wake_with_x0 : ℕ → ℕ → M (Unit {0})
thread_user_wake_with_x0 slot retval k =
    if leb thread_count slot
    then panic "wake slot out of range" k
    else let t = k.threads slot in
      if not (is_user_task t.kind)
      then panic "wake target is not user task" k
      else if is_stopped t.state || is_dead t.user.state
      then panic "wake target is dead" k
      else done tt (put_thread slot (woken retval t) k)

-- The user context takes the frame's registers.
unfoldable pub save_frame : TrapFrame → ReturnReason → UserTask → UserTask
save_frame tf reason u = record u {
  ctx = record { x = copy_regs 31 0 tf.x u.ctx.x; sp_el0 = tf.sp; elr = tf.elr; spsr = tf.spsr };
  return_reason = reason;
}

unfoldable pub thread_user_trap_redirect : Build → ReturnReason → M (Unit {0})
thread_user_trap_redirect b reason = do
  s ← current_user_task "EL0 trap redirect without user task"
  k ← gets (λ k. k)
  let t = k.threads s
  let tf = k.frame
  if t.ctx.lr == 0 || t.ctx.sp == 0
      then panic "current user thread context invalid"
      else if ltb tf.elr el0_sandbox_base || leb el0_sandbox_end tf.elr
      then panic "EL0 trap ELR outside sandbox"
      else modify (λ k. record (put_thread s (record t { user = save_frame tf reason t.user }) k) {
        frame = record tf { elr = b.user_task_return_to_kernel; spsr = spsr_el1h_masked };
      })

-- Literals that the build's choices fix.
abbrev pub flavor_str : Flavor → List ℕ
flavor_str mono = codes "MONO"
flavor_str micro = codes "MICRO"

abbrev pub mode_str : BenchMode → List ℕ
mode_str bench_off = codes "OFF"
mode_str bench_latency = codes "LATENCY"
mode_str bench_recovery = codes "RECOVERY"

abbrev pub name_or_unknown : Option String → List ℕ
name_or_unknown none = codes "unknown"
name_or_unknown (some s) = codes s

-- The pieces of the line that `thread_user_fault` prints, up to the syndrome.
abbrev fault_prefix : Build → BenchMode → Option String → List (List ℕ)
fault_prefix b bench_recovery name =
    codes "BENCH_META schema=1 phase=fault_injected flavor="
    ∷ flavor_str b.flavor
    ∷ codes " mode="
    ∷ mode_str b.mode
    ∷ codes " task="
    ∷ name_or_unknown name
    ∷ codes " esr=0x"
    ∷ []
fault_prefix b _ name = codes "[fault] " ∷ name_or_unknown name ∷ codes " dead esr=0x" ∷ []

unfoldable pub fault_texts : Build → Option String → TrapFrame → List (List ℕ)
fault_texts b name tf =
    fault_prefix b b.mode name
    ++ (hexadecimal tf.esr
        ∷ codes " elr=0x"
        ∷ hexadecimal tf.elr
        ∷ codes " far=0x"
        ∷ hexadecimal tf.far
        ∷ codes "\n"
        ∷ [])

unfoldable pub thread_user_fault : Build → M (Unit {0})
thread_user_fault b = do
  s ← current_user_task "EL0 fault without user task"
  modify (λ k. print_all (fault_texts b (k.threads s).user.name k.frame) k)
  thread_user_trap_redirect b return_fault
