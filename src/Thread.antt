-- ===== src/Thread.antt =====
-- kernel/core/thread.c: the scheduler, and the operations on user tasks that the system calls use.
pub mod Current
pub mod Pick
pub mod Switch
pub mod Tick
pub mod Fair
use d_rpi_proto_os.Base.{
  ℕ, zero, suc, ◌+◌, ◌-◌, ◌*◌, ◌%◌, ◌^◌, Bool, true, false, ◌&&◌, ◌||◌, not, Option, none, some,
  ◌==◌, if◌then◌else◌, ltb, leb,
}
use d_rpi_proto_os.Config.{
  thread_count, thread_slot_idle, thread_quantum_ticks, el0_sandbox_base, el0_sandbox_end,
  kernel_load_addr, kernel_idmap_size,
}
use d_rpi_proto_os.State.{
  Kernel, Thread, UserTaskCtx, Build, is_user_task, is_stopped, is_running, is_dead, is_blocked,
  runnable, running,
}
use d_rpi_proto_os.State.Effect.{M, done, pure, ◌>>=◌, gets, skip, put_thread, panic}
use Prim.Native.String.{String}

abbrev pub points_to : Option ℕ → ℕ → Bool
points_to none slot = false
points_to (some s) slot = s == slot

unfoldable pub thread_is_selectable : Thread → Bool
thread_is_selectable t =
    not (is_stopped t.state)
    && not (is_user_task t.kind && (is_dead t.user.state || is_blocked t.user.state))

-- The loop of `pick_next_thread` with `n` rounds left, from round `i`.
unfoldable pub scan_slots : Kernel → ℕ → ℕ → ℕ → Option ℕ
scan_slots k start zero i = none
scan_slots k start (suc n) i =
    let rest = scan_slots k start n (i + 1) in
    let idx = (start + i) % thread_count in
    if idx == thread_slot_idle
    then rest
    else if not (points_to k.current idx) && thread_is_selectable (k.threads idx)
    then some idx
    else rest

abbrev pub start_slot : Kernel → ℕ
start_slot k = elim k.current [ none ↦ thread_slot_idle | some c ↦ (k.threads c).slot ]

-- `thread_is_selectable(g_current) && g_current->slot != THREAD_SLOT_IDLE`
abbrev pub current_may_stay : Kernel → Option ℕ → Bool
current_may_stay k none = false
current_may_stay k (some c) =
    thread_is_selectable (k.threads c) && not ((k.threads c).slot == thread_slot_idle)

-- What follows the loop.
unfoldable pub pick_fallback : M (Option ℕ)
pick_fallback k =
    if current_may_stay k k.current
    then pure k.current k
    else if thread_is_selectable (k.threads thread_slot_idle)
    then pure (some thread_slot_idle) k
    else panic "no selectable threads" k

unfoldable pub pick_next_thread : M (Option ℕ)
pick_next_thread k = elim (scan_slots k (start_slot k) thread_count 1) [
  | some idx ↦ pure (some idx) k
  | none ↦ pick_fallback k
]

-- context_switch.S: the live registers go to the old context.
unfoldable pub save_ctx : Build → Option ℕ → Kernel → Kernel
save_ctx b none k = record k { boot_ctx = b.live_regs k }
save_ctx b (some prev) k = put_thread prev (record (k.threads prev) { ctx = b.live_regs k }) k

-- `if (prev && prev->state == THREAD_RUNNING) prev->state = THREAD_RUNNABLE;`
unfoldable pub demote : Option ℕ → Kernel → Kernel
demote none k = k
demote (some prev) k =
    let t = k.threads prev in
    if is_running t.state then put_thread prev (record t { state = runnable }) k else k

-- next->state, g_current and a used-up quantum.
unfoldable pub promote : ℕ → Kernel → Kernel
promote next k =
    let t = k.threads next in
    let quantum = if t.quantum_left == 0 then thread_quantum_ticks else t.quantum_left in
    record (put_thread next (record t { state = running; quantum_left = quantum }) k) {
      current = some next;
    }

unfoldable pub thread_switch_to : Build → Option ℕ → M (Unit {0})
thread_switch_to b none k = skip k
thread_switch_to b (some next) k =
    if points_to k.current next
    then skip k
    else let k' = promote next (demote k.current k) in
      let ctx = (k'.threads next).ctx in
      if ctx.lr == 0 || ctx.sp == 0
      then panic "invalid next thread context" k'
      else done tt (save_ctx b k.current k')

unfoldable pub thread_resched_point : Build → M (Unit {0})
thread_resched_point b k =
    let k' = record k { resched_pending = false } in
    if k.resched_pending then (do next ← pick_next_thread; thread_switch_to b next) k' else skip k'

unfoldable pub thread_request_resched : Kernel → Kernel
thread_request_resched k = record k { resched_pending = true }

unfoldable pub thread_ticks_now : Kernel → ℕ
thread_ticks_now k = k.sched_ticks

-- `thread_tick_irq`, past the increment of the ticks: the current thread's quantum.
unfoldable pub charge_quantum : Option ℕ → Kernel → Kernel
charge_quantum none k = k
charge_quantum (some c) k =
    let t = k.threads c in
    let left = t.quantum_left - 1 in
    if left == 0
    then record (put_thread c (record t { quantum_left = thread_quantum_ticks }) k) {
      resched_pending = true;
    }
    else put_thread c (record t { quantum_left = left }) k

unfoldable pub thread_tick_irq : Kernel → Kernel
thread_tick_irq k =
    charge_quantum k.current (record k { sched_ticks = (k.sched_ticks + 1) % 2 ^ 64 })

-- `!t || t != g_current || t->kind != THREAD_USER_TASK`, for t = g_current_task.
unfoldable pub current_user_task : String → M ℕ
current_user_task msg k = elim k.current_task [
  | none ↦ panic msg k
  | some t ↦
      if points_to k.current t && is_user_task (k.threads t).kind then done t k else panic msg k
]

unfoldable pub thread_current_user_slot : M ℕ
thread_current_user_slot = do
  t ← current_user_task "invalid current user task"
  gets (λ k. (k.threads t).slot)

-- sizeof(struct thread) is 464, its user context is at 144 and has 272 bytes.
abbrev pub user_ctx_addr : Build → ℕ → ℕ
user_ctx_addr b slot = b.threads_base + slot * 464 + 144

unfoldable pub thread_current_user_ctx : Build → M UserTaskCtx
thread_current_user_ctx b = do
  t ← current_user_task "invalid current user task"
  k ← gets (λ k. k)
  let addr = user_ctx_addr b t
  let ctx = (k.threads t).user.ctx
  if ltb addr kernel_load_addr || ltb (kernel_load_addr + kernel_idmap_size) (addr + 272)
      then panic "user context pointer outside kernel map"
      else if ltb ctx.elr el0_sandbox_base || leb el0_sandbox_end ctx.elr
      then panic "user resume ELR outside sandbox"
      else pure ctx
