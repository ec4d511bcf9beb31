-- ===== src/El0Resume/Blocked.antt =====
-- A system call that blocks, from the trap to the return with the result that wakes the task.
use d_rpi_proto_os.Base.{ℕ, ◌<◌, ◌≡◌, ◌∙◌, ap, update, update_self, ◌==◌, if◌then◌else◌}
use d_rpi_proto_os.State.{UserTaskCtx}
use d_rpi_proto_os.Task.Registers.{Holds}
use d_rpi_proto_os.Arm.{Cpu, exec}
use d_rpi_proto_os.Vectors.Trap.{el0_frame}
use d_rpi_proto_os.State.{Kernel, Build, ReturnReason, Thread}
use d_rpi_proto_os.State.Effect.{done}
use d_rpi_proto_os.Thread.Current.{IsCurrent}
use d_rpi_proto_os.Invariant.{ThreadOk}
use d_rpi_proto_os.Ipc.Range.{InSandbox}
use d_rpi_proto_os.Task.{woken, thread_user_trap_redirect, save_frame}
use d_rpi_proto_os.Task.Redirect.{redirected, thread_user_trap_redirect_lem}
use d_rpi_proto_os.Task.Registers.{save_frame-Holds}
use mathlib.Core.Path.{subst}
use d_rpi_proto_os.El0Resume.{UserCtxAt, el0_resume, el0_resume-RunsWith}

-- User code `c` goes on with `v` in x0, and all else as it was.
pub record Returned (c : Cpu) (v : ℕ) (c' : Cpu) : Type 0 where
  pub registers : (j : ℕ) → j < 31 → c'.regs j ≡ update c.regs 0 v j
  pub stack : c'.user_stack ≡ c.user_stack
  pub pc : c'.pc ≡ c.pc
  pub status : c'.pstate ≡ c.pstate

update_same : (f g : ℕ → ℕ) (v j : ℕ) → f j ≡ g j → update f 0 v j ≡ update g 0 v j
update_same f g v j same = ap (λ w. if 0 == j then v else w) same

-- If user task s, current and in its place, has trapped with the frame of its registers and a
-- program counter in the sandbox, then the redirection of its trap does not panic; and if later s
-- is as the redirection left it and then woken with value v, el0_resume on its context goes on
-- behind the system call with v in x0, and with the other registers, the stack pointer and the
-- status that the trap interrupted.
pub blocked_call-Returned :
    (b : Build) (reason : ReturnReason) (k k' : Kernel) (s v syndrome address : ℕ) (c c2 : Cpu)
    → k.frame ≡ el0_frame syndrome address c
    → IsCurrent k s
    → ThreadOk s (k.threads s)
    → InSandbox k.frame.elr
    → k'.threads s ≡ woken v ((redirected b reason s k).threads s)
    → UserCtxAt c2.mem (c2.regs 0) (k'.threads s).user.ctx
    → (thread_user_trap_redirect b reason k ≡ done tt (redirected b reason s k))
      × Returned c v (exec el0_resume c2)
blocked_call-Returned b reason k k' s v syndrome address c c2 framed cur ok inside awake there =
    let saved = save_frame k.frame reason (k.threads s).user in
    let thread = update_self k.threads s (record (k.threads s) { user = saved }) in
    let ctx = ap (λ (t : Thread). t.user.ctx) (awake ∙ ap (woken v) thread) in
    let holds : Holds saved.ctx (el0_frame syndrome address c) =
      subst (Holds saved.ctx) framed (save_frame-Holds k.frame reason (k.threads s).user) in
    let runs = el0_resume-RunsWith c2 (k'.threads s).user.ctx there in
    (
      thread_user_trap_redirect_lem b reason k s cur ok inside,
      record {
        registers = λ j lt.
            runs.registers j lt
            ∙ ap (λ (u : UserTaskCtx). u.x j) ctx
            ∙ update_same saved.ctx.x c.regs v j (holds.registers j lt);
        stack = runs.stack ∙ ap (λ (u : UserTaskCtx). u.sp_el0) ctx ∙ holds.stack;
        pc = runs.pc ∙ ap (λ (u : UserTaskCtx). u.elr) ctx ∙ holds.pc;
        status = runs.status ∙ ap (λ (u : UserTaskCtx). u.spsr) ctx ∙ holds.status;
      },
    )
