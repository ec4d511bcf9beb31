-- ===== src/Examples/Exceptions.antt =====
-- Tests of the exceptions of user code, on the processor and in the kernel.
use d_rpi_proto_os.Base.{
  ℕ, ◌+◌, ◌*◌, ◌<◌, ◌≡◌, refl, ap, sym, ◌∙◌, arith, ◌==◌, if◌then◌else◌, update, update_ne,
  update_self, table-at, Bool-cases, inl, inr, eq_of_==,
}
use mathlib.Core.Path.{subst}
use d_rpi_proto_os.Config.{micro, el0_sandbox_base, el0_task_a_stack_top}
use d_rpi_proto_os.State.{Kernel, TrapFrame, return_ipc_block}
use d_rpi_proto_os.State.Effect.{Outcome, done, put_thread}
use d_rpi_proto_os.Task.{woken, thread_user_trap_redirect, user_task_init, save_frame, copy_regs}
use d_rpi_proto_os.Task.Redirect.{redirected}
use d_rpi_proto_os.Trap.{exception_sync_el0, syscall_to_x0}
use d_rpi_proto_os.Trap.Handled.{Served}
use d_rpi_proto_os.Syscall.{syscall_dispatch, dispatch}
use d_rpi_proto_os.Thread.{thread_ticks_now}
use d_rpi_proto_os.Arm.{Cpu, at, exec, take_exception}
use d_rpi_proto_os.Vectors.{Handlers, exception}
use d_rpi_proto_os.Vectors.Frame.{FrameAt, save_el0-Saved}
use d_rpi_proto_os.Vectors.Trap.{Continues, el0_entered, el0_exception-Continues}
use d_rpi_proto_os.El0Resume.{el0_resume}
use d_rpi_proto_os.El0Resume.Blocked.{Returned, blocked_call-Returned}
use d_rpi_proto_os.Supervisor.{supervisor_init}
use d_rpi_proto_os.Ipc.{ipc_init}
use d_rpi_proto_os.Boot.{init_threads, init_user_thread, thread_init_slot}
use d_rpi_proto_os.Examples.{build, trapped, trapped-Trapped, frame_of, svc_esr}

-- Task A asks for the time, system call 1.
abbrev time_regs : ℕ → ℕ
time_regs = update (λ j. j) 8 1

abbrev asking : Cpu
asking = record {
  regs = time_regs;
  stack = 0x4020_1000;
  user_stack = el0_task_a_stack_top;
  pc = el0_sandbox_base + 0x140;
  pstate = 0;
  elr = 0;
  spsr = 0;
  esr = 0;
  far = 0;
  vbar = 0x4000_0800;
  mem = λ a. a;
}

abbrev asked : Kernel
asked = trapped micro (frame_of time_regs svc_esr)

-- A handler that writes the ticks, which are 0, over x0 in the frame.
abbrev answer_zero : Cpu → Cpu
answer_zero c = record c { mem = update c.mem (at c.stack 0) 0 }

abbrev handlers : Handlers
handlers = record {
  exception_sync_el1 = λ c. c;
  exception_sync_el0 = answer_zero;
  exception_irq = λ c. c;
}

FrameAt-result :
    (m : ℕ → ℕ) (base v : ℕ) (tf : TrapFrame)
    → FrameAt m base tf
    → FrameAt (update m (at base 0) v) base (record tf { x = update tf.x 0 v })
FrameAt-result m base v tf f =
    let other = λ (i : ℕ) (lt : i < 288) (pos : 0 < i).
      update_ne m (at base 0) v (at base i) (λ e. absurd (ground (arith, e))) in
    record {
      registers = λ j lt. elim (Bool-cases (0 == j)) [
        | inl e ↦
            subst (λ j. update m (at base 0) v (at base (8 * j)) ≡ update tf.x 0 v j)
              (eq_of_== 0 j e) (update_self m (at base 0) v)
        | inr e ↦
            other (8 * j) (omega arith) (ground (arith, e)) ∙ f.registers j lt ∙ ground (arith, e)
      ];
      stack = other 248 (omega arith) (omega arith) ∙ f.stack;
      pc = other 256 (omega arith) (omega arith) ∙ f.pc;
      status = other 264 (omega arith) (omega arith) ∙ f.status;
      syndrome = other 272 (omega arith) (omega arith) ∙ f.syndrome;
      fault = other 280 (omega arith) (omega arith) ∙ f.fault;
    }

abbrev answered : Kernel
answered = record asked { frame = record (frame_of time_regs svc_esr) { x = update time_regs 0 0 } }

asked-answered : exception_sync_el0 (build micro) asked ≡ done tt answered
unfolding exception_sync_el0 syscall_to_x0 syscall_dispatch dispatch thread_ticks_now init_threads
    init_user_thread thread_init_slot user_task_init supervisor_init ipc_init
asked-answered = refl

frame_after : Outcome (Unit {0}) → TrapFrame
frame_after (done a k) = k.frame
frame_after _ = frame_of time_regs svc_esr

el0_exception-Continues_example :
    (k' : Kernel) × (exception_sync_el0 (build micro) asked ≡ done tt k')
    × Served (build micro) asked 0 k'
    × Continues (build micro) 0 asking k' (exception handlers 8 svc_esr 0 asking)
    × ((exception handlers 8 svc_esr 0 asking).stack ≡ asking.stack)
unfolding frame_after
el0_exception-Continues_example =
    el0_exception-Continues (build micro) asked 0 svc_esr 0 asking refl handlers 8 (omega arith)
      (omega arith) (λ e. absurd (omega (arith, e))) (trapped-Trapped micro time_regs svc_esr)
      (omega arith)
      (record {
        stack = refl;
        user_stack = refl;
        frame = λ k' e.
            let c1 = el0_entered svc_esr 0 asking in
            subst (FrameAt (answer_zero c1).mem c1.stack) (ap frame_after (sym asked-answered ∙ e))
              (FrameAt-result c1.mem c1.stack 0 (frame_of time_regs svc_esr)
                (save_el0-Saved (take_exception svc_esr 0 asking)).frame);
      })

-- Task A calls the UART server with registers that the memory holds from this place on.
abbrev ctx_place : ℕ
ctx_place = 0x4001_0090

abbrev call_regs : ℕ → ℕ
call_regs j = ctx_place + 8 * j

abbrev calling : Cpu
calling = record asking { regs = call_regs }

abbrev called : Kernel
called = trapped micro (frame_of call_regs svc_esr)

-- The server has answered with five bytes.
abbrev waiting_over : Kernel
waiting_over =
    put_thread 0 (woken 5 ((redirected (build micro) return_ipc_block 0 called).threads 0)) called

abbrev resuming : Cpu
resuming = record calling {
  regs = λ _. ctx_place;
  mem = λ a.
      if a == ctx_place
      then 5
      else if a == ctx_place + 248
      then calling.user_stack
      else if a == ctx_place + 256
      then calling.pc
      else if a == ctx_place + 264
      then 0
      else a;
}

blocked_call-Returned_example :
    (thread_user_trap_redirect (build micro) return_ipc_block called
      ≡ done tt (redirected (build micro) return_ipc_block 0 called))
    × Returned calling 5 (exec el0_resume resuming)
unfolding save_frame copy_regs
blocked_call-Returned_example =
    let t = trapped-Trapped micro call_regs svc_esr in
    blocked_call-Returned (build micro) return_ipc_block called waiting_over 0 5 svc_esr 0 calling
      resuming refl t.current (t.sound.threads_ok 0 (omega arith)) t.elr refl
      (record {
        registers = λ j lt.
            table-at 31 (λ j. resuming.mem (at ctx_place (8 * j)))
              (waiting_over.threads 0).user.ctx.x j refl lt;
        stack = refl;
        pc = refl;
        status = refl;
      })
