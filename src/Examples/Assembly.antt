-- ===== src/Examples/Assembly.antt =====
-- Tests of the assembly: a processor, handlers, memory, and the theorems applied to them.
use d_rpi_proto_os.Base.{
  ℕ, ◌+◌, ◌-◌, ◌/◌, ◌%◌, ◌^◌, ◌≡◌, inl, refl, arith, some, ◌==◌, if◌then◌else◌, update, update_ne,
}
use d_rpi_proto_os.Config.{micro, el0_sandbox_base}
use d_rpi_proto_os.State.{Kernel}
use d_rpi_proto_os.Thread.{save_ctx}
use d_rpi_proto_os.Arm.{Cpu, at, exec, take_exception}
use d_rpi_proto_os.Vectors.{Handlers, exception, save_context_el0}
use d_rpi_proto_os.Vectors.Interrupt.{Resumed, entry_code, interrupt-Resumed}
use d_rpi_proto_os.ContextSwitch.{context_switch}
use d_rpi_proto_os.ContextSwitch.Registers.{live_ctx, ctx_at}
use d_rpi_proto_os.ContextSwitch.Kernel.{Contexts, ctx_addr, context_switch-Refines}
use d_rpi_proto_os.BootCode.{Places, Reset, start_code}
use d_rpi_proto_os.BootCode.Started.{Started, start_code-Started}
use d_rpi_proto_os.Examples.{build, powered_on}
use d_rpi_proto_os.Examples.Blank.{zero_thread}

-- User code in the sandbox, whose registers and memory hold their own numbers.
abbrev user_code : Cpu
user_code = record {
  regs = λ j. j;
  stack = 0x4020_1000;
  user_stack = el0_sandbox_base + 0x8000;
  pc = el0_sandbox_base + 0x140;
  pstate = 0;
  elr = 0;
  spsr = 0;
  esr = 0;
  far = 0;
  vbar = 0x4000_0800;
  mem = λ a. a;
}

-- C code that changes registers and memory below the frame.
abbrev clobber : Cpu → Cpu
clobber c = record c { regs = update (update c.regs 0 99) 17 98; mem = update c.mem 0x4020_0000 7 }

abbrev handlers : Handlers
handlers = record {
  exception_sync_el1 = clobber;
  exception_sync_el0 = clobber;
  exception_irq = clobber;
}

interrupt-Resumed_example : Resumed user_code (exception handlers 9 0 0 user_code)
unfolding exec save_context_el0
interrupt-Resumed_example =
    interrupt-Resumed handlers 9 0 0 user_code (omega arith) (omega arith) (omega arith) (record {
      stack = refl;
      user_stack = refl;
      frame = λ i lt.
          update_ne (entry_code 9 (take_exception 0 0 user_code)).mem 0x4020_0000 7
            (at 0x4020_0ee0 i) (λ e. absurd (omega (arith, e, lt)));
      elr = refl;
      spsr = refl;
    })

-- Threads whose contexts are what this memory holds.
abbrev boot_place : ℕ
boot_place = 0x4000_0000

abbrev in_memory : Kernel
in_memory = record powered_on {
  threads = λ s. record zero_thread {
    ctx = ctx_at (λ a. a) (ctx_addr (build micro) boot_place (some s));
  };
  boot_ctx = ctx_at (λ a. a) boot_place;
}

-- The processor at the call of `context_switch` from thread 0 to thread 2.
abbrev switching : Cpu
switching = record user_code {
  regs = λ j.
      if j == 0
      then ctx_addr (build micro) boot_place (some 0)
      else if j == 1
      then ctx_addr (build micro) boot_place (some 2)
      else if j == 30
      then 0x4000_2468
      else j - 18;
  stack = 0x4020_0f00;
}

context_switch-Refines_example :
    Contexts
      (build micro)
      boot_place
      (exec context_switch switching).mem
      (save_ctx (build micro) (some 0) in_memory)
    × (live_ctx (exec context_switch switching) ≡ (in_memory.threads 2).ctx)
    × ((exec context_switch switching).pc ≡ (in_memory.threads 2).ctx.lr)
    × ((exec context_switch switching).pstate / 2 ^ 7 % 2 ≡ 0)
context_switch-Refines_example =
    context_switch-Refines (build micro) boot_place (omega arith, omega arith, inl (omega arith))
      in_memory switching (record { threads = λ s lt. refl; boot_ctx = refl }) refl (some 0) 2
      (λ o e. ground (arith, e)) (omega arith) refl refl

abbrev places : Places
places = record {
  stack_top = 0x4020_1000;
  bss_start = 0x4008_0000;
  bss_end = 0x4008_0020;
  el1_entry = 0x4008_0100;
}

abbrev after_reset : Reset
after_reset = record {
  cpu = user_code;
  current_el = 8;
  hcr_el2 = 0;
  cnthctl_el2 = 0;
  cntvoff_el2 = 5;
  spsr_el2 = 0;
  elr_el2 = 0;
}

start_code-Started_example :
    (r' : Reset) × (start_code 5 places after_reset ≡ some r') × Started places after_reset r'
start_code-Started_example =
    start_code-Started places after_reset 5 (omega arith) (omega arith) (omega arith) (inl refl)
