-- ===== src/Config.antt =====
-- kernel/include/kernel/config.h, the numeric constants of thread.h, ipc.h, syscall.h and arch.h, and
-- the build's choices: the flavor and the benchmark mode.
use d_rpi_proto_os.Base.{ℕ, ◌+◌, ◌-◌, ◌^◌}

abbrev pub kernel_load_addr : ℕ
kernel_load_addr = 0x4000_0000

abbrev pub kernel_idmap_size : ℕ
kernel_idmap_size = 0x0100_0000

abbrev pub el0_sandbox_size : ℕ
el0_sandbox_size = 0x0020_0000

abbrev pub el0_sandbox_base : ℕ
el0_sandbox_base = kernel_load_addr + kernel_idmap_size - el0_sandbox_size

abbrev pub el0_sandbox_end : ℕ
el0_sandbox_end = el0_sandbox_base + el0_sandbox_size

abbrev pub el0_code_end : ℕ
el0_code_end = el0_sandbox_base + 0x0001_0000

abbrev pub el0_task_c_stack_bottom : ℕ
el0_task_c_stack_bottom = 0x40FA_0000

abbrev pub el0_task_c_stack_top : ℕ
el0_task_c_stack_top = 0x40FC_0000

abbrev pub el0_task_a_stack_bottom : ℕ
el0_task_a_stack_bottom = 0x40FC_0000

abbrev pub el0_task_a_stack_top : ℕ
el0_task_a_stack_top = 0x40FE_0000

abbrev pub el0_task_b_stack_bottom : ℕ
el0_task_b_stack_bottom = 0x40FE_0000

abbrev pub el0_task_b_stack_top : ℕ
el0_task_b_stack_top = 0x4100_0000

-- thread.h
abbrev pub thread_quantum_ticks : ℕ
thread_quantum_ticks = 10

abbrev pub thread_count : ℕ
thread_count = 4

abbrev pub thread_slot_task_a : ℕ
thread_slot_task_a = 0

abbrev pub thread_slot_task_b : ℕ
thread_slot_task_b = 1

abbrev pub thread_slot_task_c : ℕ
thread_slot_task_c = 2

abbrev pub thread_slot_idle : ℕ
thread_slot_idle = 3

-- ipc.h
abbrev pub ipc_msg_size : ℕ
ipc_msg_size = 256

abbrev pub ep_none : ℕ
ep_none = 0

abbrev pub ep_uart : ℕ
ep_uart = 1

abbrev pub ep_bench : ℕ
ep_bench = 2

abbrev pub ep_count : ℕ
ep_count = 3

-- The bit pattern of an `int32_t` -1, and of the `uint32_t` IPC_OWNER_NONE.
abbrev pub slot_none : ℕ
slot_none = 0xFFFF_FFFF

-- (uint64_t)-1, the error value of a system call.
abbrev pub minus_one : ℕ
minus_one = 2 ^ 64 - 1

-- arch.h
abbrev pub spsr_el0t_masked : ℕ
spsr_el0t_masked = 0x3C0

abbrev pub spsr_el1h_masked : ℕ
spsr_el1h_masked = 0x3C5

pub data Flavor : Type 0 where
  mono micro : Flavor

pub data BenchMode : Type 0 where
  bench_off bench_latency bench_recovery : BenchMode

abbrev pub bench_iterations : ℕ
bench_iterations = 1000
