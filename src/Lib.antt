-- ===== src/Lib.antt =====
-- The verified model of proto-os, a small AArch64 kernel in two flavors: in MONO the system calls of
-- the user tasks reach the UART directly, in MICRO writes are routed as messages to a UART server that
-- runs as a user task, and a supervisor task is told of deaths and restarts the server.
--
-- The program's parts. kernel_main (proto-os/kernel/core/init.c) sets up the tables, the MMU and the
-- devices, and starts the first thread. Three user tasks and an idle thread share a static table of
-- threads (core/thread.c). A user task enters the kernel by an exception: exception_sync_el0
-- (arch/aarch64/arch.c) calls syscall_dispatch (core/syscall.c), or thread_user_fault. The calls of
-- core/ipc.c and core/supervisor.c record waiting tasks in static variables and wake tasks. A call that
-- ends or blocks the task's turn redirects the trap frame to user_task_return_to_kernel, which settles
-- the task's state, cleans up after a dead task, and schedules. An interrupt goes by exception_irq and
-- gic_handle_irq to timer_handle_irq, which counts the tick and charges the current thread's quantum.
--
-- Which file models which part (paths below proto-os/kernel):
--   State, State/Effect, State/Output: struct thread, struct trap_frame, struct ipc_endpoint and all
--     static variables of core/ as one record, and the effects of the code: state, output, and panic,
--     which never returns (core/panic.c, arch/aarch64/uart_pl011.c).
--   Config: include/kernel/config.h, thread.h and ipc.h. Printk: core/printk.c.
--   Thread, Task, Return, Boot: core/thread.c (scheduler and ticks; operations on user tasks;
--     user_task_return_step and what follows a context switch; initialisation).
--   Ipc: core/ipc.c. Ipc/Channel is the reference: an endpoint as a channel with a message, a caller and
--     a receiver, what each call makes of it, and what a death does.
--   Supervisor: core/supervisor.c, with Supervisor/Mailbox as the reference: one kept death, and one task
--     that watches. Syscall: core/syscall.c. Trap: the synchronous exceptions of
--     arch/aarch64/arch.c. System: an exception as a whole, and the states that the kernel reaches by
--     exceptions, interrupts and turns of the idle thread.
--   Arm: the instructions of the assembly as steps of a processor. On it, Vectors: arch/aarch64/vectors.S;
--     ContextSwitch: context_switch.S; El0Resume: el0_resume.S; BootCode: boot.S. Their theorems tie
--     the processor's registers and memory to the kernel's records: Vectors/Frame and Vectors/Trap the
--     trap frame, ContextSwitch/Kernel the contexts of the threads, El0Resume that of a user task.
--   Mmu: mm/mmu.c. Mmu/Walk is the reference: the architecture's walk of a table, with
--     blocks at both levels and the rights of EL0 and EL1, and the memory map.
--   Devices: arch/aarch64/gic.c and timer.c, the set-up of uart_pl011.c, and exception_irq.
--     Devices/Clock is the reference: a clock that counts down between its ticks.
--   KernelMain: core/init.c, on the kernel, the MMU and the devices together.
--   User: el0/user_tasks.c (Calls: the system calls; Tasks: the loops of the three tasks; TaskA: task A's
--     program in each mode; Collect, Sort, Emit: the measurements). Server and Supervising are the
--     references: the services of tasks B and C, round by round, as automata on their requests; the lives
--     of task B are joined by restarts.
--   Waits, Invariant: what holds between two entries. Every waiting task is recorded in exactly one
--     place (an endpoint's caller or receiver, or the waiting supervisor), and only waiting tasks are.
--     A kept message fits the kernel's array, and nobody waits for a message that is there.
--   Handling: the invariant while a call is on its way, when the records are ahead of the tasks.
--   Examples: a build, states, hardware and a kernel's answers, and the theorems applied to them.
--
-- How the code is read. A pointer into g_threads is an index, and an int32_t slot is its bit pattern.
-- Memory is a function from addresses to bytes, and the message buffers are functions too. Registers,
-- lengths and addresses are natural numbers; the code compares them and subtracts only where the test
-- before has ruled out a borrow, or the wrap is written out. The linker's addresses, the flavor and the
-- mode are the record Build; its live_regs stands for the registers that compiled code holds at a
-- context switch. In the kernel's model a switch saves the old thread's registers, and the new thread
-- goes on at thread_bootstrap or behind its own scheduling point (Return.continue_thread). For the
-- assembly, memory is a function from addresses to 64-bit words, since all its accesses are words at
-- multiples of 8 from a base. A handler in C that the assembly calls is a function on the processor,
-- and what it does to the frame and keeps of the stack pointers is a hypothesis (Vectors.Interrupt.Keeps,
-- Vectors.Trap.Compiled): it stands for what the compiler and the calling convention promise.
-- A program of a user task is a function of the requests made so far; the kernel's answers are a
-- parameter, so that what is said of a program holds against every kernel. A pointer that such a
-- program passes stands as the bytes that it points to. What device registers give
-- when they are read, and the counter's frequency, are parameters too (Devices.Hardware). A shift or a
-- mask by a constant is a division, a product or a remainder; an or is bit_or.
-- Loops are structural recursion on the number of rounds left, which is the loop's own bound, so that
-- no fuel can run out; the digits of a number below 2 ^ 64 fit the bound of 20 or 21 places. Only
-- bss_loop of boot.S takes a number of rounds, of which one more than its words is enough. The loops of
-- the user tasks never end, and are followed for any number of rounds.
-- An interrupt is taken between two whole steps of System.Reached, from user code or in the idle thread.
-- In the source one may also come inside a step, where arch_enable_irq or the end of context_switch lets
-- it through; that interleaving is not modelled. The timer register is left as the set-up or the last
-- interrupt has written it; only Devices/Clock lets it count.
--
-- Not modelled: the call of vectors_init in kernel_main, whose instruction is in the model of the assembly
-- (Vectors.vectors_init) and changes nothing of the kernel's record; the linker script, whose addresses are
-- parameters, the driver for the Pi 4's UART, whose functions are empty, barriers and cache maintenance,
-- which change no value here, and the scripts. The wait for room in the UART's FIFO is the hardware's.
-- DEBUG_EARLY is 0 and DEBUG_TICK is 1, as the configuration says.
pub mod Base
pub mod Config
pub mod State
pub mod Printk
pub mod Thread
pub mod Task
pub mod Ipc
pub mod Supervisor
pub mod Syscall
pub mod Trap
pub mod Return
pub mod Boot
pub mod Waits
pub mod Invariant
pub mod Handling
pub mod System
pub mod Devices
pub mod Mmu
pub mod User
pub mod KernelMain
pub mod Arm
pub mod Vectors
pub mod ContextSwitch
pub mod El0Resume
pub mod BootCode
pub mod Examples
